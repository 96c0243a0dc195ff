-- ===== src/SkuCombination/Laws.antt =====
-- The signature of a SKU whose components are listed in another order.
use mathlib.Core.List.{Permᴰ}
use price_monitor.Prelude.{
  Option, none, some, List, ◌≡◌, refl, sym, ap, ap₂, ◌∙◌, inl, inr, is_empty, ◌||◌, Bool-cases,
  Text, Dict, Result, ok, err, ◌>>=◌,
}
use price_monitor.Report.{MatchDecision, pending, bare, bundle, rejected, manual}
use price_monitor.SkuCombination.{
  Component, CombinationInput, NormalPart, Canonical, Built, signed_sku, review_sku, excluded_sku,
  TextTools, identifier,
}
use price_monitor.SkuCombination.Build.{
  is_core, is_paid, normalized_attributes, normalized_components, canonical_of, sign, signature_of,
  either, build_compared, build_condition, build_decided, build,
}
use price_monitor.SkuCombination.Components.{normalized_components-Permᴰ, parts_with-Permᴰ}

-- The input with other components.
abbrev pub with_components : CombinationInput → List Component → CombinationInput
with_components input cs = record input { components = some cs }

-- The signature and the canonical form that are built, if they are.
abbrev pub signed_form : Built → Option (Text × Canonical)
signed_form (signed_sku signature label canonical reasons) = some (signature, canonical)
signed_form (review_sku reason) = none
signed_form (excluded_sku reason) = none

canonical_of-Permᴰ :
    (brand model : Text) (attributes : Dict Text × Option Text) {ps qs : List NormalPart}
    → Permᴰ ps qs
    → canonical_of brand model attributes ps ≡ canonical_of brand model attributes qs
unfolding canonical_of
canonical_of-Permᴰ brand model attributes p =
    ap₂
      (λ cores accessories. record {
        brand = brand;
        model = model;
        cores = cores;
        accessories = accessories;
        materials = attributes.0;
        color = attributes.1;
      })
      (parts_with-Permᴰ is_core p) (parts_with-Permᴰ is_paid p)

-- The rest of the input does not meet its components.
attributes-with_components :
    (tools : TextTools) (input : CombinationInput) (cs : List Component)
    → normalized_attributes tools (with_components input cs) ≡ normalized_attributes tools input
unfolding normalized_attributes
attributes-with_components tools input cs = refl

abbrev compared :
    TextTools → CombinationInput → List Component → Result Text (Dict Text × Option Text) → Built
compared tools input cs attributes = either (
    attributes >>= λ a.
    (normalized_components tools cs >>= λ ps. ok (sign tools (with_components input cs) a ps)))

sign-Permᴰ :
    (tools : TextTools) (input : CombinationInput) (cs ds : List Component)
    (a : Dict Text × Option Text) {ps qs : List NormalPart}
    → Permᴰ ps qs
    → signed_form (sign tools (with_components input cs) a ps)
      ≡ signed_form (sign tools (with_components input ds) a qs)
unfolding sign
sign-Permᴰ tools input cs ds a p =
    ap (λ c. some (signature_of tools c, c)) (canonical_of-Permᴰ _ _ a p)

compared-Permᴰ :
    (tools : TextTools) (input : CombinationInput) {cs ds : List Component}
    {form : Text × Canonical} (attributes : Result Text (Dict Text × Option Text))
    → Permᴰ cs ds
    → signed_form (compared tools input cs attributes) ≡ some form
    → signed_form (compared tools input ds attributes) ≡ some form
compared-Permᴰ tools input {cs} {ds} {form} (err reason) p h = h
compared-Permᴰ tools input {cs} {ds} {form} (ok a) p h = go (normalized_components tools cs) refl h
  where
    go :
        (r : Result Text (List NormalPart))
        → normalized_components tools cs ≡ r
        → signed_form (either (r >>= λ ps. ok (sign tools (with_components input cs) a ps)))
          ≡ some form
        → signed_form (compared tools input ds (ok a)) ≡ some form
    go (err reason) e k = cc
    go (ok ps) e k =
        let (qs, f, perm) = normalized_components-Permᴰ tools p e in
        rw f (sym (sign-Permᴰ tools input cs ds a perm) ∙ k)

build_compared-Permᴰ :
    (tools : TextTools) (input : CombinationInput) {cs ds : List Component}
    {form : Text × Canonical}
    → Permᴰ cs ds
    → signed_form (build_compared tools (with_components input cs)) ≡ some form
    → signed_form (build_compared tools (with_components input ds)) ≡ some form
unfolding build_compared
build_compared-Permᴰ tools input {cs} {ds} {form} p h =
    let h' : signed_form (compared tools input cs (normalized_attributes tools input)) ≡ some form =
      ap (λ r. signed_form (compared tools input cs r))
        (sym (attributes-with_components tools input cs))
      ∙ h in
    ap (λ r. signed_form (compared tools input ds r)) (attributes-with_components tools input ds)
    ∙ compared-Permᴰ tools input (normalized_attributes tools input) p h'

build_condition-Permᴰ :
    (tools : TextTools) (input : CombinationInput) {cs ds : List Component}
    {form : Text × Canonical} (condition : Option Text)
    → Permᴰ cs ds
    → signed_form (build_condition tools (with_components input cs) condition) ≡ some form
    → signed_form (build_condition tools (with_components input ds) condition) ≡ some form
build_condition-Permᴰ tools input (some t) p h = h
build_condition-Permᴰ tools input {cs} {ds} {form} none p h =
    elim (Bool-cases (
      is_empty (identifier tools input.brand)
      || is_empty (identifier tools input.standard_model))) [
        | inl blank ↦ cc (rw blank at h)
        | inr named ↦ rw named (build_compared-Permᴰ tools input p (rw named at h))
      ]

-- A SKU that is signed has the same signature and the same canonical form whatever the order of its
-- components.
pub build-Permᴰ :
    (tools : TextTools) (input : CombinationInput) {cs ds : List Component}
    {form : Text × Canonical}
    → Permᴰ cs ds
    → signed_form (build tools (with_components input cs)) ≡ some form
    → signed_form (build tools (with_components input ds)) ≡ some form
unfolding build
build-Permᴰ tools input {cs} {ds} {form} p h = go input.decision h
  where
    go :
        (d : Option MatchDecision)
        → signed_form (build_decided tools (with_components input cs) d) ≡ some form
        → signed_form (build_decided tools (with_components input ds) d) ≡ some form
    go none k = k
    go (some pending) k = k
    go (some rejected) k = k
    go (some manual) k = k
    go (some bare) k = build_condition-Permᴰ tools input _ p k
    go (some bundle) k = build_condition-Permᴰ tools input _ p k
