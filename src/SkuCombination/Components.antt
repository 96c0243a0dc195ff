-- ===== src/SkuCombination/Components.antt =====
-- The components of a combination under a reordering.
use mathlib.Core.List.{Permᴰ}
use price_monitor.Prelude.{
  Bool, true, false, Option, none, some, List, ◌∷◌, ◌≡◌, refl, sym, ap, ◌∙◌, subst, inl, inr, any,
  filter, cons_some, Bool-cases, ok, >>=-eq-ok, ok-injective,
}
use price_monitor.Report.{Role}
use price_monitor.SkuCombination.{Component, NormalPart, TextTools}
use price_monitor.SkuCombination.Build.{
  is_unknown, is_core, part_of, parts_of, with_core, normalized_components, parts_with,
}
use price_monitor.SkuCombination.Sorting.{
  sort-Permᴰ, Permᴰ_refl, Permᴰ-map, any-Permᴰ, compare_part-Separates, compare_part-IsOrder,
}

filter-Permᴰ {ℓ} :
    {A : Type ℓ} (p : A → Bool) {xs ys : List A} → Permᴰ xs ys → Permᴰ (filter p xs) (filter p ys)
filter-Permᴰ p Permᴰ.nil = Permᴰ.nil
filter-Permᴰ p (Permᴰ.cons {a} {b} e q) = elim (Bool-cases (p a)) [
  | inl kept ↦
      let k : p b ≡ true = ap p (sym e) ∙ kept in rw (kept, k) (Permᴰ.cons e (filter-Permᴰ p q))
  | inr dropped ↦ let k : p b ≡ false = ap p (sym e) ∙ dropped in rw (dropped, k) (filter-Permᴰ p q)
]
filter-Permᴰ p (Permᴰ.swap {a} {b} {a'} {b'} {l} e f) =
    subst (λ x. Permᴰ (filter p (a ∷ b ∷ l)) (filter p (x ∷ b' ∷ l))) f
      (subst (λ y. Permᴰ (filter p (a ∷ b ∷ l)) (filter p (b ∷ y ∷ l))) e
        (two (p a) refl (p b) refl))
  where
    two :
        (s : Bool)
        → p a ≡ s
        → (t : Bool) → p b ≡ t
        → Permᴰ (filter p (a ∷ b ∷ l)) (filter p (b ∷ a ∷ l))
    two true g true h = rw (g, h) (Permᴰ.swap refl refl)
    two true g false h = rw (g, h) (Permᴰ_refl _)
    two false g true h = rw (g, h) (Permᴰ_refl _)
    two false g false h = rw (g, h) (Permᴰ_refl _)
filter-Permᴰ p (Permᴰ.trans q r) = Permᴰ.trans (filter-Permᴰ p q) (filter-Permᴰ p r)

cons_some-Permᴰ {ℓ} :
    {A : Type ℓ} (o : Option A) {xs ys : List A}
    → Permᴰ xs ys
    → Permᴰ (cons_some o xs) (cons_some o ys)
cons_some-Permᴰ none p = p
cons_some-Permᴰ (some a) p = Permᴰ.cons refl p

cons_some-swap {ℓ} :
    {A : Type ℓ} (o q : Option A) (xs : List A)
    → Permᴰ (cons_some o (cons_some q xs)) (cons_some q (cons_some o xs))
cons_some-swap none q xs = Permᴰ_refl _
cons_some-swap (some a) none xs = Permᴰ_refl _
cons_some-swap (some a) (some b) xs = Permᴰ.swap refl refl

-- What a list that is read without a fault consists of.
abbrev Reads : TextTools → List Component → List NormalPart → Type 0
Reads tools cs ps = parts_of tools cs ≡ ok ps

parts_of-cons :
    (tools : TextTools) (c : Component) (cs : List Component) {ps : List NormalPart}
    → Reads tools (c ∷ cs) ps
    → (o : Option NormalPart) × (qs : List NormalPart) × (part_of tools c ≡ ok o)
      × Reads tools cs qs
      × (cons_some o qs ≡ ps)
unfolding parts_of
parts_of-cons tools c cs h =
    let (o, e, h') = >>=-eq-ok (part_of tools c) _ h in
    let (qs, f, h'') = >>=-eq-ok (parts_of tools cs) _ h' in (o, qs, e, f, ok-injective h'')

parts_of-of :
    (tools : TextTools) (c : Component) (cs : List Component) {o : Option NormalPart}
    {qs : List NormalPart}
    → part_of tools c ≡ ok o
    → Reads tools cs qs
    → Reads tools (c ∷ cs) (cons_some o qs)
unfolding parts_of
parts_of-of tools c cs e f = rw (e, f) refl

-- A reordered list reads as a reordered list.
parts_of-Permᴰ :
    (tools : TextTools) {cs ds : List Component} {ps : List NormalPart}
    → Permᴰ cs ds
    → Reads tools cs ps
    → (qs : List NormalPart) × Reads tools ds qs × Permᴰ ps qs
parts_of-Permᴰ tools {ps} Permᴰ.nil h = (ps, h, Permᴰ_refl ps)
parts_of-Permᴰ tools {ps} (Permᴰ.cons {a} {b} {l₁} {l₂} e p) h =
    let (o, rs, here, rest, same) = parts_of-cons tools a l₁ h in
    let (qs, there, perm) = parts_of-Permᴰ tools p rest in
    (
      cons_some o qs,
      parts_of-of tools b l₂ (ap (part_of tools) (sym e) ∙ here) there,
      subst (λ xs. Permᴰ xs (cons_some o qs)) same (cons_some-Permᴰ o perm),
    )
parts_of-Permᴰ tools {ps} (Permᴰ.swap {a} {b} {a'} {b'} {l} e f) h =
    let (o, rs, first, rest, same) = parts_of-cons tools a (b ∷ l) h in
    let (q, ts, second, end, same') = parts_of-cons tools b l rest in
    (
      cons_some q (cons_some o ts),
      parts_of-of tools a' (b' ∷ l) (ap (part_of tools) (sym f) ∙ second)
          (parts_of-of tools b' l (ap (part_of tools) (sym e) ∙ first) end),
      subst (λ xs. Permᴰ xs (cons_some q (cons_some o ts))) same
          (subst (λ xs. Permᴰ (cons_some o xs) (cons_some q (cons_some o ts))) same'
            (cons_some-swap o q ts)),
    )
parts_of-Permᴰ tools (Permᴰ.trans p q) h =
    let (qs, there, perm) = parts_of-Permᴰ tools p h in
    let (rs, there', perm') = parts_of-Permᴰ tools q there in (rs, there', Permᴰ.trans perm perm')

with_core-eq-ok :
    (ps : List NormalPart) {qs : List NormalPart}
    → with_core ps ≡ ok qs
    → (any (λ (p : NormalPart). is_core p.role) ps ≡ true) × (ps ≡ qs)
with_core-eq-ok ps h = elim (Bool-cases (any (λ (p : NormalPart). is_core p.role) ps)) [
  | inl found ↦ (found, ok-injective (rw found at h))
  | inr missing ↦ cc (rw missing at h)
]

-- The components of a reordered list are the reordered components.
pub normalized_components-Permᴰ :
    (tools : TextTools) {cs ds : List Component} {ps : List NormalPart}
    → Permᴰ cs ds
    → normalized_components tools cs ≡ ok ps
    → (qs : List NormalPart) × (normalized_components tools ds ≡ ok qs) × Permᴰ ps qs
unfolding normalized_components
normalized_components-Permᴰ tools {cs} {ds} {ps} p h =
    elim (Bool-cases (any (λ (c : Component). is_unknown c.role) cs)) [
      | inl unknown ↦ cc (rw unknown at h)
      | inr known ↦
          (let (rs, e, f) = >>=-eq-ok (parts_of tools cs) with_core (rw known at h) in
            let (found, same) = with_core-eq-ok rs f in
            let (qs, there, perm) = parts_of-Permᴰ tools p e in
            let known' : any (λ (c : Component). is_unknown c.role) ds ≡ false =
              sym (any-Permᴰ _ p) ∙ known in
            let found' : any (λ (x : NormalPart). is_core x.role) qs ≡ true =
              sym (any-Permᴰ _ perm) ∙ found in
            (qs, rw (known', there, found') refl, subst (λ xs. Permᴰ xs qs) same perm))
    ]

-- The parts of a kind are sorted, so their order does not matter.
pub parts_with-Permᴰ :
    (test : Role → Bool) {ps qs : List NormalPart}
    → Permᴰ ps qs
    → parts_with test ps ≡ parts_with test qs
unfolding parts_with
parts_with-Permᴰ test p =
    sort-Permᴰ compare_part-IsOrder compare_part-Separates
      (Permᴰ-map NormalPart.part (filter-Permᴰ (λ (x : NormalPart). test x.role) p))
