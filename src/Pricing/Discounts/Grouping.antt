-- ===== src/Pricing/Discounts/Grouping.antt =====
-- The first loop of `derivePromotionDiscounts`: the offer that is kept for each stack group, and
-- the promotions that need a review.
use mathlib.Core.List.{append-nil, append_assoc}
use price_monitor.Prelude.{
  ℕ, max, inl, inr, ◌≡◌, refl, sym, ◌∙◌, Bool, true, false, not, Option, none, some, List, [], ◌∷◌,
  ◌++◌, map, filter, arith, leb, if◌then◌else◌, Bool-cases, Text, text_eq, text_eq_iff, Dict, get,
  get-put,
}
use price_monitor.Pricing.Discounts.{
  Inclusion, Promotion, Applied, Selection, is_public, is_known_private, choose, consider,
  select_from, select,
}

-- The stack group and the amount of a promotion that may be deducted: public, not included in the
-- activity price, complete, and with its threshold reached.
unfoldable pub complete : ℕ → Option ℕ → Option ℕ → Option Text → Option (Text × ℕ)
complete activity (some threshold) (some amount) (some group) =
    if leb threshold activity then some (group, amount) else none
complete activity _ _ _ = none

unfoldable pub offer_of : ℕ → Promotion ℕ → Option (Text × ℕ)
unfolding complete
offer_of activity p =
    if is_public p.audience
    then elim p.inclusion [
      | some Inclusion.excluded ↦ complete activity p.threshold p.amount p.stack_group
      | _ ↦ none
    ]
    else none

abbrev pub join_max : Option ℕ → Option ℕ → Option ℕ
join_max none m = m
join_max (some c) none = some c
join_max (some c) (some m) = some (max c m)

abbrev pub maximum : List ℕ → Option ℕ
maximum [] = none
maximum (x ∷ xs) = join_max (some x) (maximum xs)

abbrev pub with_offer : Text → Option (Text × ℕ) → List ℕ → List ℕ
with_offer group none rest = rest
with_offer group (some (g, amount)) rest = if text_eq g group then amount ∷ rest else rest

-- The amounts on offer in one stack group.
unfoldable pub amounts : ℕ → Text → List (Promotion ℕ) → List ℕ
amounts activity group [] = []
amounts activity group (p ∷ ps) = with_offer group (offer_of activity p) (amounts activity group ps)

abbrev pub amount_of : Option Applied → Option ℕ
amount_of none = none
amount_of (some a) = some a.amount

-- The amount that is kept for one stack group.
unfoldable pub amount_in : Text → Dict Applied → Option ℕ
amount_in group m = amount_of (get group m)

-- A promotion raises the amount of its own group, where it is on offer, and of no other.
abbrev pub raised : Text → Option (Text × ℕ) → Option ℕ → Option ℕ
raised group none current = current
raised group (some (g, amount)) current =
    if text_eq g group then join_max current (some amount) else current

amount_in-choose :
    (group g : Text) (a : Applied) (m : Dict Applied)
    → amount_in group (choose g a m) ≡ raised group (some (g, a.amount)) (amount_in group m)
unfolding choose amount_in
amount_in-choose group g a m = ground (arith, get-put g group a m, text_eq_iff g group)

-- What one round of the loop does to the map.
abbrev pub with_choice : Promotion ℕ → Option (Text × ℕ) → Dict Applied → Dict Applied
with_choice p none m = m
with_choice p (some (g, amount)) m =
    choose g (record { kind = p.kind; label = p.label; amount = amount }) m

pub consider-selected :
    (activity : ℕ) (p : Promotion ℕ) (s : Selection)
    → (consider activity p s).selected ≡ with_choice p (offer_of activity p) s.selected
unfolding consider offer_of
consider-selected activity p s = ground arith

pub amount_in-with_choice :
    (group : Text) (p : Promotion ℕ) (offer : Option (Text × ℕ)) (m : Dict Applied)
    → amount_in group (with_choice p offer m) ≡ raised group offer (amount_in group m)
amount_in-with_choice group p none m = refl
amount_in-with_choice group p (some (g, amount)) m = amount_in-choose group g _ m

join_max-raised :
    (group : Text) (offer : Option (Text × ℕ)) (current : Option ℕ) (rest : List ℕ)
    → join_max (raised group offer current) (maximum rest)
      ≡ join_max current (maximum (with_offer group offer rest))
join_max-raised group none current rest = refl
join_max-raised group (some (g, amount)) current rest = ground arith

pub amount_in-select_from :
    (activity : ℕ) (group : Text) (ps : List (Promotion ℕ)) (s : Selection)
    → amount_in group (select_from activity ps s).selected
      ≡ join_max (amount_in group s.selected) (maximum (amounts activity group ps))
unfolding select_from amounts
amount_in-select_from activity group [] s = ground arith
amount_in-select_from activity group (p ∷ ps) s =
    amount_in-select_from activity group ps (consider activity p s)
    ∙ (rw (consider-selected activity p s, amount_in-with_choice group p _ s.selected)
        (join_max-raised group (offer_of activity p) (amount_in group s.selected)
          (amounts activity group ps)))

-- For each stack group, the amount that is deducted is the largest on offer in it, and a group
-- with no offer deducts nothing.
pub select-maximum :
    (activity : ℕ) (group : Text) (ps : List (Promotion ℕ))
    → amount_in group (select activity ps).selected ≡ maximum (amounts activity group ps)
unfolding select
select-maximum activity group ps =
    amount_in-select_from activity group ps (record { selected = []; reasons = [] })
    ∙ (unfold amount_in get in refl)

-- A promotion that the loop cannot decide: of an audience that is neither public nor known to be
-- private, or public with an inclusion that is not known, or with its threshold not known, or with
-- its threshold reached and no amount or no stack group.
unfoldable pub undecided_terms : ℕ → Option ℕ → Option ℕ → Option Text → Bool
undecided_terms activity none amount group = true
undecided_terms activity (some threshold) (some amount) (some group) = false
undecided_terms activity (some threshold) _ _ = leb threshold activity

unfoldable pub undecided : ℕ → Promotion ℕ → Bool
unfolding undecided_terms
undecided activity p =
    if is_public p.audience
    then elim p.inclusion [
      | some Inclusion.included ↦ false
      | some Inclusion.excluded ↦ undecided_terms activity p.threshold p.amount p.stack_group
      | _ ↦ true
    ]
    else not (is_known_private p.audience)

consider-reasons :
    (activity : ℕ) (p : Promotion ℕ) (s : Selection)
    → (consider activity p s).reasons
      ≡ (if undecided activity p then s.reasons ++ p.label ∷ [] else s.reasons)
unfolding consider undecided
consider-reasons activity p s = ground arith

select_from-reasons :
    (activity : ℕ) (ps : List (Promotion ℕ)) (s : Selection)
    → (select_from activity ps s).reasons
      ≡ s.reasons ++ map (λ (p : Promotion ℕ). p.label) (filter (undecided activity) ps)
unfolding select_from
select_from-reasons activity [] s = sym (append-nil s.reasons)
select_from-reasons activity (p ∷ ps) s = elim (Bool-cases (undecided activity p)) [
  | inl h ↦
      select_from-reasons activity ps (consider activity p s)
      ∙ (rw (consider-reasons activity p s, h) (append_assoc s.reasons (p.label ∷ []) _))
  | inr h ↦
      select_from-reasons activity ps (consider activity p s)
      ∙ (rw (consider-reasons activity p s, h) refl)
]

-- The labels put up for review are those of the promotions that cannot be decided, in their order.
pub select-reasons :
    (activity : ℕ) (ps : List (Promotion ℕ))
    → (select activity ps).reasons
      ≡ map (λ (p : Promotion ℕ). p.label) (filter (undecided activity) ps)
unfolding select
select-reasons activity ps =
    select_from-reasons activity ps (record { selected = []; reasons = [] })
