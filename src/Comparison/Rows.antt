-- ===== src/Comparison/Rows.antt =====
-- The two maps of own SKUs, read at one signature.
use mathlib.Core.List.{append-nil, append_assoc}
use price_monitor.Prelude.{
  Bool, true, false, Option, none, some, List, [], ◌∷◌, ◌++◌, ◌≡◌, refl, sym, ap, ◌∙◌, inl, inr,
  head?, cons_some, filter_map, some-ne-none, arith, if◌then◌else◌, Bool-cases, Text, text_eq,
  text_eq_iff, Dict, get, get-put, Fresh, IsMap, put-IsMap, sort, insert, not_gt,
}
use price_monitor.Comparison.{
  Candidate, Signed, Priced, as_signed, as_eligible, compare_eligible, is_own,
}
use price_monitor.Comparison.Own.{
  compare_own_for_display, or_empty, rows_of, add_by_signature, OwnRows, add_eligible, add_signed,
  add_own, collect_own, map_values, own_rows, selections, compare_key, selected_own,
}

-- An own signed candidate with the given signature.
abbrev pub with_signature : Text → Option Signed → Option Signed
with_signature signature none = none
with_signature signature (some s) = if text_eq s.signature signature then some s else none

unfoldable pub own_signed : Text → Candidate → Option Signed
own_signed signature c = if is_own c.source then with_signature signature (as_signed c) else none

abbrev pub eligible_of : Option Signed → Option Priced
eligible_of none = none
eligible_of (some s) = as_eligible s

-- The same, where it is eligible: in stock, with a confirmed price.
unfoldable pub own_eligible : Text → Candidate → Option Priced
own_eligible signature c = eligible_of (own_signed signature c)

pub rows_of-add_by_signature {ℓ} :
    {A : Type ℓ} (k s : Text) (a : A) (m : Dict (List A))
    → rows_of k (add_by_signature s a m)
      ≡ (if text_eq s k then rows_of k m ++ a ∷ [] else rows_of k m)
unfolding rows_of add_by_signature
rows_of-add_by_signature k s a m =
    ground (arith, get-put s k (rows_of s m ++ a ∷ []) m, text_eq_iff s k)

pub as_eligible-signed : (s : Signed) {p : Priced} → as_eligible s ≡ some p → p.signed ≡ s
unfolding as_eligible
as_eligible-signed s h = ground arith

append-cons_some {ℓ} :
    {A : Type ℓ} (b : Bool) (xs : List A) (a : A)
    → (if b then xs ++ a ∷ [] else xs) ≡ xs ++ cons_some (if b then some a else none) []
append-cons_some true xs a = refl
append-cons_some false xs a = sym (append-nil xs)

add_signed-all :
    (k : Text) (o : Option Signed) (rows : OwnRows)
    → rows_of k (add_signed o rows).all_own
      ≡ rows_of k rows.all_own ++ cons_some (with_signature k o) []
unfolding add_signed
add_signed-all k none rows = sym (append-nil _)
add_signed-all k (some s) rows =
    rows_of-add_by_signature k s.signature s rows.all_own
    ∙ append-cons_some (text_eq s.signature k) _ s

add_own-all :
    (k : Text) (c : Candidate) (rows : OwnRows)
    → rows_of k (add_own c rows).all_own ≡ rows_of k rows.all_own ++ cons_some (own_signed k c) []
unfolding add_own own_signed
add_own-all k c rows = elim (Bool-cases (is_own c.source)) [
  | inl mine ↦ rw mine (add_signed-all k (as_signed c) rows)
  | inr theirs ↦ rw theirs (sym (append-nil _))
]

add_eligible-rows :
    (k : Text) (s : Signed) (o : Option Priced) (m : Dict (List Priced))
    → as_eligible s ≡ o
    → rows_of k (add_eligible o m)
      ≡ rows_of k m ++ cons_some (eligible_of (with_signature k (some s))) []
unfolding add_eligible
add_eligible-rows k s none m e = elim (Bool-cases (text_eq s.signature k)) [
  | inl same ↦ rw (same, e) (sym (append-nil _))
  | inr different ↦ rw different (sym (append-nil _))
]
add_eligible-rows k s (some p) m e =
    let tests : text_eq p.signed.signature k ≡ text_eq s.signature k =
      ap (λ (t : Signed). text_eq t.signature k) (as_eligible-signed s e) in
    rows_of-add_by_signature k p.signed.signature p m ∙ (elim (Bool-cases (text_eq s.signature k)) [
      | inl same ↦ rw (tests ∙ same, same, e)
      | inr different ↦ rw (tests ∙ different, different) (sym (append-nil _))
    ])

add_signed-eligible :
    (k : Text) (o : Option Signed) (rows : OwnRows)
    → rows_of k (add_signed o rows).eligible_own
      ≡ rows_of k rows.eligible_own ++ cons_some (eligible_of (with_signature k o)) []
unfolding add_signed
add_signed-eligible k none rows = sym (append-nil _)
add_signed-eligible k (some s) rows = add_eligible-rows k s (as_eligible s) rows.eligible_own refl

add_own-eligible :
    (k : Text) (c : Candidate) (rows : OwnRows)
    → rows_of k (add_own c rows).eligible_own
      ≡ rows_of k rows.eligible_own ++ cons_some (own_eligible k c) []
unfolding add_own own_eligible own_signed
add_own-eligible k c rows = elim (Bool-cases (is_own c.source)) [
  | inl mine ↦ rw mine (add_signed-eligible k (as_signed c) rows)
  | inr theirs ↦ rw theirs (sym (append-nil _))
]

cons_some-append {ℓ} :
    {A : Type ℓ} (o : Option A) (xs ys : List A)
    → (xs ++ cons_some o []) ++ ys ≡ xs ++ cons_some o ys
cons_some-append none xs ys = ap (λ zs. zs ++ ys) (append-nil xs)
cons_some-append (some a) xs ys = append_assoc xs (a ∷ []) ys

-- The first loop collects, for each signature, the own candidates in their order.
collect_own-all :
    (k : Text) (cs : List Candidate) (rows : OwnRows)
    → rows_of k (collect_own cs rows).all_own
      ≡ rows_of k rows.all_own ++ filter_map (own_signed k) cs
unfolding collect_own
collect_own-all k [] rows = sym (append-nil _)
collect_own-all k (c ∷ cs) rows =
    collect_own-all k cs (add_own c rows)
    ∙ ap (λ xs. xs ++ filter_map (own_signed k) cs) (add_own-all k c rows)
    ∙ cons_some-append (own_signed k c) (rows_of k rows.all_own) _

collect_own-eligible :
    (k : Text) (cs : List Candidate) (rows : OwnRows)
    → rows_of k (collect_own cs rows).eligible_own
      ≡ rows_of k rows.eligible_own ++ filter_map (own_eligible k) cs
unfolding collect_own
collect_own-eligible k [] rows = sym (append-nil _)
collect_own-eligible k (c ∷ cs) rows =
    collect_own-eligible k cs (add_own c rows)
    ∙ ap (λ xs. xs ++ filter_map (own_eligible k) cs) (add_own-eligible k c rows)
    ∙ cons_some-append (own_eligible k c) (rows_of k rows.eligible_own) _

rows_of-map_values {ℓ} :
    {A : Type ℓ} (f : List A → List A) (k : Text) (m : Dict (List A))
    → f [] ≡ []
    → rows_of k (map_values f m) ≡ f (rows_of k m)
unfolding rows_of get
rows_of-map_values f k [] e = sym e
rows_of-map_values f k ((j, v) ∷ m) e = elim (Bool-cases (text_eq j k)) [
  | inl hit ↦ rw hit
  | inr miss ↦ rw miss (rows_of-map_values f k m e)
]

-- Of each signature, the sorted rows are those of the own candidates with that signature.
pub own_rows-all :
    (k : Text) (cs : List Candidate)
    → rows_of k (own_rows cs).all_own ≡ sort compare_own_for_display (filter_map (own_signed k) cs)
unfolding own_rows rows_of get
own_rows-all k cs =
    rows_of-map_values (sort compare_own_for_display) k _ (unfold sort in refl)
    ∙ ap (sort compare_own_for_display)
        (collect_own-all k cs (record { all_own = []; eligible_own = [] }))

pub own_rows-eligible :
    (k : Text) (cs : List Candidate)
    → rows_of k (own_rows cs).eligible_own ≡ sort compare_eligible (filter_map (own_eligible k) cs)
unfolding own_rows rows_of get
own_rows-eligible k cs =
    rows_of-map_values (sort compare_eligible) k _ (unfold sort in refl)
    ∙ ap (sort compare_eligible)
        (collect_own-eligible k cs (record { all_own = []; eligible_own = [] }))

-- Reading a map that has been sorted by its keys.
get-insert {ℓ} :
    {V : Type ℓ} (k j : Text) (v : V) (m : Dict V)
    → Fresh j m
    → get k (insert compare_key (j, v) m) ≡ get k ((j, v) ∷ m)
unfolding insert get
get-insert k j v [] f = refl
get-insert k j v ((i, w) ∷ m) f = elim (Bool-cases (not_gt (compare_key (j, v) (i, w)))) [
  | inl first ↦ rw first
  | inr later ↦
      rw later
        (ground (arith, get-insert k j v m, text_eq_iff i k, text_eq_iff j k, text_eq_iff i j))
]

pub get-sort {ℓ} :
    {V : Type ℓ} (k : Text) (m : Dict V) → IsMap m → get k (sort compare_key m) ≡ get k m
unfolding sort get
get-sort k [] h = refl
get-sort k ((j, v) ∷ m) (f, h) =
    get-insert k j v (sort compare_key m) (get-sort j m h ∙ f)
    ∙ ap (λ o. if text_eq j k then some v else o) (get-sort k m h)

insert-IsMap {ℓ} :
    {V : Type ℓ} (j : Text) (v : V) (m : Dict V)
    → Fresh j m
    → IsMap m
    → IsMap (insert compare_key (j, v) m)
unfolding insert get
insert-IsMap j v [] f h = (refl, tt)
insert-IsMap j v ((i, w) ∷ m) f (g, h) = elim (Bool-cases (not_gt (compare_key (j, v) (i, w)))) [
  | inl first ↦ rw first (f, (g, h))
  | inr later ↦ rw later (
    ground (arith, get-insert i j v m, text_eq_iff j i, text_eq_iff i j),
    insert-IsMap j v m (ground (arith, text_eq_iff i j)) h,
  )
]

sort-IsMap {ℓ} : {V : Type ℓ} (m : Dict V) → IsMap m → IsMap (sort compare_key m)
unfolding sort
sort-IsMap [] h = tt
sort-IsMap ((j, v) ∷ m) (f, h) =
    insert-IsMap j v (sort compare_key m) (get-sort j m h ∙ f) (sort-IsMap m h)

get-selections :
    (k : Text) (m : Dict (List Priced)) → IsMap m → get k (selections m) ≡ head? (rows_of k m)
unfolding selections get rows_of
get-selections k [] h = refl
get-selections k ((j, []) ∷ m) (f, h) = ground (arith, get-selections k m h, text_eq_iff j k)
get-selections k ((j, p ∷ ps) ∷ m) (f, h) = ground (arith, get-selections k m h)

add_eligible-IsMap :
    (o : Option Priced) (m : Dict (List Priced)) → IsMap m → IsMap (add_eligible o m)
unfolding add_eligible add_by_signature
add_eligible-IsMap none m h = h
add_eligible-IsMap (some p) m h = put-IsMap p.signed.signature _ m h

add_signed-IsMap :
    (o : Option Signed) (rows : OwnRows)
    → IsMap rows.eligible_own
    → IsMap (add_signed o rows).eligible_own
unfolding add_signed
add_signed-IsMap none rows h = h
add_signed-IsMap (some s) rows h = add_eligible-IsMap (as_eligible s) rows.eligible_own h

add_own-IsMap :
    (c : Candidate) (rows : OwnRows) → IsMap rows.eligible_own → IsMap (add_own c rows).eligible_own
unfolding add_own
add_own-IsMap c rows h = elim (Bool-cases (is_own c.source)) [
  | inl mine ↦ rw mine (add_signed-IsMap (as_signed c) rows h)
  | inr theirs ↦ rw theirs h
]

collect_own-IsMap :
    (cs : List Candidate) (rows : OwnRows)
    → IsMap rows.eligible_own
    → IsMap (collect_own cs rows).eligible_own
unfolding collect_own
collect_own-IsMap [] rows h = h
collect_own-IsMap (c ∷ cs) rows h = collect_own-IsMap cs (add_own c rows) (add_own-IsMap c rows h)

get-map_values {ℓ κ} :
    {A : Type ℓ} {B : Type κ} (f : A → B) (k : Text) (m : Dict A)
    → Fresh k m
    → Fresh k (map_values f m)
unfolding get
get-map_values f k [] h = refl
get-map_values f k ((j, v) ∷ m) h = elim (Bool-cases (text_eq j k)) [
  | inl hit ↦ absurd (some-ne-none (rw hit at h))
  | inr miss ↦ rw miss (get-map_values f k m (rw miss at h))
]

map_values-IsMap {ℓ κ} :
    {A : Type ℓ} {B : Type κ} (f : A → B) (m : Dict A) → IsMap m → IsMap (map_values f m)
map_values-IsMap f [] h = tt
map_values-IsMap f ((k, v) ∷ m) (g, h) = (get-map_values f k m g, map_values-IsMap f m h)

own_rows-IsMap : (cs : List Candidate) → IsMap (own_rows cs).eligible_own
unfolding own_rows
own_rows-IsMap cs =
    map_values-IsMap (sort compare_eligible) _
      (collect_own-IsMap cs (record { all_own = []; eligible_own = [] }) tt)

-- The baseline of a signature is the first of its eligible own candidates in the sorted order.
pub get-selected_own :
    (k : Text) (cs : List Candidate)
    → get k (selected_own (own_rows cs))
      ≡ head? (sort compare_eligible (filter_map (own_eligible k) cs))
unfolding selected_own rows_of
get-selected_own k cs =
    let m = (own_rows cs).eligible_own in
    get-selections k (sort compare_key m) (sort-IsMap m (own_rows-IsMap cs))
    ∙ ap (λ o. head? (or_empty o)) (get-sort k m (own_rows-IsMap cs))
    ∙ ap head? (own_rows-eligible k cs)
