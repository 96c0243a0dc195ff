-- ===== src/OwnCatalog/Laws.antt =====
-- When an own catalog counts as complete.
use mathlib.Core.List.{Memᴰ}
use price_monitor.Prelude.{
  ◌≡◌, refl, sym, ap, ◌∙◌, subst, inl, inr, ◌↔◌, true, false, Option, none, some, List, [], ◌∷◌,
  map, all, is_empty, arith, length, ltb, Memᴰ-filter_map, Memᴰ-filter_map_of, All, All-Memᴰ,
  All-of_Memᴰ, Bool-cases, none-ne-some, &&-left, &&-right, Text,
}
use price_monitor.Comparison.{unique, unique_from}
use price_monitor.OwnCatalog.Sets.{
  Memᴰ-unique, Memᴰ-of_unique, has-Memᴰ, Memᴰ-of_has, Memᴰ-map, Memᴰ-of_map, all-Memᴰ, all-of_Memᴰ,
  any-eq-false, any-none,
}
use price_monitor.OwnCatalog.{
  Listing, Snapshot, CatalogInput, has, claimed_ids, listing_of, keep_claimed, collected_ids,
  is_blocking, derive_completeness,
}

listing_of-eq-some :
    (claimed : List Text) (o : Option Text) {id : Text}
    → keep_claimed claimed o ≡ some id
    → o ≡ some id
listing_of-eq-some claimed none h = h
listing_of-eq-some claimed (some t) h = elim (Bool-cases (has claimed t)) [
  | inl known ↦ (rw known at h)
  | inr other ↦ absurd (none-ne-some (rw other at h))
]

-- A snapshot of the run is of this listing.
abbrev pub IsRead : CatalogInput → Listing → Type 0
IsRead input l = (s : Snapshot) × Memᴰ s input.snapshots × (s.own_listing_id ≡ some l.id)

-- There is a listing, each is read, and no issue of the run blocks.
abbrev pub IsComplete : CatalogInput → Type 0
IsComplete input =
    (is_empty input.listings ≡ false)
    × All (IsRead input) input.listings
    × All (λ i. is_blocking input i ≡ false) input.issues

claimed-nonempty :
    (ls : List Listing)
    → ltb 0 (length (unique (map (λ (l : Listing). l.id) ls))) ≡ true
    → is_empty ls ≡ false
unfolding unique unique_from
claimed-nonempty [] h = cc
claimed-nonempty (l ∷ ls) h = refl

length-Memᴰ {ℓ} : {A : Type ℓ} {a : A} {xs : List A} → Memᴰ a xs → ltb 0 (length xs) ≡ true
length-Memᴰ (Memᴰ.head {x} {xs} e) = ground arith
length-Memᴰ (Memᴰ.tail {x} {xs} m) = ground arith

claimed_ids-Memᴰ :
    (input : CatalogInput) {l : Listing} → Memᴰ l input.listings → Memᴰ l.id (claimed_ids input)
unfolding claimed_ids
claimed_ids-Memᴰ input m = Memᴰ-unique (Memᴰ-map (λ (l : Listing). l.id) m)

collected-IsRead :
    (input : CatalogInput) (l : Listing) → has (collected_ids input) l.id ≡ true → IsRead input l
unfolding collected_ids listing_of
collected-IsRead input l h =
    let (s, m, e) = Memᴰ-filter_map _ input.snapshots (Memᴰ-of_unique _ (Memᴰ-of_has l.id _ h)) in
    (s, m, listing_of-eq-some (claimed_ids input) s.own_listing_id e)

IsRead-collected :
    (input : CatalogInput) (l : Listing)
    → Memᴰ l input.listings
    → IsRead input l
    → has (collected_ids input) l.id ≡ true
unfolding collected_ids listing_of
IsRead-collected input l m (s, k, e) =
    let known = has-Memᴰ (claimed_ids-Memᴰ input m) in
    has-Memᴰ (
      Memᴰ-unique (
        Memᴰ-filter_map_of (λ (s : Snapshot). keep_claimed (claimed_ids input) s.own_listing_id) k
          (ap (keep_claimed (claimed_ids input)) e ∙ (rw known))))

nonempty-ltb :
    (input : CatalogInput) (ls : List Listing)
    → input.listings ≡ ls
    → is_empty ls ≡ false
    → ltb 0 (length (claimed_ids input)) ≡ true
nonempty-ltb input [] e h = cc
nonempty-ltb input (l ∷ ls) e h =
    length-Memᴰ (claimed_ids-Memᴰ input (subst (Memᴰ l) (sym e) (Memᴰ.head refl)))

derive-IsComplete :
    (input : CatalogInput) → (derive_completeness input).complete ≡ true → IsComplete input
unfolding derive_completeness
derive-IsComplete input h =
    let filled = &&-left (ltb 0 (length (claimed_ids input))) _ h in
    let rest = &&-right (ltb 0 (length (claimed_ids input))) _ h in
    let read = &&-left (all (has (collected_ids input)) (claimed_ids input)) _ rest in
    let clear = &&-right (all (has (collected_ids input)) (claimed_ids input)) _ rest in
    (
      claimed-nonempty input.listings (unfold claimed_ids in filled),
      All-of_Memᴰ (IsRead input) input.listings
          (λ l m. collected-IsRead input l (all-Memᴰ _ read (claimed_ids-Memᴰ input m))),
      All-of_Memᴰ _ input.issues (λ i m. any-none (is_blocking input) clear m),
    )

claimed_ids-of_Memᴰ :
    (input : CatalogInput) {id : Text}
    → Memᴰ id (claimed_ids input)
    → (l : Listing) × Memᴰ l input.listings × (l.id ≡ id)
unfolding claimed_ids
claimed_ids-of_Memᴰ input m =
    Memᴰ-of_map (λ (l : Listing). l.id) input.listings (Memᴰ-of_unique _ m)

IsComplete-derive :
    (input : CatalogInput) → IsComplete input → (derive_completeness input).complete ≡ true
unfolding derive_completeness
IsComplete-derive input (filled, read, clear) =
    let first = nonempty-ltb input input.listings refl filled in
    let second : all (has (collected_ids input)) (claimed_ids input) ≡ true =
      all-of_Memᴰ _ (claimed_ids input) λ id m.
        let (l, k, e) = claimed_ids-of_Memᴰ input m in
        subst (λ t. has (collected_ids input) t ≡ true) e
          (IsRead-collected input l k (All-Memᴰ _ k read)) in
    let third = any-eq-false (is_blocking input) input.issues (λ i m. All-Memᴰ _ m clear) in
    rw (first, second, third)

-- A run's own catalog counts as complete exactly when some own listing is claimed, the run has a
-- snapshot of each claimed listing, and none of its issues blocks.
pub derive_completeness_iff :
    (input : CatalogInput) → ((derive_completeness input).complete ≡ true) ↔ IsComplete input
derive_completeness_iff input = (derive-IsComplete input, IsComplete-derive input)
