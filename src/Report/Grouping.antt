-- ===== src/Report/Grouping.antt =====
-- The maps of a report that collect the rows of a key, read at one key.
use mathlib.Core.List.{Memᴰ, append-nil, append_assoc}
use price_monitor.Prelude.{
  Bool, true, false, Option, none, some, List, [], ◌∷◌, ◌++◌, ◌≡◌, refl, sym, ap, ◌∙◌, subst, ◌⊎◌,
  inl, inr, filter, if◌then◌else◌, Bool-cases, Text, text_eq, text_eq→eq, Dict, get, get-put, IsMap,
  put-IsMap, none-ne-some, sort,
}
use price_monitor.Comparison.Own.{rows_of, add_by_signature}
use price_monitor.Comparison.Rows.{rows_of-add_by_signature}
use price_monitor.Report.{PositionFact, SnapshotFact, OwnSummary, Builtins}
use price_monitor.Report.Rows.{
  own_summary, summary_at, present, positions_from, positions_by_item, compare_position,
}
use price_monitor.Report.Projection.{OwnMaps, add_summary, collect_summaries, own_maps}

-- What a loop that adds each item under its key does.
abbrev pub group_from {ℓ} : {A : Type ℓ} → (A → Text) → List A → Dict (List A) → Dict (List A)
group_from key [] m = m
group_from key (x ∷ xs) m = group_from key xs (add_by_signature (key x) x m)

append-if {ℓ} :
    {A : Type ℓ} (b : Bool) (xs ys : List A) (a : A)
    → (if b then xs ++ a ∷ [] else xs) ++ ys ≡ xs ++ (if b then a ∷ ys else ys)
append-if true xs ys a = append_assoc xs (a ∷ []) ys
append-if false xs ys a = refl

module _ {ℓ} {A : Type ℓ} (key : A → Text) where
  -- The rows of a key are those that the map had and, behind them, the items with the key, in order.
  pub rows_of-group_from :
      (k : Text) (xs : List A) (m : Dict (List A))
      → rows_of k (group_from key xs m) ≡ rows_of k m ++ filter (λ x. text_eq (key x) k) xs
  rows_of-group_from k [] m = sym (append-nil _)
  rows_of-group_from k (x ∷ xs) m =
      rows_of-group_from k xs (add_by_signature (key x) x m)
      ∙ ap (λ rows. rows ++ filter (λ y. text_eq (key y) k) xs)
          (rows_of-add_by_signature k (key x) x m)
      ∙ append-if (text_eq (key x) k) (rows_of k m) _ x

  pub group_from-IsMap : (xs : List A) (m : Dict (List A)) → IsMap m → IsMap (group_from key xs m)
  group_from-IsMap [] m h = h
  group_from-IsMap (x ∷ xs) m h =
      group_from-IsMap xs (add_by_signature (key x) x m)
        (unfold add_by_signature in put-IsMap (key x) _ m h)

pub positions_from-group :
    (ps : List PositionFact) (m : Dict (List PositionFact))
    → positions_from ps m ≡ group_from PositionFact.item_id ps m
unfolding positions_from
positions_from-group [] m = refl
positions_from-group (p ∷ ps) m = positions_from-group ps (add_by_signature p.item_id p m)

-- The positions of an item, from the front of the list.
pub rows_of-positions :
    (builtins : Builtins) (item : Text) (ps : List PositionFact)
    → rows_of item (positions_by_item builtins ps)
      ≡ filter (λ p. text_eq p.item_id item) (sort (compare_position builtins) ps)
unfolding positions_by_item rows_of get
rows_of-positions builtins item ps =
    ap (rows_of item) (positions_from-group _ [])
    ∙ rows_of-group_from PositionFact.item_id item (sort (compare_position builtins) ps) []

-- The summary that the map has at an identifier is of one of the snapshots.
pub record IsSummaryIn (ss : List SnapshotFact) (id : Text) (o : OwnSummary) : Type 0 where
  pub snapshot : SnapshotFact
  pub of_run : Memᴰ snapshot ss
  pub summary : own_summary snapshot ≡ some o
  pub same_id : snapshot.id ≡ id

summary_at-id :
    (s : SnapshotFact) (listing : Option Text) {o : OwnSummary}
    → summary_at s listing ≡ some o
    → o.id ≡ s.id
summary_at-id s none h = absurd (none-ne-some h)
summary_at-id s (some listing) {o} h =
    ap (λ x. OwnSummary.id (elim x [ none ↦ o | some y ↦ y ])) (sym h)

pub own_summary-id : (s : SnapshotFact) {o : OwnSummary} → own_summary s ≡ some o → o.id ≡ s.id
unfolding own_summary
own_summary-id s h = summary_at-id s (present s.own_listing_id) h

add_summary-cases :
    (id : Text) (o : OwnSummary) (new : Option OwnSummary) (maps : OwnMaps)
    → get id (add_summary new maps).by_id ≡ some o
    → ((new ≡ some o) × (o.id ≡ id)) ⊎ (get id maps.by_id ≡ some o)
unfolding add_summary
add_summary-cases id o none maps h = inr h
add_summary-cases id o (some n) maps h = elim (Bool-cases (text_eq n.id id)) [
  | inl hit ↦
      (let found : (if text_eq n.id id then some n else get id maps.by_id) ≡ some o =
          sym (get-put n.id id n maps.by_id) ∙ h in
        let same : some n ≡ some o = rw hit at found in
        let e : n ≡ o = cc same in
        inl (same, subst (λ (x : OwnSummary). x.id ≡ id) e (text_eq→eq n.id id hit)))
  | inr miss ↦
      (let found : (if text_eq n.id id then some n else get id maps.by_id) ≡ some o =
          sym (get-put n.id id n maps.by_id) ∙ h in
        inr (rw miss at found))
]

collect_summaries-cases :
    (id : Text) (o : OwnSummary) (ss : List SnapshotFact) (maps : OwnMaps)
    → get id (collect_summaries ss maps).by_id ≡ some o
    → IsSummaryIn ss id o ⊎ (get id maps.by_id ≡ some o)
unfolding collect_summaries
collect_summaries-cases id o [] maps h = inr h
collect_summaries-cases id o (s ∷ ss) maps h =
    elim (collect_summaries-cases id o ss (add_summary (own_summary s) maps) h) [
      | inl found ↦ inl (record {
        snapshot = found.snapshot;
        of_run = Memᴰ.tail found.of_run;
        summary = found.summary;
        same_id = found.same_id;
      })
      | inr before ↦ elim (add_summary-cases id o (own_summary s) maps before) [
        | inl (here, same) ↦ inl (record {
          snapshot = s;
          of_run = Memᴰ.head refl;
          summary = here;
          same_id = sym (own_summary-id s here) ∙ same;
        })
        | inr old ↦ inr old
      ]
    ]

pub own_maps-IsSummaryIn :
    (ss : List SnapshotFact) (id : Text) {o : OwnSummary}
    → get id (own_maps ss).by_id ≡ some o
    → IsSummaryIn ss id o
unfolding own_maps
own_maps-IsSummaryIn ss id {o} h =
    elim (collect_summaries-cases id o ss (record { by_id = []; by_signature = [] }) h) [
      | inl found ↦ found
      | inr nothing ↦ (let e : none ≡ some o = unfold get in nothing in absurd (none-ne-some e))
    ]
