-- ===== src/Report/Complete.antt =====
-- The lows that a report must have.
use mathlib.Core.List.{Memᴰ}
use price_monitor.Prelude.{
  ℕ, ◌-◌, ◌<◌, Bool, true, false, not, Option, none, some, List, [], ◌∷◌, map, ◌≡◌, refl, sym, ap,
  ◌∙◌, subst, inl, inr, Memᴰ-filter_map_of, Memᴰ-filter_of, Memᴰ-sort, none-ne-some, arith,
  Bool-cases, is_empty, Text, text_eq, text_eq→eq, text_eq_refl, Dict, get, get-put, pos, sub_ℕ,
  is_positive,
}
use price_monitor.OwnCatalog.Sets.{Memᴰ-map}
use price_monitor.Comparison.{is_own}
use price_monitor.Comparison.Own.{rows_of}
use price_monitor.Comparison.Classify.{matched}
use price_monitor.Report.{PositionFact, SnapshotFact, ReportInput, OwnSummary, SkuRow, Builtins}
use price_monitor.Report.Rows.{
  fen, confirmed_price, present, own_summary, own_summary_of, summary_at, compare_row,
  compare_position, positions_by_item,
}
use price_monitor.Report.Projection.{
  OwnMaps, add_summary, collect_summaries, own_maps, source_of, selected_of, projected_state,
  difference_of, summary_price, row_of, project, projected_rows,
}
use price_monitor.Report.Lows.{
  low_record, is_low_candidate, is_low_against, low_by, low_with, low_of, compare_low,
  confirmed_lows,
}
use price_monitor.Report.Aggregate.{is_business, business_rows, aggregate}
use price_monitor.Report.Grouping.{own_summary-id, rows_of-positions}

get-add_summary :
    {id : Text} {o : OwnSummary} (s : SnapshotFact) (new : Option OwnSummary) (maps : OwnMaps)
    → own_summary s ≡ new
    → (s.id ≡ id → new ≡ some o)
    → get id maps.by_id ≡ some o
    → get id (add_summary new maps).by_id ≡ some o
unfolding add_summary
get-add_summary s none maps e h g = g
get-add_summary {id} {o} s (some n) maps e h g =
    get-put n.id id n maps.by_id ∙ elim (Bool-cases (text_eq n.id id)) [
      | inl hit ↦ rw hit (h (sym (own_summary-id s e) ∙ text_eq→eq n.id id hit))
      | inr miss ↦ rw miss g
    ]

-- What a map has at an identifier stays, if all snapshots with the identifier have it.
get-collect_summaries :
    {id : Text} {o : OwnSummary} (ss : List SnapshotFact) (maps : OwnMaps)
    → ((x : SnapshotFact) → Memᴰ x ss → x.id ≡ id → own_summary x ≡ some o)
    → get id maps.by_id ≡ some o
    → get id (collect_summaries ss maps).by_id ≡ some o
unfolding collect_summaries
get-collect_summaries [] maps h g = g
get-collect_summaries (s ∷ ss) maps h g =
    get-collect_summaries ss (add_summary (own_summary s) maps) (λ x m e. h x (Memᴰ.tail m) e)
      (get-add_summary s (own_summary s) maps refl (h s (Memᴰ.head refl)) g)

get-add_summary_self :
    (o : OwnSummary) (maps : OwnMaps) → get o.id (add_summary (some o) maps).by_id ≡ some o
unfolding add_summary
get-add_summary_self o maps = get-put o.id o.id o maps.by_id ∙ rw (text_eq_refl o.id)

get-collect_summaries_of :
    {o : OwnSummary} {own : SnapshotFact} (ss : List SnapshotFact) (maps : OwnMaps)
    → Memᴰ own ss
    → own_summary own ≡ some o
    → ((x : SnapshotFact) → Memᴰ x ss → x.id ≡ o.id → own_summary x ≡ some o)
    → get o.id (collect_summaries ss maps).by_id ≡ some o
unfolding collect_summaries
get-collect_summaries_of [] maps m e h = elim m [ ]
get-collect_summaries_of {o} {own} (s ∷ ss) maps (Memᴰ.head same) e h =
    let here : own_summary s ≡ some o = ap own_summary (sym same) ∙ e in
    get-collect_summaries ss (add_summary (own_summary s) maps) (λ x m e. h x (Memᴰ.tail m) e)
      (rw here (get-add_summary_self o maps))
get-collect_summaries_of {o} {own} (s ∷ ss) maps (Memᴰ.tail m) e h =
    get-collect_summaries_of ss (add_summary (own_summary s) maps) m e
      (λ x m e. h x (Memᴰ.tail m) e)

-- An own snapshot whose identifier no other snapshot has is found under it.
get-own_maps :
    (ss : List SnapshotFact) (own : SnapshotFact) {o : OwnSummary}
    → Memᴰ own ss
    → own_summary own ≡ some o
    → ((x : SnapshotFact) → Memᴰ x ss → x.id ≡ own.id → x ≡ own)
    → get own.id (own_maps ss).by_id ≡ some o
unfolding own_maps
get-own_maps ss own {o} m e h =
    let id : o.id ≡ own.id = own_summary-id own e in
    subst
      (λ k. get k (collect_summaries ss (record { by_id = []; by_signature = [] })).by_id ≡ some o)
      id (get-collect_summaries_of ss _ m e (λ x n same. ap own_summary (h x n (same ∙ id)) ∙ e))

summary_at-of :
    (s : SnapshotFact) (listing : Option Text) {o : OwnSummary}
    → summary_at s listing ≡ some o
    → (t : Text) × (own_summary_of s t ≡ o)
summary_at-of s none h = absurd (none-ne-some h)
summary_at-of s (some t) h = (t, let e = h in cc e)

own_summary-of :
    (s : SnapshotFact) {o : OwnSummary}
    → own_summary s ≡ some o
    → (o.signature ≡ s.signature)
      × (summary_price o ≡ confirmed_price s.confidence s.stock s.prices.payable)
      × (o.prices.payable ≡ s.prices.payable)
unfolding own_summary summary_price
own_summary-of s h =
    let (t, e) = summary_at-of s (present s.own_listing_id) h in
    (
      ap OwnSummary.signature (sym e),
      ap (λ (x : OwnSummary). confirmed_price x.confidence x.stock x.prices.payable) (sym e),
      ap (λ (x : OwnSummary). x.prices.payable) (sym e),
    )

confirmed_price-fen_of :
    (s : SnapshotFact) {n : ℕ}
    → confirmed_price s.confidence s.stock s.prices.payable ≡ some n
    → fen s.prices.payable ≡ some n
unfolding confirmed_price
confirmed_price-fen_of s h = ground arith

selected_of-eq :
    (m : Dict OwnSummary) (s : SnapshotFact) (o : OwnSummary) (k t : Text)
    → present s.comparison_own ≡ some k
    → get k m ≡ some o
    → s.signature ≡ some t
    → o.signature ≡ some t
    → selected_of m s ≡ some o
unfolding selected_of
selected_of-eq m s o k t names found e f = rw (names, found, e, f, text_eq_refl t)

projected_state-eq :
    (complete : Bool) (s : SnapshotFact) (o : OwnSummary)
    → s.state ≡ some matched
    → projected_state complete s (some o) ≡ matched
unfolding projected_state
projected_state-eq complete s o e =
    rw e (elim (Bool-cases (not (is_own (source_of (present s.own_listing_id))))) [
      | inl theirs ↦ rw theirs
      | inr own ↦ rw own
    ])

sub_ℕ-lt : (q p : ℕ) → p < q → sub_ℕ q p ≡ pos (q - p)
sub_ℕ-lt q p h = ground arith

difference_of-eq :
    (s : SnapshotFact) (o : OwnSummary) (q p : ℕ)
    → fen o.prices.payable ≡ some q
    → fen s.prices.payable ≡ some p
    → p < q
    → difference_of s (some o) ≡ some (pos (q - p))
unfolding difference_of
difference_of-eq s o q p e f h = rw (e, f, sub_ℕ-lt q p h)

is_empty-map {ℓ κ} :
    {A : Type ℓ} {B : Type κ} (f : A → B) {a : A} (xs : List A)
    → Memᴰ a xs
    → is_empty (map f xs) ≡ false
is_empty-map f [] m = elim m [ ]
is_empty-map f (x ∷ xs) m = refl

positions-ranked :
    (builtins : Builtins) (ps : List PositionFact) (item : Text) (p : PositionFact)
    → Memᴰ p ps
    → p.item_id ≡ item
    → is_empty (map PositionFact.rank (rows_of item (positions_by_item builtins ps))) ≡ false
positions-ranked builtins ps item p m e = rw (rows_of-positions builtins item ps) (
    is_empty-map PositionFact.rank _ (
      Memᴰ-filter_of (λ (x : PositionFact). text_eq x.item_id item)
        (Memᴰ-sort (compare_position builtins) ps m) (rw e (text_eq_refl item))))

low_by-pos :
    (row : SkuRow) (o : OwnSummary) (q p : ℕ)
    → p < q
    → low_by row o (some (pos (q - p))) ≡ some (low_record row o (pos (q - p)))
unfolding low_by
low_by-pos row o q p h =
    let positive : is_positive (pos (q - p)) ≡ true = is_positive-lt q p h in rw positive
  where
    is_positive-suc : (n : ℕ) → 0 < n → is_positive (pos n) ≡ true
    is_positive-suc n h = ground arith

    is_positive-lt : (q p : ℕ) → p < q → is_positive (pos (q - p)) ≡ true
    is_positive-lt q p h = is_positive-suc (q - p) (omega arith)

-- A row that passes every test of `confirmedLows` gives its low.
low_of-eq :
    (row : SkuRow) (o : OwnSummary) (q p : ℕ)
    → row.selected_own ≡ some o
    → row.difference ≡ some (pos (q - p))
    → p < q
    → is_low_candidate row ≡ true
    → is_low_against row o ≡ true
    → low_of row ≡ some (low_record row o (pos (q - p)))
unfolding low_of low_with
low_of-eq row o q p s e h c a =
    ap (low_with row) s ∙ rw (c, a) (ap (low_by row o) e ∙ low_by-pos row o q p h)

is_low_candidate-eq :
    (row : SkuRow) (t : Text) (p : ℕ)
    → is_own row.source ≡ false
    → row.state ≡ matched
    → row.signature ≡ some t
    → confirmed_price row.confidence row.stock row.prices.payable ≡ some p
    → is_low_candidate row ≡ true
unfolding is_low_candidate
is_low_candidate-eq row t p a b c d = rw (a, b, c, d)

is_low_against-eq :
    (row : SkuRow) (o : OwnSummary) (t : Text) (q : ℕ)
    → o.signature ≡ some t
    → row.signature ≡ some t
    → summary_price o ≡ some q
    → is_low_against row o ≡ true
unfolding is_low_against
is_low_against-eq row o t q a b c = rw (c, a, b, text_eq_refl t)

project-low :
    (builtins : Builtins) (input : ReportInput) (s : SnapshotFact) (o : OwnSummary) (k t : Text)
    (q p : ℕ)
    → present s.own_listing_id ≡ none
    → s.state ≡ some matched
    → present s.comparison_own ≡ some k
    → get k (own_maps input.snapshots).by_id ≡ some o
    → s.signature ≡ some t
    → o.signature ≡ some t
    → confirmed_price s.confidence s.stock s.prices.payable ≡ some p
    → summary_price o ≡ some q
    → fen o.prices.payable ≡ some q
    → p < q
    → low_of (project builtins input s)
      ≡ some (low_record (project builtins input s) o (pos (q - p)))
unfolding project row_of
project-low builtins input s o k t q p theirs stored names found st ot price own_price own_fen h =
    let by_id = (own_maps input.snapshots).by_id in
    let selected = selected_of-eq by_id s o k t names found st ot in
    low_of-eq (project builtins input s) o q p selected
      (rw selected (difference_of-eq s o q p own_fen (confirmed_price-fen_of s price) h)) h
      (is_low_candidate-eq (project builtins input s) t p (rw theirs)
        (rw selected (projected_state-eq input.catalog_complete s o stored)) st price)
      (is_low_against-eq (project builtins input s) o t q ot st own_price)

project-IsBusiness :
    (builtins : Builtins) (input : ReportInput) (s : SnapshotFact) (x : PositionFact)
    → present s.own_listing_id ≡ none
    → Memᴰ x input.positions
    → x.item_id ≡ s.item_id
    → is_business (project builtins input s) ≡ true
unfolding project row_of is_business
project-IsBusiness builtins input s x theirs m e =
    rw (theirs, positions-ranked builtins input.positions s.item_id x m e)

-- A competitor's snapshot of a run that is stored as matched, whose item has a position, and that names
-- an own snapshot of the run whose identifier no other snapshot has, both with one signature, both in
-- stock at a confirmed price, the own one's being higher: the report has its low, with the difference of
-- the two prices.
pub aggregate-low :
    (builtins : Builtins) (input : ReportInput) (s own : SnapshotFact) (o : OwnSummary) (t : Text)
    (q p : ℕ) (x : PositionFact)
    → Memᴰ s input.snapshots
    → Memᴰ own input.snapshots
    → ((y : SnapshotFact) → Memᴰ y input.snapshots → y.id ≡ own.id → y ≡ own)
    → present s.own_listing_id ≡ none
    → s.state ≡ some matched
    → present s.comparison_own ≡ some own.id
    → own_summary own ≡ some o
    → s.signature ≡ some t
    → own.signature ≡ some t
    → confirmed_price s.confidence s.stock s.prices.payable ≡ some p
    → confirmed_price own.confidence own.stock own.prices.payable ≡ some q
    → p < q
    → Memᴰ x input.positions
    → x.item_id ≡ s.item_id
    → Memᴰ (low_record (project builtins input s) o (pos (q - p))) (aggregate builtins input).lows
unfolding aggregate confirmed_lows business_rows projected_rows
aggregate-low builtins input s own o t q p x m n unique theirs stored names summary st ot sp op h k
      e =
    let (signature, price, payable) = own_summary-of own summary in
    let found = get-own_maps input.snapshots own n summary unique in
    Memᴰ-sort compare_low _ (
      Memᴰ-filter_map_of low_of
        (Memᴰ-filter_of is_business (Memᴰ-sort compare_row _ (Memᴰ-map (project builtins input) m))
          (project-IsBusiness builtins input s x theirs k e))
        (project-low builtins input s o own.id t q p theirs stored names found st (signature ∙ ot)
          sp (price ∙ op) (ap fen payable ∙ confirmed_price-fen_of own op) h))
