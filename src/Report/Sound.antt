-- ===== src/Report/Sound.antt =====
-- The lows of a report, and the snapshots that they come from.
use mathlib.Core.List.{Memᴰ}
use price_monitor.Prelude.{
  ℕ, ◌-◌, ◌<◌, Bool, true, false, not, ◌&&◌, Option, none, some, List, ◌≡◌, refl, sym, ap, ◌∙◌,
  subst, inl, inr, Memᴰ-filter_map, Memᴰ-filter, All, All-of_Memᴰ, Memᴰ_of_sort, none-ne-some,
  arith, if◌then◌else◌, Bool-cases, &&-left, &&-right, is_empty, Text, text_eq→eq, Dict, get, ℤ,
  pos, sub_ℕ, is_positive,
}
use price_monitor.OwnCatalog.Sets.{Memᴰ-of_map}
use price_monitor.Comparison.{is_own, is_some}
use price_monitor.Comparison.Classify.{
  State, own_state, matched, missing_own, review_state, excluded_state,
}
use price_monitor.Report.{SnapshotFact, ReportInput, OwnSummary, SkuRow, ConfirmedLow, Builtins}
use price_monitor.Report.Rows.{fen, confirmed_price, present, or_default, compare_row}
use price_monitor.Report.Projection.{
  source_of, is_matched, same_signature, selected_of, related, lookup, projected_state,
  difference_of, minus, summary_price, own_maps, row_of, project, projected_rows,
}
use price_monitor.Report.Lows.{
  low_record, is_low_candidate, is_low_against, low_by, low_with, low_of, compare_low,
  confirmed_lows,
}
use price_monitor.Report.Aggregate.{is_business, business_rows, aggregate}
use price_monitor.Report.Grouping.{IsSummaryIn, own_maps-IsSummaryIn}

-- What the tests of `confirmedLows` say of the row of a low.
record LowFacts (row : SkuRow) (low : ConfirmedLow) : Type 0 where
  own_side : OwnSummary
  amount : ℤ
  selected : row.selected_own ≡ some own_side
  difference : row.difference ≡ some amount
  candidate : is_low_candidate row ≡ true
  against : is_low_against row own_side ≡ true
  positive : is_positive amount ≡ true
  same : low ≡ low_record row own_side amount

low_by-LowFacts :
    (row : SkuRow) (o : OwnSummary) (d : Option ℤ) {low : ConfirmedLow}
    → row.selected_own ≡ some o
    → row.difference ≡ d
    → is_low_candidate row ≡ true
    → is_low_against row o ≡ true
    → low_by row o d ≡ some low
    → LowFacts row low
unfolding low_by
low_by-LowFacts row o none s e c a h = absurd (none-ne-some h)
low_by-LowFacts row o (some d) {low} s e c a h = elim (Bool-cases (is_positive d)) [
  | inl positive ↦ record {
    own_side = o;
    amount = d;
    selected = s;
    difference = e;
    candidate = c;
    against = a;
    positive = positive;
    same = sym (let h' : some (low_record row o d) ≡ some low = rw positive at h in cc h');
  }
  | inr negative ↦ (let h' : none ≡ some low = rw negative at h in absurd (none-ne-some h'))
]

low_with-LowFacts :
    (row : SkuRow) (o : Option OwnSummary) {low : ConfirmedLow}
    → row.selected_own ≡ o
    → low_with row o ≡ some low
    → LowFacts row low
unfolding low_with
low_with-LowFacts row none s h = absurd (none-ne-some h)
low_with-LowFacts row (some o) {low} s h =
    elim (Bool-cases (is_low_candidate row && is_low_against row o)) [
      | inl passes ↦
          low_by-LowFacts row o row.difference s refl
            (&&-left (is_low_candidate row) (is_low_against row o) passes)
            (&&-right (is_low_candidate row) (is_low_against row o) passes) (rw passes at h)
      | inr fails ↦ (let h' : none ≡ some low = rw fails at h in absurd (none-ne-some h'))
    ]

confirmed_lows-LowFacts :
    (rows : List SkuRow) {low : ConfirmedLow}
    → Memᴰ low (confirmed_lows rows)
    → (row : SkuRow) × Memᴰ row rows × LowFacts row low
unfolding confirmed_lows low_of
confirmed_lows-LowFacts rows m =
    let (row, k, h) = Memᴰ-filter_map low_of rows (Memᴰ_of_sort compare_low _ m) in
    (row, k, low_with-LowFacts row row.selected_own refl h)

-- A low of a report. Its row is the projection of a competitor's snapshot of the run that was stored as
-- matched, and its own side the summary of a snapshot of the run: the one that the competitor's
-- snapshot names, with the same signature. Both are in stock at a confirmed price, the own side costs
-- more, and the low's difference is what it costs more.
pub record IsReportedLow (builtins : Builtins) (input : ReportInput) (low : ConfirmedLow)
    : Type 0 where
  pub snapshot : SnapshotFact
  pub of_run : Memᴰ snapshot input.snapshots
  pub row : low.competitor ≡ project builtins input snapshot
  pub theirs : present snapshot.own_listing_id ≡ none
  pub stored : snapshot.state ≡ some matched
  pub related_id : Text
  pub names : present snapshot.comparison_own ≡ some related_id
  pub own_side : IsSummaryIn input.snapshots related_id low.selected_own
  pub signature : Text
  pub their_signature : snapshot.signature ≡ some signature
  pub own_signature : low.selected_own.signature ≡ some signature
  pub their_price : ℕ
  pub own_price : ℕ
  pub their_offer :
      confirmed_price snapshot.confidence snapshot.stock snapshot.prices.payable ≡ some their_price
  pub own_offer : summary_price low.selected_own ≡ some own_price
  pub cheaper : their_price < own_price
  pub difference : low.difference ≡ pos (own_price - their_price)
  pub ranked : is_empty low.ranks ≡ false

positive-sub_ℕ : (q p : ℕ) → is_positive (sub_ℕ q p) ≡ true → (p < q) × (sub_ℕ q p ≡ pos (q - p))
positive-sub_ℕ q p h = ground arith

confirmed_price-fen :
    (s : SnapshotFact) {n : ℕ}
    → is_some (confirmed_price s.confidence s.stock s.prices.payable) ≡ true
    → fen s.prices.payable ≡ some n
    → confirmed_price s.confidence s.stock s.prices.payable ≡ some n
unfolding confirmed_price
confirmed_price-fen s h e = ground arith

summary_price-fen :
    (o : OwnSummary) {n : ℕ}
    → is_some (summary_price o) ≡ true
    → fen o.prices.payable ≡ some n
    → summary_price o ≡ some n
unfolding summary_price confirmed_price
summary_price-fen o h e = ground arith

state_by-matched :
    (b : Bool) (stored : Option State)
    → is_matched (if b then review_state else or_default review_state stored) ≡ true
    → stored ≡ some matched
state_by-matched true stored h = cc
state_by-matched false none h = cc
state_by-matched false (some own_state) h = cc
state_by-matched false (some matched) h = refl
state_by-matched false (some missing_own) h = cc
state_by-matched false (some review_state) h = cc
state_by-matched false (some excluded_state) h = cc

projected_state-matched :
    (complete : Bool) (s : SnapshotFact) (selected : Option OwnSummary)
    → is_matched (projected_state complete s selected) ≡ true
    → s.state ≡ some matched
unfolding projected_state
projected_state-matched complete s selected h = state_by-matched _ s.state h

same_signature-eq :
    (x y : Option Text) → same_signature x y ≡ true → (t : Text) × (x ≡ some t) × (y ≡ some t)
same_signature-eq none y h = cc
same_signature-eq (some s) none h = cc
same_signature-eq (some s) (some t) h = (s, refl, ap some (sym (text_eq→eq s t h)))

related-eq-some :
    (signature : Option Text) (c : Option OwnSummary) {o : OwnSummary}
    → related signature c ≡ some o
    → c ≡ some o
related-eq-some signature none h = absurd (none-ne-some h)
related-eq-some signature (some c) {o} h =
    elim (Bool-cases (same_signature c.signature signature)) [
      | inl same ↦ rw same at h
      | inr differs ↦ (let h' : none ≡ some o = rw differs at h in absurd (none-ne-some h'))
    ]

lookup-eq-some :
    (id : Option Text) (m : Dict OwnSummary) {o : OwnSummary}
    → lookup id m ≡ some o
    → (k : Text) × (id ≡ some k) × (get k m ≡ some o)
lookup-eq-some none m h = absurd (none-ne-some h)
lookup-eq-some (some k) m h = (k, refl, h)

minus-eq-some :
    (x y : Option ℕ) {d : ℤ}
    → minus x y ≡ some d
    → (q : ℕ) × (p : ℕ) × (x ≡ some q) × (y ≡ some p) × (sub_ℕ q p ≡ d)
minus-eq-some none y h = absurd (none-ne-some h)
minus-eq-some (some q) none h = absurd (none-ne-some h)
minus-eq-some (some q) (some p) h = (q, p, refl, refl, let e = h in cc e)

source_of-theirs :
    (listing : Option Text) → not (is_own (source_of listing)) ≡ true → listing ≡ none
source_of-theirs none h = refl
source_of-theirs (some t) h = cc

difference_of-eq-some :
    (s : SnapshotFact) (o : OwnSummary) {d : ℤ}
    → difference_of s (some o) ≡ some d
    → (q : ℕ) × (p : ℕ) × (fen o.prices.payable ≡ some q)
      × (fen s.prices.payable ≡ some p)
      × (sub_ℕ q p ≡ d)
unfolding difference_of
difference_of-eq-some s o h = minus-eq-some (fen o.prices.payable) (fen s.prices.payable) h

selected_of-eq-some :
    (by_id : Dict OwnSummary) (s : SnapshotFact) {o : OwnSummary}
    → selected_of by_id s ≡ some o
    → (k : Text) × (present s.comparison_own ≡ some k) × (get k by_id ≡ some o)
unfolding selected_of
selected_of-eq-some by_id s h =
    lookup-eq-some (present s.comparison_own) by_id (related-eq-some s.signature _ h)

and₃ : (a b c : Bool) → (a && b && c) ≡ true → (a ≡ true) × (b ≡ true) × (c ≡ true)
and₃ a b c h = ground arith

and₄ :
    (a b c d : Bool) → (a && b && c && d) ≡ true → (a ≡ true) × (b ≡ true) × (c ≡ true) × (d ≡ true)
and₄ a b c d h = ground arith

not-true : (b : Bool) → not b ≡ true → b ≡ false
not-true b h = ground arith

-- The facts of the row of a snapshot.
IsReportedLow-of_LowFacts :
    (builtins : Builtins) (input : ReportInput) (s : SnapshotFact) {low : ConfirmedLow}
    → Memᴰ s input.snapshots
    → is_business (project builtins input s) ≡ true
    → LowFacts (project builtins input s) low
    → IsReportedLow builtins input low
unfolding project row_of is_business is_low_candidate is_low_against
IsReportedLow-of_LowFacts builtins input s {low} m b facts =
    let by_id = (own_maps input.snapshots).by_id in
    let o : OwnSummary = facts.own_side in
    let (k, names, found) = selected_of-eq-some by_id s facts.selected in
    let shut : difference_of s (selected_of by_id s) ≡ some facts.amount = facts.difference in
    let (q, p, eq, ep, total) = difference_of-eq-some s o (rw facts.selected at shut) in
    let (theirs, state, _, offer) = and₄ _ _ _ _ facts.candidate in
    let ranked = &&-right _ _ b in
    let (lt, e) =
      positive-sub_ℕ q p (subst (λ d. is_positive d ≡ true) (sym total) facts.positive) in
    let (t, own_signature, their_signature) =
      same_signature-eq o.signature s.signature (&&-left _ _ facts.against) in
    let same : low ≡ low_record (project builtins input s) o facts.amount = facts.same in
    let own : low.selected_own ≡ o = ap ConfirmedLow.selected_own same in
    record {
      snapshot = s;
      of_run = m;
      row = ap ConfirmedLow.competitor same;
      theirs = source_of-theirs (present s.own_listing_id) theirs;
      stored = projected_state-matched input.catalog_complete s _ state;
      related_id = k;
      names = names;
      own_side = own_maps-IsSummaryIn input.snapshots k (found ∙ ap some (sym own));
      signature = t;
      their_signature = their_signature;
      own_signature = ap OwnSummary.signature own ∙ own_signature;
      their_price = p;
      own_price = q;
      their_offer = confirmed_price-fen s offer ep;
      own_offer = ap summary_price own ∙ summary_price-fen o (&&-right _ _ facts.against) eq;
      cheaper = lt;
      difference = ap ConfirmedLow.difference same ∙ sym total ∙ e;
      ranked = ap (λ (x : ConfirmedLow). is_empty x.ranks) same ∙ not-true _ ranked;
    }

-- Every low of a report is the row of a competitor's snapshot of the run that was stored as matched and
-- whose item has a position. Its own side is the summary of an own snapshot of the run: the one that the
-- competitor's snapshot names, with the same signature. Both are in stock at a confirmed price, the own
-- side costs more, and the difference of the low is what it costs more.
pub aggregate-IsReportedLow :
    (builtins : Builtins) (input : ReportInput)
    → All (IsReportedLow builtins input) (aggregate builtins input).lows
unfolding aggregate business_rows projected_rows
aggregate-IsReportedLow builtins input = All-of_Memᴰ (IsReportedLow builtins input) _ λ low m.
    let (row, k, facts) = confirmed_lows-LowFacts _ m in
    let (there, b) = Memᴰ-filter is_business _ k in
    let (s, n, e) =
      Memᴰ-of_map (project builtins input) input.snapshots (Memᴰ_of_sort compare_row _ there) in
    IsReportedLow-of_LowFacts builtins input s n (subst (λ r. is_business r ≡ true) (sym e) b)
      (subst (λ r. LowFacts r low) (sym e) facts)
