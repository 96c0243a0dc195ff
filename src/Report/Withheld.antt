-- ===== src/Report/Withheld.antt =====
-- The missing groups of a run whose own catalog is not complete.

use price_monitor.Prelude.{
  Bool, true, false, not, ◌&&◌, ◌||◌, Option, none, List, [], ◌∷◌, ◌≡◌, refl, sym, ap, ◌∙◌, subst,
  Memᴰ-filter, Memᴰ_of_sort, All, All-of_Memᴰ, Dict, arith, sort, if◌then◌else◌, &&-left,
}
use price_monitor.OwnCatalog.Sets.{Memᴰ-of_map}
use price_monitor.Comparison.{is_own}
use price_monitor.Comparison.Classify.{State, review_state}
use price_monitor.Report.{SnapshotFact, OwnSummary, SkuRow, ReportInput, Builtins}
use price_monitor.Report.Rows.{present, or_default, compare_row}
use price_monitor.Report.Projection.{
  source_of, is_missing, projected_state, project, projected_rows, row_of,
}
use price_monitor.Report.Missing.{missing_signature, missing_from, missing_groups}
use price_monitor.Report.Aggregate.{is_business, business_rows, aggregate}

state_by-missing :
    (legacy invalid : Bool) (theirs : Bool) (stored : Option State)
    → theirs ≡ true
    → is_missing (
        if legacy || invalid || (theirs && is_missing (or_default review_state stored) && true)
        then review_state
        else or_default review_state stored)
      ≡ false
state_by-missing legacy invalid theirs stored h = ground arith

projected_state-missing :
    (s : SnapshotFact) (selected : Option OwnSummary)
    → not (is_own (source_of (present s.own_listing_id))) ≡ true
    → is_missing (projected_state false s selected) ≡ false
unfolding projected_state
projected_state-missing s selected theirs = rw theirs (ground arith)

missing_from-none :
    (rows : List SkuRow) (m : Dict (List SkuRow))
    → All (λ r. missing_signature r ≡ none) rows
    → missing_from rows m ≡ m
unfolding missing_from
missing_from-none [] m h = refl
missing_from-none (r ∷ rows) m (e, h) = rw e (missing_from-none rows m h)

project-missing_signature :
    (builtins : Builtins) (input : ReportInput) (s : SnapshotFact)
    → input.catalog_complete ≡ false
    → is_business (project builtins input s) ≡ true
    → missing_signature (project builtins input s) ≡ none
unfolding project row_of is_business missing_signature
project-missing_signature builtins input s incomplete b =
    rw (incomplete, projected_state-missing s _ (&&-left _ _ b))

-- A report of a run whose own catalog is not complete has no missing group, whatever the states that are
-- stored with its snapshots.
pub aggregate-withholds :
    (builtins : Builtins) (input : ReportInput)
    → input.catalog_complete ≡ false
    → (aggregate builtins input).missing ≡ []
unfolding aggregate missing_groups business_rows projected_rows sort
aggregate-withholds builtins input incomplete =
    let rows = business_rows builtins input in
    let none_missing : All (λ r. missing_signature r ≡ none) rows = All-of_Memᴰ _ rows (λ r m.
      let (there, b) = Memᴰ-filter is_business _ m in
      let (s, n, e) =
        Memᴰ-of_map (project builtins input) input.snapshots (Memᴰ_of_sort compare_row _ there) in
      ap missing_signature (sym e)
      ∙ project-missing_signature builtins input s incomplete
          (subst (λ x. is_business x ≡ true) (sym e) b)) in
    rw (missing_from-none rows [] none_missing)
