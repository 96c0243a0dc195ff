-- ===== src/Comparison/Own.antt =====
-- run-sku-comparison.ts: the operator's own SKUs by signature, and the baseline of each signature.
use price_monitor.Prelude.{
  ℕ, not, Option, none, some, List, [], ◌∷◌, ◌++◌, map, filter, head?, if◌then◌else◌, Text, text_eq,
  Dict, get, put, values, Ordering, compare, compare_text, or_else, sort,
}
use price_monitor.Comparison.{
  Candidate, Signed, Priced, compare_identity, as_signed, confirmed_payable, as_eligible,
  compare_eligible, is_own,
}

-- `compareOwnForDisplay`, from the two eligibilities and the two prices.
abbrev by_price : Signed → Signed → Option ℕ → Option ℕ → Ordering
by_price a b (some m) (some n) = or_else (compare m n) (compare_identity a.candidate b.candidate)
by_price a b (some m) none = Ordering.lt
by_price a b none (some n) = Ordering.gt
by_price a b none none = compare_identity a.candidate b.candidate

abbrev by_eligibility : Signed → Signed → Option Priced → Option Priced → Ordering
by_eligibility a b (some p) (some q) = compare_eligible p q
by_eligibility a b (some p) none = Ordering.lt
by_eligibility a b none (some q) = Ordering.gt
by_eligibility a b none none =
    by_price a b (confirmed_payable a.candidate) (confirmed_payable b.candidate)

unfoldable pub compare_own_for_display : Signed → Signed → Ordering
compare_own_for_display a b = by_eligibility a b (as_eligible a) (as_eligible b)

abbrev pub or_empty {ℓ} : {A : Type ℓ} → Option (List A) → List A
or_empty none = []
or_empty (some rows) = rows

-- `map.get(key) ?? []`.
unfoldable pub rows_of {ℓ} : {A : Type ℓ} → Text → Dict (List A) → List A
rows_of signature m = or_empty (get signature m)

-- `addBySignature`.
unfoldable pub add_by_signature {ℓ} : {A : Type ℓ} → Text → A → Dict (List A) → Dict (List A)
add_by_signature signature a m = put signature (rows_of signature m ++ a ∷ []) m

pub record OwnRows : Type 0 where
  pub all_own : Dict (List Signed)
  pub eligible_own : Dict (List Priced)

unfoldable pub add_eligible : Option Priced → Dict (List Priced) → Dict (List Priced)
add_eligible none m = m
add_eligible (some p) m = add_by_signature p.signed.signature p m

unfoldable pub add_signed : Option Signed → OwnRows → OwnRows
add_signed none rows = rows
add_signed (some s) rows = record {
  all_own = add_by_signature s.signature s rows.all_own;
  eligible_own = add_eligible (as_eligible s) rows.eligible_own;
}

-- The body of the first loop.
unfoldable pub add_own : Candidate → OwnRows → OwnRows
add_own c rows = if is_own c.source then add_signed (as_signed c) rows else rows

unfoldable pub collect_own : List Candidate → OwnRows → OwnRows
collect_own [] rows = rows
collect_own (c ∷ cs) rows = collect_own cs (add_own c rows)

abbrev pub map_values {ℓ κ} : {A : Type ℓ} {B : Type κ} → (A → B) → Dict A → Dict B
map_values f [] = []
map_values f ((k, v) ∷ m) = (k, f v) ∷ map_values f m

-- Both maps, with their rows sorted.
unfoldable pub own_rows : List Candidate → OwnRows
own_rows cs =
    let rows = collect_own cs (record { all_own = []; eligible_own = [] }) in
    record {
      all_own = map_values (sort compare_own_for_display) rows.all_own;
      eligible_own = map_values (sort compare_eligible) rows.eligible_own;
    }

-- `RunSkuOwnBaseline`.
pub record Baseline : Type 0 where
  pub signature : Text
  pub label : Text
  pub selected_snapshot_id : Text
  pub selected_price : ℕ
  pub alternative_snapshot_ids : List Text

-- A signature with `eligibleRows[0]`; the rows of a signature are never empty.
unfoldable pub selections : Dict (List Priced) → Dict Priced
selections [] = []
selections ((k, []) ∷ m) = selections m
selections ((k, p ∷ ps) ∷ m) = (k, p) ∷ selections m

unfoldable pub compare_key {ℓ} : {A : Type ℓ} → Text × A → Text × A → Ordering
compare_key a b = compare_text a.0 b.0

-- `selectedOwnBySignature`: entries in the order of their signatures.
unfoldable pub selected_own : OwnRows → Dict Priced
selected_own rows = selections (sort compare_key rows.eligible_own)

unfoldable pub baseline : Dict (List Signed) → Text × Priced → Baseline
baseline all (signature, p) =
    let id : Text = p.signed.candidate.snapshot_id in
    record {
      signature = signature;
      label = p.signed.label;
      selected_snapshot_id = id;
      selected_price = p.price;
      alternative_snapshot_ids =
          map (λ (s : Signed). s.candidate.snapshot_id)
            (filter (λ (s : Signed). not (text_eq s.candidate.snapshot_id id))
              (rows_of signature all));
    }

unfoldable pub baselines : OwnRows → List Baseline
baselines rows = map (baseline rows.all_own) (selected_own rows)

-- `primaryOwnSnapshotId`.
unfoldable pub primary_own : OwnRows → Option Text
primary_own rows = elim (head? (sort compare_eligible (values (selected_own rows)))) [
  | none ↦ none
  | some p ↦ some (Candidate.snapshot_id (Signed.candidate (Priced.signed p)))
]
