-- ===== src/Comparison.antt =====
-- apps/api/src/collection/run-sku-comparison.ts: the comparison of one run's SKUs by the signature of
-- their combination. The data, and the order and the price tests of candidates.
pub mod Own
pub mod Classify
pub mod Missing
pub mod Evaluate
pub mod Rows
pub mod Baselines
pub mod Alerts
pub mod Lows
pub mod Tests
use price_monitor.Prelude.{
  ℕ, Bool, true, false, ◌&&◌, not, Option, none, some, List, [], ◌∷◌, ◌++◌, any, if◌then◌else◌,
  Text, codes, text_eq, Ordering, compare, compare_text, or_else,
}
use price_monitor.Money.{Number, natural, other, is_safe}
use price_monitor.Pricing.PublicPrice.{Confidence}

pub data Source : Type 0 where
  own competitor : Source

pub data Stock : Type 0 where
  in_stock out_of_stock unknown_stock : Stock

-- `SkuCombinationBuildResult`, as far as the comparison reads it.
pub data Combination : Type 0 where
  signed : Text → Text → List Text → Combination
  review : Option Text → List Text → Combination
  excluded : List Text → Combination

-- `RunSkuComparisonCandidate`.
pub record Candidate : Type 0 where
  pub snapshot_id : Text
  pub source : Source
  pub item_id : Text
  pub sku_id : Text
  pub shop_name : Text
  pub search_ranks : List Number
  pub stock : Stock
  pub confidence : Confidence
  pub payable : Option Number
  pub combination : Combination

-- `SignedCandidate`, with the fields of its combination.
pub record Signed : Type 0 where
  pub candidate : Candidate
  pub signature : Text
  pub label : Text
  pub reasons : List Text

-- A signed candidate with its `payableFen`, where that is a confirmed price.
pub record Priced : Type 0 where
  pub signed : Signed
  pub price : ℕ

abbrev pub source_text : Source → Text
source_text own = codes "OWN"
source_text competitor = codes "COMPETITOR"

unfoldable pub compare_identity : Candidate → Candidate → Ordering
compare_identity a b =
    or_else (compare_text a.item_id b.item_id)
      (or_else (compare_text a.sku_id b.sku_id) (compare_text a.snapshot_id b.snapshot_id))

-- The comparator of `sortedCandidates`.
unfoldable pub compare_candidate : Candidate → Candidate → Ordering
compare_candidate a b =
    or_else (compare_text a.snapshot_id b.snapshot_id)
      (or_else (compare_text (source_text a.source) (source_text b.source)) (compare_identity a b))

unfoldable pub signed_of : Combination → Candidate → Option Signed
signed_of (signed signature label reasons) c =
    some (record { candidate = c; signature = signature; label = label; reasons = reasons })
signed_of (review label reasons) c = none
signed_of (excluded reasons) c = none

-- `isSigned`.
unfoldable pub as_signed : Candidate → Option Signed
unfolding signed_of
as_signed c = signed_of c.combination c

abbrev pub is_confirmed : Confidence → Bool
is_confirmed Confidence.confirmed = true
is_confirmed _ = false

abbrev pub fen_of : Option Number → Option ℕ
fen_of none = none
fen_of (some (natural n)) = if is_safe n then some n else none
fen_of (some other) = none

-- `hasConfirmedPayable`, with the price that it confirms.
unfoldable pub confirmed_payable : Candidate → Option ℕ
confirmed_payable c = if is_confirmed c.confidence then fen_of c.payable else none

abbrev pub is_some {ℓ} : {A : Type ℓ} → Option A → Bool
is_some none = false
is_some (some a) = true

unfoldable pub has_confirmed_payable : Candidate → Bool
unfolding confirmed_payable
has_confirmed_payable c = is_some (confirmed_payable c)

abbrev pub in_stock? : Stock → Bool
in_stock? in_stock = true
in_stock? _ = false

abbrev pub out_of_stock? : Stock → Bool
out_of_stock? out_of_stock = true
out_of_stock? _ = false

abbrev pub unknown_stock? : Stock → Bool
unknown_stock? unknown_stock = true
unknown_stock? _ = false

abbrev pub is_own : Source → Bool
is_own own = true
is_own competitor = false

abbrev pub priced : Signed → Option ℕ → Option Priced
priced s none = none
priced s (some n) = some (record { signed = s; price = n })

-- `isEligibleOwn`.
unfoldable pub as_eligible : Signed → Option Priced
unfolding confirmed_payable
as_eligible s =
    if in_stock? s.candidate.stock then priced s (confirmed_payable s.candidate) else none

unfoldable pub compare_eligible : Priced → Priced → Ordering
unfolding compare_identity
compare_eligible a b =
    or_else (compare a.price b.price) (compare_identity a.signed.candidate b.signed.candidate)

-- `[...new Set(values)]`.
unfoldable pub unique_from : List Text → List Text → List Text
unique_from seen [] = seen
unique_from seen (x ∷ xs) = unique_from (if any (text_eq x) seen then seen else seen ++ x ∷ []) xs

unfoldable pub unique : List Text → List Text
unfolding unique_from
unique xs = unique_from [] xs
