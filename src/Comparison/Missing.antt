-- ===== src/Comparison/Missing.antt =====
-- run-sku-comparison.ts `buildMissingGroups`: the offers of competitors that have no own counterpart,
-- by signature.
use price_monitor.Prelude.{
  ℕ, min, Option, none, some, List, [], ◌∷◌, map, head?, if◌then◌else◌, Text, Dict, Ordering,
  compare, compare_text, or_else, sort,
}
use price_monitor.Money.{Number, natural, other, is_safe, max_safe}
use price_monitor.Comparison.{Candidate, unique}
use price_monitor.Comparison.Own.{add_by_signature}
use price_monitor.Comparison.Classify.{MissingReason, own_combination_absent, MissingEntry}

-- `RunSkuMissingOwnGroup`.
pub record MissingGroup : Type 0 where
  pub signature : Text
  pub label : Text
  pub reason : MissingReason
  pub earliest_rank : Option ℕ
  pub minimum_price : ℕ
  pub shops : List Text
  pub offers : List Text

-- The ranks of one candidate that are safe natural numbers.
unfoldable pub safe_ranks : List Number → List ℕ
safe_ranks [] = []
safe_ranks (other ∷ ranks) = safe_ranks ranks
safe_ranks (natural n ∷ ranks) = if is_safe n then n ∷ safe_ranks ranks else safe_ranks ranks

-- `Math.min(...)` of the ranks seen so far and those of one more list.
unfoldable pub least : Option ℕ → List ℕ → Option ℕ
least best [] = best
least none (n ∷ ns) = least (some n) ns
least (some m) (n ∷ ns) = least (some (min m n)) ns

-- `earliestRank`.
unfoldable pub earliest_rank : Option ℕ → List MissingEntry → Option ℕ
earliest_rank best [] = best
earliest_rank best (e ∷ es) =
    earliest_rank (least best (safe_ranks e.offer.signed.candidate.search_ranks)) es

-- The `reduce` of the prices, from `Number.MAX_SAFE_INTEGER`.
unfoldable pub minimum_price : ℕ → List MissingEntry → ℕ
minimum_price lowest [] = lowest
minimum_price lowest (e ∷ es) = minimum_price (min lowest e.offer.price) es

-- `compareNullableRank`.
abbrev pub compare_rank : Option ℕ → Option ℕ → Ordering
compare_rank none none = Ordering.eq
compare_rank none (some n) = Ordering.gt
compare_rank (some m) none = Ordering.lt
compare_rank (some m) (some n) = compare m n

unfoldable pub compare_group : MissingGroup → MissingGroup → Ordering
compare_group a b =
    or_else (compare a.minimum_price b.minimum_price) (
      or_else (compare_rank a.earliest_rank b.earliest_rank) (compare_text a.signature b.signature))

abbrev offer_candidate : MissingEntry → Candidate
offer_candidate e = e.offer.signed.candidate

-- `labels[0]!` and `entries[0]!`: the entries of a signature are never empty.
abbrev first_text : Option Text → Text
first_text none = []
first_text (some t) = t

abbrev first_reason : List MissingEntry → MissingReason
first_reason [] = own_combination_absent
first_reason (e ∷ es) = e.reason

unfoldable pub group_of : Text × List MissingEntry → MissingGroup
group_of (signature, entries) = record {
  signature = signature;
  label =
      first_text
        (head? (sort compare_text (map (λ (e : MissingEntry). e.offer.signed.label) entries)));
  reason = first_reason entries;
  earliest_rank = earliest_rank none entries;
  minimum_price = minimum_price max_safe entries;
  shops =
      sort compare_text
        (unique (map (λ (e : MissingEntry). (offer_candidate e).shop_name) entries));
  offers = sort compare_text (map (λ (e : MissingEntry). (offer_candidate e).snapshot_id) entries);
}

-- The first loop of `buildMissingGroups`.
unfoldable pub entries_by_signature :
    List MissingEntry → Dict (List MissingEntry) → Dict (List MissingEntry)
entries_by_signature [] m = m
entries_by_signature (e ∷ es) m =
    entries_by_signature es (add_by_signature e.offer.signed.signature e m)

unfoldable pub missing_groups : List MissingEntry → List MissingGroup
missing_groups entries = sort compare_group (map group_of (entries_by_signature entries []))
