-- ===== src/Report/Rows.antt =====
-- collection-report-aggregation.ts: the helpers of a row, and the comparators.
use price_monitor.Prelude.{
  ℕ, Bool, ◌&&◌, Option, none, some, List, [], ◌∷◌, head?, all, length, leb, ◌==◌, ◌||◌,
  if◌then◌else◌, Text, codes, Dict, Ordering, compare, compare_text, or_else, sort, ℤ, pos, negsuc,
  compare_int,
}
use price_monitor.Money.{is_safe, max_safe}
use price_monitor.Comparison.{Stock, in_stock?, is_confirmed}
use price_monitor.Comparison.Own.{compare_key, add_by_signature}
use price_monitor.Pricing.PublicPrice.{Confidence}
use price_monitor.Report.{PositionFact, Position, SnapshotFact, OwnSummary, SkuRow, Builtins}

-- `nonNegativeFen`, with the number that it confirms.
abbrev pub fen : Option ℤ → Option ℕ
fen none = none
fen (some (pos n)) = if is_safe n then some n else none
fen (some (negsuc n)) = none

-- `confirmedInStockPrice`, with the price.
unfoldable pub confirmed_price : Confidence → Stock → Option ℤ → Option ℕ
confirmed_price confidence stock payable =
    if is_confirmed confidence && in_stock? stock then fen payable else none

-- A string or null where the source tests that it is a string other than "".
abbrev pub present : Option Text → Option Text
present none = none
present (some []) = none
present (some (a ∷ t)) = some (a ∷ t)

abbrev pub or_default {ℓ} : {A : Type ℓ} → A → Option A → A
or_default d none = d
or_default d (some a) = a

-- `displayShopName` and `normalizedShopName`.
unfoldable pub normalized_shop : Builtins → Text → Text
normalized_shop builtins name = builtins.fold_case (builtins.display name)

-- `cloneAttributes`.
unfoldable pub clone_attributes : Dict Text → Dict Text
clone_attributes attributes = sort compare_key attributes

abbrev pub own_summary_of : SnapshotFact → Text → OwnSummary
own_summary_of s listing = record {
  id = s.id;
  own_listing_id = listing;
  item_id = s.item_id;
  sku_id = s.sku_id;
  shop_name = s.shop_name;
  title = s.title;
  sku_text = s.sku_text;
  url = s.url;
  attributes = clone_attributes s.attributes;
  components = s.components;
  promotions = s.promotions;
  gifts = s.gifts;
  prices = s.prices;
  stock = s.stock;
  confidence = s.confidence;
  signature = s.signature;
  label = s.label;
}

abbrev pub summary_at : SnapshotFact → Option Text → Option OwnSummary
summary_at s none = none
summary_at s (some listing) = some (own_summary_of s listing)

-- `ownSummary`.
unfoldable pub own_summary : SnapshotFact → Option OwnSummary
own_summary s = summary_at s (present s.own_listing_id)

-- The price that `compareOwn` sorts by.
unfoldable pub own_price : OwnSummary → ℤ
own_price o =
    if is_confirmed o.confidence then or_default (pos max_safe) o.prices.payable else pos max_safe

unfoldable pub compare_own : OwnSummary → OwnSummary → Ordering
compare_own a b = or_else (compare_int (own_price a) (own_price b)) (
    or_else (compare_text a.item_id b.item_id) (
      or_else (compare_text (or_default [] a.sku_id) (or_default [] b.sku_id))
        (compare_text a.id b.id)))

unfoldable pub position_output : Builtins → PositionFact → Position
position_output builtins p = record {
  rank = p.rank;
  item_id = p.item_id;
  url = p.url;
  shop_name = p.shop_name;
  title = p.title;
  display_price_min = p.display_price_min;
  display_price_max = p.display_price_max;
  sponsored = p.sponsored;
  captured_at = builtins.iso p.captured_at;
}

unfoldable pub compare_position : Builtins → PositionFact → PositionFact → Ordering
compare_position builtins a b = or_else (compare a.rank b.rank) (
    or_else (compare_text a.item_id b.item_id) (
      or_else (compare_text a.url b.url)
        (compare_text (builtins.iso a.captured_at) (builtins.iso b.captured_at))))

-- `ranks[0] ?? Number.MAX_SAFE_INTEGER`.
abbrev pub first_rank : List ℕ → ℕ
first_rank ranks = or_default max_safe (head? ranks)

unfoldable pub compare_row : SkuRow → SkuRow → Ordering
compare_row a b = or_else (compare (first_rank a.ranks) (first_rank b.ranks)) (
    or_else (compare_text a.item_id b.item_id) (
      or_else (compare_text (or_default [] a.sku_id) (or_default [] b.sku_id))
        (compare_text a.id b.id)))

-- The first loop of `projectedRows` and of `priceBoard`, over the sorted positions.
unfoldable pub positions_from :
    List PositionFact → Dict (List PositionFact) → Dict (List PositionFact)
positions_from [] m = m
positions_from (p ∷ ps) m = positions_from ps (add_by_signature p.item_id p m)

unfoldable pub positions_by_item : Builtins → List PositionFact → Dict (List PositionFact)
positions_by_item builtins ps = positions_from (sort (compare_position builtins) ps) []

abbrev is_hex : ℕ → Bool
is_hex c = (leb 48 c && leb c 57) || (leb 97 c && leb c 102)

-- `evidenceKeyPattern.exec(key)?.[1]`: the digest behind the prefix, where it is well formed.
abbrev pub is_digest : Text → Bool
is_digest t = (length t == 64) && all is_hex t

abbrev digest_of : Text → Option Text
digest_of t = if is_digest t then some t else none

abbrev pub after_prefix : Text → Text → Option Text
after_prefix [] t = some t
after_prefix (a ∷ s) [] = none
after_prefix (a ∷ s) (b ∷ t) = let rest = after_prefix s t in if a == b then rest else none

abbrev digest : Option Text → Option Text
digest none = none
digest (some t) = digest_of t

unfoldable pub evidence_sha256 : Option Text → Option Text
evidence_sha256 key = digest (after_prefix (codes "sha256:") (or_default [] key))
