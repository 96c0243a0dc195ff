-- ===== src/Report/Missing.antt =====
-- collection-report-aggregation.ts `missingGroups`.
use price_monitor.Prelude.{
  ℕ, Option, none, some, List, [], ◌∷◌, map, filter_map, flat_map, any, head?, ltb, if◌then◌else◌,
  Text, codes, text_eq, Dict, get, put, Ordering, compare, compare_text, or_else, sort, ℤ,
  compare_int,
}
use price_monitor.Comparison.Own.{add_by_signature}
use price_monitor.Comparison.Missing.{least, compare_rank}
use price_monitor.Comparison.Classify.{MissingReason, own_combination_absent, own_out_of_stock_only}
use price_monitor.Report.{SkuRow, MissingOwnGroup, Builtins}
use price_monitor.Report.Rows.{
  confirmed_price, present, or_default, normalized_shop, first_rank, compare_row,
}
use price_monitor.Report.Projection.{is_missing}

-- The signature that a row is grouped under, if it is.
unfoldable pub missing_signature : SkuRow → Option Text
missing_signature row = if is_missing row.state then present row.signature else none

abbrev pub add_at {ℓ} : {A : Type ℓ} → Option Text → A → Dict (List A) → Dict (List A)
add_at none a m = m
add_at (some k) a m = add_by_signature k a m

-- The first loop.
unfoldable pub missing_from : List SkuRow → Dict (List SkuRow) → Dict (List SkuRow)
missing_from [] m = m
missing_from (row ∷ rows) m = missing_from rows (add_at (missing_signature row) row m)

-- A row that is confirmed and in stock, with its price.
pub record PricedRow : Type 0 where
  pub row : SkuRow
  pub price : ℕ

abbrev priced_row : SkuRow → Option ℕ → Option PricedRow
priced_row r none = none
priced_row r (some n) = some (record { row = r; price = n })

unfoldable pub as_priced_row : SkuRow → Option PricedRow
as_priced_row r = priced_row r (confirmed_price r.confidence r.stock r.prices.payable)

unfoldable pub compare_priced_row : PricedRow → PricedRow → Ordering
compare_priced_row a b = or_else (compare a.price b.price) (compare_row a.row b.row)

-- `minimumOffer`.
unfoldable pub minimum_offer : List SkuRow → Option PricedRow
minimum_offer offers = head? (sort compare_priced_row (filter_map as_priced_row offers))

-- An entry of `shops`.
pub record ShopRank : Type 0 where
  pub name : Text
  pub rank : ℕ

abbrev put_nearer : Text → ShopRank → Option ShopRank → Dict ShopRank → Dict ShopRank
put_nearer key shop none shops = put key shop shops
put_nearer key shop (some existing) shops =
    if ltb shop.rank existing.rank then put key shop shops else shops

unfoldable pub shops_from : Builtins → List SkuRow → Dict ShopRank → Dict ShopRank
shops_from builtins [] shops = shops
shops_from builtins (r ∷ rows) shops =
    let key : Text = normalized_shop builtins r.shop_name in
    let shop : ShopRank = record {
      name = builtins.display r.shop_name;
      rank = first_rank r.ranks;
    } in
    shops_from builtins rows (put_nearer key shop (get key shops) shops)

unfoldable pub compare_shop : Text × ShopRank → Text × ShopRank → Ordering
compare_shop a b =
    let s : ShopRank = a.1 in
    let t : ShopRank = b.1 in or_else (compare s.rank t.rank) (compare_text a.0 b.0)

abbrev shop_name_of : Text × ShopRank → Text
shop_name_of (key, shop) = shop.name

unfoldable pub missing_reason : List SkuRow → MissingReason
missing_reason offers =
    if any (λ (r : SkuRow). any (text_eq (codes "OWN_OUT_OF_STOCK_ONLY")) r.reasons) offers
    then own_out_of_stock_only
    else own_combination_absent

abbrev price_of : Option PricedRow → Option ℤ
price_of none = none
price_of (some p) = p.row.prices.payable

abbrev id_of : Option PricedRow → Option Text
id_of none = none
id_of (some p) = some p.row.id

abbrev rank_of : Option PricedRow → Option ℕ
rank_of none = none
rank_of (some p) = head? p.row.ranks

-- The group of one signature; `Math.min()` of no rank is none, which is above all ranks.
unfoldable pub group_of : Builtins → Text × List SkuRow → MissingOwnGroup
group_of builtins (signature, entries) =
    let offers = sort compare_row entries in
    let minimum : Option PricedRow = minimum_offer offers in
    record {
      signature = signature;
      label =
          or_default []
            (head? (sort compare_text (map (λ (r : SkuRow). or_default [] r.label) offers)));
      reason = missing_reason offers;
      earliest_rank = least none (flat_map SkuRow.ranks offers);
      minimum_confirmed = price_of minimum;
      minimum_offer_id = id_of minimum;
      minimum_offer_rank = rank_of minimum;
      shops = map shop_name_of (sort compare_shop (shops_from builtins offers []));
      offers = offers;
    }

abbrev compare_nullable : Option ℤ → Option ℤ → Ordering
compare_nullable none none = Ordering.eq
compare_nullable none (some b) = Ordering.gt
compare_nullable (some a) none = Ordering.lt
compare_nullable (some a) (some b) = compare_int a b

unfoldable pub compare_missing : MissingOwnGroup → MissingOwnGroup → Ordering
compare_missing a b =
    or_else (compare_nullable a.minimum_confirmed b.minimum_confirmed) (
      or_else (compare_rank a.earliest_rank b.earliest_rank) (compare_text a.signature b.signature))

unfoldable pub missing_groups : Builtins → List SkuRow → List MissingOwnGroup
missing_groups builtins rows = sort compare_missing (map (group_of builtins) (missing_from rows []))
