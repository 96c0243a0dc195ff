-- ===== src/Report/Board.antt =====
-- collection-report-aggregation.ts `priceBoard`.
use price_monitor.Prelude.{
  Option, none, some, List, [], ◌∷◌, ◌++◌, map, filter_map, flat_map, length, head?, not_gt,
  if◌then◌else◌, Text, Dict, get, put, Ordering, compare, compare_text, or_else, sort, ℤ,
  compare_int,
}
use price_monitor.Money.{max_safe}
use price_monitor.Comparison.{is_confirmed, unique}
use price_monitor.Comparison.Own.{add_by_signature, rows_of}
use price_monitor.Report.{PositionFact, SkuRow, ItemGroup, ShopGroup, Builtins}
use price_monitor.Report.Rows.{
  normalized_shop, or_default, compare_row, position_output, positions_by_item,
}
use price_monitor.Report.Lows.{confirmed_lows}
use price_monitor.Report.Missing.{missing_signature}

-- The first loop.
unfoldable pub rows_from : List SkuRow → Dict (List SkuRow) → Dict (List SkuRow)
rows_from [] m = m
rows_from (row ∷ rows) m = rows_from rows (add_by_signature row.item_id row m)

-- An entry of `shops`.
pub record Shop : Type 0 where
  pub name : Text
  pub items : List ItemGroup

unfoldable pub item_group :
    Builtins → Text → PositionFact → List PositionFact → List SkuRow → Text → ItemGroup
item_group builtins name first facts rows item = record {
  item_id = item;
  shop_name = name;
  title = first.title;
  url = first.url;
  earliest_rank = first.rank;
  ranks = map PositionFact.rank facts;
  positions = map (position_output builtins) facts;
  sku_count = length rows;
  skus = rows;
}

abbrev pub shop_or_new : Text → Option Shop → Shop
shop_or_new name none = record { name = name; items = [] }
shop_or_new name (some shop) = shop

-- The body of the loop over the items; the positions of an item are never empty.
unfoldable pub add_item :
    Builtins → Dict (List SkuRow) → Text × List PositionFact → Dict Shop → Dict Shop
add_item builtins by_item (item, []) shops = shops
add_item builtins by_item (item, first ∷ facts) shops =
    let key : Text = normalized_shop builtins first.shop_name in
    let shop : Shop = shop_or_new (builtins.display first.shop_name) (get key shops) in
    let rows = sort compare_row (rows_of item by_item) in
    put key
      (record {
        name = shop.name;
        items = shop.items ++ item_group builtins shop.name first (first ∷ facts) rows item ∷ [];
      })
      shops

unfoldable pub shops_from :
    Builtins → Dict (List SkuRow) → Dict (List PositionFact) → Dict Shop → Dict Shop
shops_from builtins by_item [] shops = shops
shops_from builtins by_item (entry ∷ entries) shops =
    shops_from builtins by_item entries (add_item builtins by_item entry shops)

unfoldable pub compare_item : ItemGroup → ItemGroup → Ordering
compare_item a b =
    or_else (compare a.earliest_rank b.earliest_rank) (compare_text a.item_id b.item_id)

-- A price of `confirmedPrices`.
unfoldable pub listed_price : SkuRow → Option ℤ
listed_price row = if is_confirmed row.confidence then row.prices.payable else none

-- `Math.min(...)` of the prices.
abbrev lesser : ℤ → Option ℤ → ℤ
lesser a none = a
lesser a (some b) = if not_gt (compare_int a b) then a else b

abbrev minimum_int : List ℤ → Option ℤ
minimum_int [] = none
minimum_int (a ∷ rest) = some (lesser a (minimum_int rest))

-- `[key, group]` of one shop.
unfoldable pub shop_group : Text × Shop → Text × ShopGroup
shop_group (key, shop) =
    let items = sort compare_item shop.items in
    let skus = flat_map ItemGroup.skus items in
    let ranks = sort compare (flat_map ItemGroup.ranks items) in
    (
      key,
      record {
        shop_name = shop.name;
        earliest_rank = or_default max_safe (head? ranks);
        ranks = ranks;
        position_count = length ranks;
        item_count = length items;
        sku_count = length skus;
        minimum_confirmed = minimum_int (filter_map listed_price skus);
        confirmed_low_count = length (confirmed_lows skus);
        missing_count = length (unique (filter_map missing_signature skus));
        items = items;
      },
    )

unfoldable pub compare_shop_group : Text × ShopGroup → Text × ShopGroup → Ordering
compare_shop_group a b =
    let s : ShopGroup = a.1 in
    let t : ShopGroup = b.1 in
    or_else (compare s.earliest_rank t.earliest_rank) (compare_text a.0 b.0)

abbrev pub group_at : Text × ShopGroup → ShopGroup
group_at (key, group) = group

unfoldable pub price_board : Builtins → List PositionFact → List SkuRow → List ShopGroup
price_board builtins positions rows =
    let entries = positions_by_item builtins positions in
    map group_at (
      sort compare_shop_group (map shop_group (shops_from builtins (rows_from rows []) entries [])))
