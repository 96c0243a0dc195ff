-- ===== src/Report/Partition.antt =====
-- The rows and the positions that the shops of a board hold.
use mathlib.Core.List.{Memᴰ}
use price_monitor.Prelude.{
  ℕ, ◌+◌, true, false, none, filter, List, [], ◌∷◌, map, ◌≡◌, ◌≢◌, refl, sym, ap, ap₂, ◌∙◌, length,
  flat_map, Memᴰ-filter, Memᴰ_of_sort, Text, Dict, get, IsMap, All, All-of_Memᴰ, arith, compare,
  sort,
}
use price_monitor.OwnCatalog.Sets.{Memᴰ-of_map}
use price_monitor.Comparison.Own.{rows_of}
use price_monitor.Report.{
  Position, PositionFact, SnapshotFact, SkuRow, ItemGroup, ShopGroup, ReportInput, Builtins,
}
use price_monitor.Report.Rows.{compare_row, compare_position, position_output, positions_by_item}
use price_monitor.Report.Projection.{project, projected_rows, row_of}
use price_monitor.Report.Board.{
  Shop, item_group, rows_from, compare_item, shop_group, compare_shop_group, group_at, price_board,
}
use price_monitor.Report.Aggregate.{is_ranked, ranked_rows, aggregate}
use price_monitor.Report.Grouping.{group_from, group_from-IsMap, positions_from-group}
use price_monitor.Report.Counting.{
  total, total-sort, total-map, length-sort, length-flat_map, weigh, count_keys-total, total-eq,
  total-length,
}
use price_monitor.Report.Shops.{
  NonEmpty, shops_from-weight, group_from-NonEmpty, group_from-weight, row_cost-count, total-weigh,
}

-- The order of a board's shops and the order of their items do not matter to a sum over them.
module _ (count : ShopGroup → ℕ) (f : ItemGroup → ℕ)
    (fits : (k : Text) (s : Shop) → count (group_at (shop_group (k, s))) ≡ total f s.items) where
  groups-weight :
      (shops : Dict Shop)
      → total (λ e. count (group_at (shop_group e))) shops
        ≡ weigh (λ (s : Shop). total f s.items) shops
  groups-weight [] = refl
  groups-weight ((k, s) ∷ m) = ap₂ ◌+◌ (fits k s) (groups-weight m)

  board-weight :
      (shops : Dict Shop)
      → total count (map group_at (sort compare_shop_group (map shop_group shops)))
        ≡ weigh (λ (s : Shop). total f s.items) shops
  board-weight shops =
      total-map count group_at _
      ∙ total-sort (λ e. count (group_at e)) compare_shop_group (map shop_group shops)
      ∙ total-map (λ e. count (group_at e)) shop_group shops
      ∙ groups-weight shops

-- What the shops of a board hold, weighed: a row with the item that it stands under, and a position.
abbrev pub held_rows : (Text → SkuRow → ℕ) → ShopGroup → ℕ
held_rows w g = total (λ (i : ItemGroup). total (w i.item_id) i.skus) g.items

abbrev pub held_positions : (Position → ℕ) → ShopGroup → ℕ
held_positions v g = total (λ (i : ItemGroup). total v i.positions) g.items

shop_group-held_rows :
    (w : Text → SkuRow → ℕ) (k : Text) (s : Shop)
    → held_rows w (group_at (shop_group (k, s)))
      ≡ total (λ (i : ItemGroup). total (w i.item_id) i.skus) s.items
unfolding shop_group
shop_group-held_rows w k s =
    total-sort (λ (i : ItemGroup). total (w i.item_id) i.skus) compare_item s.items

shop_group-held_positions :
    (v : Position → ℕ) (k : Text) (s : Shop)
    → held_positions v (group_at (shop_group (k, s)))
      ≡ total (λ (i : ItemGroup). total v i.positions) s.items
unfolding shop_group
shop_group-held_positions v k s =
    total-sort (λ (i : ItemGroup). total v i.positions) compare_item s.items

shop_group-sku_count :
    (k : Text) (s : Shop)
    → ShopGroup.sku_count (group_at (shop_group (k, s)))
      ≡ total (λ (g : ItemGroup). total (λ r. 1) g.skus) s.items
unfolding shop_group
shop_group-sku_count k s =
    length-flat_map ItemGroup.skus (sort compare_item s.items)
    ∙ total-sort (λ (g : ItemGroup). length g.skus) compare_item s.items
    ∙ total-eq (λ (g : ItemGroup). length g.skus) (λ (g : ItemGroup). total (λ r. 1) g.skus) s.items
        (λ (g : ItemGroup). sym (total-length g.skus))

shop_group-position_count :
    (k : Text) (s : Shop)
    → ShopGroup.position_count (group_at (shop_group (k, s)))
      ≡ total (λ (g : ItemGroup). total (λ r. 1) g.ranks) s.items
unfolding shop_group
shop_group-position_count k s =
    length-sort compare (flat_map ItemGroup.ranks (sort compare_item s.items))
    ∙ length-flat_map ItemGroup.ranks (sort compare_item s.items)
    ∙ total-sort (λ (g : ItemGroup). length g.ranks) compare_item s.items
    ∙ total-eq (λ (g : ItemGroup). length g.ranks) (λ (g : ItemGroup). total (λ r. 1) g.ranks)
        s.items (λ (g : ItemGroup). sym (total-length g.ranks))

positions_by_item-group :
    (builtins : Builtins) (ps : List PositionFact)
    → positions_by_item builtins ps
      ≡ group_from PositionFact.item_id (sort (compare_position builtins) ps) []
unfolding positions_by_item
positions_by_item-group builtins ps = positions_from-group (sort (compare_position builtins) ps) []

positions_by_item-NonEmpty :
    (builtins : Builtins) (ps : List PositionFact) → NonEmpty (positions_by_item builtins ps)
positions_by_item-NonEmpty builtins ps =
    rw (positions_by_item-group builtins ps)
      (group_from-NonEmpty PositionFact.item_id (sort (compare_position builtins) ps) [] tt)

positions_by_item-IsMap :
    (builtins : Builtins) (ps : List PositionFact) → IsMap (positions_by_item builtins ps)
positions_by_item-IsMap builtins ps =
    rw (positions_by_item-group builtins ps)
      (group_from-IsMap PositionFact.item_id (sort (compare_position builtins) ps) [] tt)

zero_plus : (n : ℕ) → 0 + n ≡ n
zero_plus n = omega arith

-- A sum over the positions of the shops of a board.
module _ (builtins : Builtins) (ps : List PositionFact) (rows : List SkuRow) where
  board-positions :
      (count : ShopGroup → ℕ) (f : ItemGroup → ℕ) (v : PositionFact → ℕ)
      → ((k : Text) (s : Shop) → count (group_at (shop_group (k, s))) ≡ total f s.items)
      → ((name item : Text) (first : PositionFact) (facts : List PositionFact)
          → f (
              item_group builtins name first
                (first ∷ facts)
                (sort compare_row (rows_of item (rows_from rows [])))
                item)
            ≡ total v (first ∷ facts))
      → total count (price_board builtins ps rows) ≡ total v ps
  unfolding price_board
  board-positions count f v fits costs =
      board-weight count f fits _
      ∙ shops_from-weight builtins (rows_from rows []) f (λ e. total v e.1) costs
          (positions_by_item builtins ps) [] (positions_by_item-NonEmpty builtins ps)
      ∙ zero_plus _
      ∙ total-weigh v (positions_by_item builtins ps)
      ∙ ap (weigh (λ (xs : List PositionFact). total v xs)) (positions_by_item-group builtins ps)
      ∙ group_from-weight v PositionFact.item_id (sort (compare_position builtins) ps) []
      ∙ zero_plus _
      ∙ total-sort v (compare_position builtins) ps

  board-rows :
      (count : ShopGroup → ℕ) (w : Text → SkuRow → ℕ)
      → ((k : Text) (s : Shop)
          → count (group_at (shop_group (k, s)))
            ≡ total (λ (i : ItemGroup). total (w i.item_id) i.skus) s.items)
      → All (λ (r : SkuRow). get r.item_id (positions_by_item builtins ps) ≢ none) rows
      → total count (price_board builtins ps rows) ≡ total (λ (r : SkuRow). w r.item_id r) rows
  unfolding price_board item_group
  board-rows count w fits h =
      board-weight count (λ (i : ItemGroup). total (w i.item_id) i.skus) fits _
      ∙ shops_from-weight builtins (rows_from rows [])
          (λ (i : ItemGroup). total (w i.item_id) i.skus)
          (λ e. total (w e.0) (rows_of e.0 (rows_from rows [])))
          (λ name item first facts.
            total-sort (w item) compare_row (rows_of item (rows_from rows [])))
          (positions_by_item builtins ps) [] (positions_by_item-NonEmpty builtins ps)
      ∙ zero_plus _
      ∙ row_cost-count w rows (positions_by_item builtins ps)
      ∙ count_keys-total SkuRow.item_id w rows (positions_by_item builtins ps)
          (positions_by_item-IsMap builtins ps) h

  price_board-positions :
      (v : Position → ℕ)
      → total (held_positions v) (price_board builtins ps rows)
        ≡ total (λ (p : PositionFact). v (position_output builtins p)) ps
  unfolding item_group
  price_board-positions v =
      board-positions (held_positions v) (λ (i : ItemGroup). total v i.positions)
        (λ (p : PositionFact). v (position_output builtins p)) (shop_group-held_positions v)
        (λ name item first facts. total-map v (position_output builtins) (first ∷ facts))

  price_board-position_count :
      total ShopGroup.position_count (price_board builtins ps rows) ≡ length ps
  unfolding item_group
  price_board-position_count =
      board-positions ShopGroup.position_count (λ (i : ItemGroup). total (λ r. 1) i.ranks) (λ p. 1)
        shop_group-position_count
        (λ name item first facts. total-map (λ r. 1) PositionFact.rank (first ∷ facts))
      ∙ total-length ps

project-is_ranked :
    (builtins : Builtins) (input : ReportInput) (s : SnapshotFact)
    → get s.item_id (positions_by_item builtins input.positions) ≡ none
    → is_ranked (project builtins input s) ≡ false
unfolding project row_of is_ranked rows_of
project-is_ranked builtins input s nothing = rw nothing

is_ranked-get :
    (builtins : Builtins) (input : ReportInput) (r : SkuRow)
    → Memᴰ r (projected_rows builtins input)
    → is_ranked r ≡ true
    → get r.item_id (positions_by_item builtins input.positions) ≢ none
unfolding projected_rows project row_of
is_ranked-get builtins input r m h nothing =
    let (s, n, e) =
      Memᴰ-of_map (project builtins input) input.snapshots (Memᴰ_of_sort compare_row _ m) in
    let absent : get s.item_id (positions_by_item builtins input.positions) ≡ none =
      ap (λ (x : SkuRow). get x.item_id (positions_by_item builtins input.positions)) e ∙ nothing in
    let no : is_ranked r ≡ false =
      ap is_ranked (sym e) ∙ project-is_ranked builtins input s absent in
    let clash : true ≡ false = sym h ∙ no in cc clash

-- The items of a report's board hold every position of the run exactly once, and every row exactly once
-- whose item has a position, under that item: whatever numbers are given to the positions, and to the
-- rows with the items that they stand under, their sum over the shops and items of the board is their
-- sum over the positions of the run and over the rows. The counts of the shops add up to the same.
pub aggregate-Accounts :
    (builtins : Builtins) (input : ReportInput) (v : Position → ℕ) (w : Text → SkuRow → ℕ)
    → (total (held_positions v) (aggregate builtins input).shops
        ≡ total (λ (p : PositionFact). v (position_output builtins p)) input.positions)
      × (total (held_rows w) (aggregate builtins input).shops
          ≡ total (λ (r : SkuRow). w r.item_id r) (ranked_rows builtins input))
      × (total ShopGroup.position_count (aggregate builtins input).shops ≡ length input.positions)
      × (total ShopGroup.sku_count (aggregate builtins input).shops
          ≡ length (ranked_rows builtins input))
unfolding aggregate ranked_rows
aggregate-Accounts builtins input v w =
    let rows = filter is_ranked (projected_rows builtins input) in
    let there =
      All-of_Memᴰ
        (λ (r : SkuRow). get r.item_id (positions_by_item builtins input.positions) ≢ none) rows
        (λ r m.
          let (of_rows, ranked) = Memᴰ-filter is_ranked _ m in
          is_ranked-get builtins input r of_rows ranked) in
    (
      price_board-positions builtins input.positions rows v,
      board-rows builtins input.positions rows (held_rows w) w (shop_group-held_rows w) there,
      price_board-position_count builtins input.positions rows,
      board-rows builtins input.positions rows ShopGroup.sku_count (λ k r. 1) shop_group-sku_count
            there
          ∙ total-length rows,
    )
