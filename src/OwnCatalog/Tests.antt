-- ===== src/OwnCatalog/Tests.antt =====
-- A run with one own listing.
use price_monitor.Prelude.{◌≡◌, refl, ◌↔◌, true, none, some, [], ◌∷◌, codes, text_eq}
use price_monitor.Comparison.{unique, unique_from}
use price_monitor.OwnCatalog.{
  CatalogInput, has, claimed_ids, listing_of, collected_ids, own_item_ids, own_sku_ids, is_blocking,
  derive_completeness,
}
use price_monitor.OwnCatalog.Laws.{IsComplete, derive_completeness_iff}

abbrev catalog : CatalogInput
catalog = record {
  listings = record { id = codes "l"; platform_item_id = some (codes "i") } ∷ [];
  snapshots =
      record { own_listing_id = some (codes "l"); platform_item_id = codes "i"; sku_id = none }
      ∷ [];
  issues =
      record { code = codes "PRICE_UNSTABLE"; platform_item_id = some (codes "j"); sku_id = none }
      ∷ [];
}

catalog-complete : (derive_completeness catalog).complete ≡ true
unfolding derive_completeness has claimed_ids listing_of collected_ids own_item_ids own_sku_ids
    is_blocking unique unique_from text_eq
catalog-complete = refl

derive_completeness_example : ((derive_completeness catalog).complete ≡ true) ↔ IsComplete catalog
derive_completeness_example = derive_completeness_iff catalog
