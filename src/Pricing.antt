-- ===== src/Pricing.antt =====
-- Prices: the deduction of promotions, the public price of a SKU, and the price engine.
pub mod Discounts
pub mod PublicPrice
pub mod Engine
pub mod Tests
