-- ===== src/Lib.antt =====
-- price-monitor: a service that compares the prices of an operator's own SKUs with those of
-- competitors on a shopping platform. A desktop collector reads search results and item pages and
-- uploads a report of a run; the API derives from each SKU's evidence a public payable price,
-- compares the SKUs of the run by the signature of their combination, and raises alerts.
--
-- The parts and the files that model them (paths from the repository's root):
--   Money: packages/config/src/public-price.ts `assertFen`. A JavaScript number is a natural number
--     or one of the others, since every check refuses the others alike. Money.Yuan is
--     packages/config/src/money.ts, and `formatFen` of apps/api/src/alerts/wecom/wecom.message.ts.
--   Pricing.Discounts: packages/contracts/src/promotion-discount-components.ts, the deduction of
--     promotions. `select` is the first loop, `finish` the second and the result.
--   Pricing.PublicPrice: packages/config/src/public-price.ts, `calculatePublicPrice`.
--   Pricing.Engine: apps/api/src/pricing/price-engine.service.ts, `PriceEngineService`.
--   Comparison: apps/api/src/collection/run-sku-comparison.ts, `evaluateRunSkuCombinations`. Own has
--     the own SKUs and the baselines, Classify the decision on one candidate, Missing the groups
--     without an own counterpart, and Evaluate the whole.
--   Runs: the table of collection runs. Queue is
--     apps/api/src/collection/collection-run-queue.service.ts, Agent is
--     apps/api/src/collector-agent/prisma-collector-agent.repository.ts, and Phases the life of one
--     run apart from the table; a transaction is one step of the state, and Steps has every sequence
--     of the queue's and the agents' transactions; the ingestion of reports, CollectionService and
--     the alerts' repositories, which write the table too, are no part of it. A claim ends with its
--     job (Jobs), whose schema is a parameter, and is retried (ClaimNext, Progress); the column of
--     the stored jobs is a map. Retries has the five attempts of a creation and what stands on them,
--     and Enqueue its answers. A query is the test, the order and the update that the source writes
--     out; the database gives a new row an id that no row has.
--   Notification: the batch of alerts that one run sends,
--     apps/api/src/alerts/run-alert-notifier.ts over
--     apps/api/src/alerts/prisma-run-alert-notification.repository.ts and the rows of
--     apps/api/src/alerts/prisma-alert.repository.ts. Times are milliseconds; the sender's outcome,
--     the token and what others do to the batch while the message is out are arguments. The stored
--     summary is what apps/api/src/alerts/run-alert-summary.persistence.ts asks of it.
--   OwnCatalog: apps/api/src/collection/own-catalog-completeness.ts, which gives the comparison its
--     `ownCatalogComplete`.
--   PriceAlerts: apps/api/src/alerts/alert.service.ts, apps/api/src/alerts/alert-dedup.ts and
--     `createIfAbsent` of apps/api/src/alerts/prisma-alert.repository.ts. The digest of a key is a
--     parameter, and no theorem asks anything of it.
--   AlertActions: apps/api/src/alerts/alert-action.service.ts with its input
--     (apps/api/src/alerts/alert-action.dto.ts) and its transaction
--     (apps/api/src/alerts/prisma-alert-action.repository.ts).
--   Report: apps/api/src/operations/collection-report-aggregation.ts, `aggregateCollectionRunReport`.
--     Projection is `projectedRows`, Lows, Missing and Board are the three sections, Aggregate the
--     whole. The ISO string of a date, the display form of a shop's name and its case folding are
--     parameters; the database's numbers are integers.
--   Evaluations: apps/api/src/alerts/prisma-run-alert-evaluation.repository.ts, each transaction one
--     step, and the loop of apps/api/src/alerts/run-alert-reconciler.ts (Reconcile), whose rounds are
--     the source's own limit.
--   Checkpoint: a collector's checkpoint. Aliases has the two loops over identity aliases, of
--     apps/collector/src/core/checkpoint-store.ts and apps/collector/src/core/checkpoint-semantics.ts,
--     Coherence the tests of the latter. The digest, the canonical form of a URL and the JSON of a
--     pair are parameters. A loop has one round more than there are aliases.
--   SkuCombination: apps/api/src/pricing/sku-combination.ts, whose signatures Comparison compares. Build
--     is `buildSkuCombination`; an early return with a review is an error of the steps before. The
--     normal forms of text and the digest of the canonical form are parameters.
--   Prelude: lists, maps in insertion order, texts as lists of UTF-16 code units, orders and sorting,
--     results with errors.
--
-- Bounds and fuel: amounts are natural numbers up to 2 ^ 53 - 1, and every sum is tested as in the
-- source. Fuel: the decimal print of a number, which the number bounds; the loops over aliases, which
-- have one round more than there are aliases; the reconciler's rounds and the five attempts of a
-- creation and of a claim are the source's own limits.
--
-- Not modelled: the user interface, the HTTP layer, the collector's drivers, the database client and
-- the schemas; the texts of thrown errors.
pub mod Prelude
pub mod Money
pub mod Pricing
pub mod Comparison
pub mod Runs
pub mod Notification
pub mod OwnCatalog
pub mod PriceAlerts
pub mod AlertActions
pub mod Report
pub mod Evaluations
pub mod Checkpoint
pub mod SkuCombination
