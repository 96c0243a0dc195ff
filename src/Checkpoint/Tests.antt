-- ===== src/Checkpoint/Tests.antt =====
-- A finished run: one own listing and one item of the search, under an alias.
use price_monitor.Prelude.{
  false, Option, none, some, [], ◌∷◌, ◌++◌, ◌≡◌, refl, Text, codes, text_eq, get, decimal,
}
use price_monitor.OwnCatalog.{has}
use price_monitor.Checkpoint.{
  complete, succeeded, Sku, CollectorReport, Job, CheckpointState, Codec,
}
use price_monitor.Checkpoint.Aliases
use price_monitor.Checkpoint.Aliases.{is_valid_aliases, canonical_identity}
use price_monitor.Checkpoint.Resolution.{canonical_identity-total}
use price_monitor.Checkpoint.Coherence
use price_monitor.Checkpoint.Coherence.{is_coherent}
use price_monitor.Checkpoint.Complete.{IsFinishedRun, is_coherent-IsFinishedRun}

abbrev pair_of : Text → Option (Text × Text)
pair_of [] = none
pair_of (a ∷ []) = none
pair_of (a ∷ b ∷ t) = some (a ∷ [], b ∷ t)

abbrev codec : Codec
codec = record { canonical_url = λ t. t; digest = λ t. t; encode = λ i s. i ++ s; decode = pair_of }

abbrev sku : Sku
sku = record { sku_id = codes "s"; evidence_key = some (codes "e") }

abbrev report : CollectorReport
report = record {
  run_id = codes "r";
  collector_id = codes "c";
  search_limit = 5;
  status = succeeded;
  positions = record { rank = 1; item_id = codes "i"; url = codes "u" } ∷ [];
  own_items =
      record {
        listing_id = codes "l";
        item_id = codes "o";
        shop_name = codes "shop";
        url = codes "v";
        skus = sku ∷ [];
      }
      ∷ [];
  competitor_items = record { item_id = codes "i"; search_ranks = 1 ∷ []; skus = sku ∷ [] } ∷ [];
  issues = [];
}

abbrev job : Job
job = record {
  run_id = codes "r";
  collector_id = codes "c";
  search_limit = 5;
  own_shop_name = codes "shop";
  listings = record { id = codes "l"; url = codes "v" } ∷ [];
}

abbrev finished : CheckpointState
finished = record {
  run_id = codes "r";
  phase = complete;
  completed_listings = codes "l" ∷ [];
  completed_items = codes "o" ∷ codes "i" ∷ [];
  completed_skus = codes "os" ∷ codes "is" ∷ [];
  report = report;
  manifest = (codes "e", codes "path") ∷ [];
  aliases = (codes "u", codes "i") ∷ [];
}

unfoldable tests : Unit {0}
unfolding is_valid_aliases canonical_identity Aliases.ends Aliases.all_end Aliases.canonical_from
    is_coherent Coherence.unresolved_identity Coherence.is_unresolved Coherence.resolves_to
    Coherence.all_items Coherence.has_terminal_state Coherence.same_run Coherence.has_issue
    Coherence.pause_coherent Coherence.own_item_coherent Coherence.is_alias_position
    Coherence.aliases_coherent Coherence.competitors_coherent Coherence.listings_coherent
    Coherence.completed_items_coherent Coherence.sku_keys_coherent Coherence.sku_done
    Coherence.observed_done Coherence.issues_done Coherence.used_evidence
    Coherence.evidence_coherent Coherence.only_own Coherence.all_listings_done Coherence.phase_fits
    Coherence.has_partial_failure Coherence.complete_fits has text_eq get decimal
tests = tt

circle_refused :
    is_valid_aliases ((codes "a", codes "b") ∷ (codes "b", codes "a") ∷ []) ≡ some false
unfolding tests
circle_refused = refl

canonical_identity-total_example :
    (r : Text) × (canonical_identity finished.aliases (codes "u") ≡ some r)
    × (get r finished.aliases ≡ none)
unfolding tests
canonical_identity-total_example = canonical_identity-total finished.aliases (codes "u") refl

is_coherent-IsFinishedRun_example : IsFinishedRun finished job
unfolding tests
is_coherent-IsFinishedRun_example = is_coherent-IsFinishedRun codec finished job refl refl
