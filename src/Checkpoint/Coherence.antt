-- ===== src/Checkpoint/Coherence.antt =====
-- checkpoint-semantics.ts `assertCheckpointSemanticCoherence`: true where it returns, false where it
-- throws; the order of the tests does not matter, for all throw alike. A resolution of an identity that
-- does not end counts as one that is not the expected text.
use price_monitor.Prelude.{
  ℕ, Bool, true, false, not, ◌&&◌, ◌||◌, Option, none, some, List, [], ◌∷◌, ◌++◌, map, any, all,
  filter, find, is_empty, ltb, leb, ◌==◌, filter_map, flat_map, if◌then◌else◌, Text, codes, text_eq,
  Dict, get, decimal, is_digit,
}
use price_monitor.OwnCatalog.{has}
use price_monitor.Comparison.{is_some}
use price_monitor.Report.Rows.{after_prefix, is_digest}
use price_monitor.Checkpoint.{
  Phase, own_listings, search, items, complete, ReportStatus, succeeded, partial_failed,
  paused_login, paused_challenge, Sku, OwnItem, CompetitorItem, Item, SearchPosition, ReportIssue,
  CollectorReport, JobListing, Job, CheckpointState, Codec,
}
use price_monitor.Checkpoint.Aliases.{canonical_identity, keys_of}

abbrev pub terminal_sku_issues : List Text
terminal_sku_issues =
    codes "SKU_ENUMERATION_INCOMPLETE"
    ∷ codes "SKU_SELECTION_MISMATCH"
    ∷ codes "PRICE_UNSTABLE"
    ∷ []

abbrev pub partial_failure_issues : List Text
partial_failure_issues =
    codes "ITEM_UNAVAILABLE"
    ∷ codes "SKU_ENUMERATION_INCOMPLETE"
    ∷ codes "SKU_SELECTION_MISMATCH"
    ∷ codes "PRICE_UNSTABLE"
    ∷ codes "UI_CONTRACT_CHANGED"
    ∷ []

-- A nullable text that is equal to a text.
abbrev pub is_text : Text → Option Text → Bool
is_text t none = false
is_text t (some s) = text_eq s t

-- `unresolvedSearchIdentity`.
unfoldable pub unresolved_identity : Codec → ℕ → Text → Text
unresolved_identity codec rank url =
    codes "unresolved:"
    ++ (decimal rank ++ (codes ":sha256:" ++ codec.digest (codec.canonical_url url)))

-- The digits behind the first of `[1-9][0-9]*`, and the rest of the pattern.
abbrev ends_with_digest : Option Text → Bool
ends_with_digest none = false
ends_with_digest (some t) = is_digest t

abbrev after_digits : Text → Text
after_digits [] = []
after_digits (c ∷ t) = let rest = after_digits t in if is_digit c then rest else c ∷ t

abbrev matches_rank : Text → Bool
matches_rank [] = false
matches_rank (c ∷ t) =
    ltb 48 c && leb c 57 && ends_with_digest (after_prefix (codes ":sha256:") (after_digits t))

abbrev matches_rank_option : Option Text → Bool
matches_rank_option none = false
matches_rank_option (some t) = matches_rank t

-- `isUnresolvedSearchIdentity`.
unfoldable pub is_unresolved : Text → Bool
is_unresolved identity = matches_rank_option (after_prefix (codes "unresolved:") identity)

unfoldable pub resolves_to : Dict Text → Text → Text → Bool
resolves_to aliases identity resolved = is_text resolved (canonical_identity aliases identity)

-- `[...report.ownItems, ...report.competitorItems]`.
unfoldable pub all_items : CollectorReport → List Item
all_items r =
    map (λ (i : OwnItem). record { item_id = i.item_id; skus = i.skus }) r.own_items
    ++ map (λ (i : CompetitorItem). record { item_id = i.item_id; skus = i.skus })
        r.competitor_items

abbrev has_skus : Option Item → Bool
has_skus none = false
has_skus (some i) = not (is_empty i.skus)

-- `hasTerminalItemState`.
unfoldable pub has_terminal_state : CollectorReport → Text → Bool
has_terminal_state r identity =
    has_skus (find (λ (i : Item). text_eq i.item_id identity) (all_items r))
    || any
        (λ (e : ReportIssue).
          is_text identity e.item_id
          && (text_eq e.code (codes "ITEM_UNAVAILABLE")
              || text_eq e.code (codes "SKU_ENUMERATION_INCOMPLETE")))
        r.issues

unfoldable pub same_run : CheckpointState → Job → Bool
same_run c job =
    text_eq c.run_id job.run_id
    && text_eq c.report.run_id job.run_id
    && text_eq c.report.collector_id job.collector_id
    && (c.report.search_limit == job.search_limit)

unfoldable pub has_issue : Text → CollectorReport → Bool
has_issue code r = any (λ (e : ReportIssue). text_eq e.code code) r.issues

abbrev pause_fits : ReportStatus → Bool → Bool → Bool
pause_fits paused_login login challenge = login && not challenge
pause_fits paused_challenge login challenge = challenge && not login
pause_fits _ login challenge = not login && not challenge

unfoldable pub pause_coherent : CollectorReport → Bool
pause_coherent r =
    pause_fits r.status (has_issue (codes "LOGIN_REQUIRED") r)
      (has_issue (codes "PLATFORM_CHALLENGE") r)

-- The test of one own item against the job's listings.
unfoldable pub own_item_coherent : Codec → Job → OwnItem → Bool
own_item_coherent codec job i =
    text_eq i.shop_name job.own_shop_name
    && any
        (λ (l : JobListing).
          text_eq l.id i.listing_id
          && text_eq (codec.canonical_url l.url) (codec.canonical_url i.url))
        job.listings

abbrev pub position_ids : CollectorReport → List Text
position_ids r = map SearchPosition.item_id r.positions

abbrev pub item_ids : CollectorReport → List Text
item_ids r = map Item.item_id (all_items r)

unfoldable pub is_alias_position : Codec → Text → SearchPosition → Bool
is_alias_position codec alias p =
    if is_unresolved alias
    then text_eq (unresolved_identity codec p.rank p.url) alias
    else text_eq (codec.canonical_url p.url) alias

abbrev alias_fits : Codec → CollectorReport → Text → Option Text → Bool
alias_fits codec r alias none = false
alias_fits codec r alias (some resolved) =
    let matching = filter (is_alias_position codec alias) r.positions in
    not (is_empty matching)
    && all (λ (p : SearchPosition). text_eq p.item_id resolved) matching
    && has (position_ids r) resolved
    && not (has (position_ids r) alias)
    && not (has (item_ids r) alias)

-- The loops over the aliases and over the identities.
unfoldable pub aliases_coherent : Codec → CheckpointState → Bool
aliases_coherent codec c =
    all (λ alias. alias_fits codec c.report alias (canonical_identity c.aliases alias))
      (keys_of c.aliases)
    && all (λ identity. resolves_to c.aliases identity identity)
        (position_ids c.report ++ item_ids c.report)

unfoldable pub competitors_coherent : CollectorReport → Bool
competitors_coherent r =
    all (λ (i : CompetitorItem). has (position_ids r) i.item_id && not (is_empty i.search_ranks))
      r.competitor_items

abbrev listing_ids : Job → List Text
listing_ids job = map JobListing.id job.listings

abbrev pub listing_done : CheckpointState → Option OwnItem → Bool
listing_done c none = false
listing_done c (some i) = has c.completed_items i.item_id && has_terminal_state c.report i.item_id

unfoldable pub listings_coherent : CheckpointState → Job → Bool
listings_coherent c job =
    all
      (λ id.
        has (listing_ids job) id
        && listing_done c (find (λ (i : OwnItem). text_eq i.listing_id id) c.report.own_items))
      c.completed_listings

unfoldable pub completed_items_coherent : CheckpointState → Bool
completed_items_coherent c =
    all
      (λ identity. resolves_to c.aliases identity identity && has_terminal_state c.report identity)
      c.completed_items

abbrev is_observed : CollectorReport → Text → Text → Bool
is_observed r identity sku =
    any (λ (i : Item). text_eq i.item_id identity && any (λ (s : Sku). text_eq s.sku_id sku) i.skus)
      (all_items r)

abbrev has_terminal_issue : CollectorReport → Text → Text → Bool
has_terminal_issue r identity sku =
    any
      (λ (e : ReportIssue).
        is_text identity e.item_id && is_text sku e.sku_id && has terminal_sku_issues e.code)
      r.issues

abbrev key_fits : Codec → CheckpointState → Text → Text → Option Text → Bool
key_fits codec c key sku none = false
key_fits codec c key sku (some resolved) =
    text_eq key (codec.encode resolved sku)
    && (is_observed c.report resolved sku || has_terminal_issue c.report resolved sku)

abbrev decoded_fits : Codec → CheckpointState → Text → Option (Text × Text) → Bool
decoded_fits codec c key none = false
decoded_fits codec c key (some (identity, sku)) =
    key_fits codec c key sku (canonical_identity c.aliases identity)

-- The loop over the keys of completed SKUs.
unfoldable pub sku_keys_coherent : Codec → CheckpointState → List Text → List Text → Bool
sku_keys_coherent codec c seen [] = true
sku_keys_coherent codec c seen (key ∷ keys) =
    decoded_fits codec c key (codec.decode key)
    && not (has seen key)
    && sku_keys_coherent codec c (key ∷ seen) keys

abbrev key_done : Codec → CheckpointState → Text → Option Text → Bool
key_done codec c sku none = false
key_done codec c sku (some resolved) = has c.completed_skus (codec.encode resolved sku)

-- `completedSkuKeys.has(canonicalCheckpointSkuKey(checkpoint, identity, skuId))`.
unfoldable pub sku_done : Codec → CheckpointState → Text → Text → Bool
sku_done codec c identity sku = key_done codec c sku (canonical_identity c.aliases identity)

unfoldable pub observed_done : Codec → CheckpointState → Bool
observed_done codec c =
    all (λ (i : Item). all (λ (s : Sku). sku_done codec c i.item_id s.sku_id) i.skus)
      (all_items c.report)

-- `undefined`, null and the empty text are false.
abbrev truthy : Option Text → Option Text
truthy none = none
truthy (some []) = none
truthy (some (a ∷ t)) = some (a ∷ t)

abbrev issue_done : Codec → CheckpointState → ReportIssue → Option Text → Option Text → Bool
issue_done codec c e (some identity) (some sku) =
    not (has terminal_sku_issues e.code) || sku_done codec c identity sku
issue_done codec c e _ _ = true

unfoldable pub issues_done : Codec → CheckpointState → Bool
issues_done codec c =
    all (λ (e : ReportIssue). issue_done codec c e (truthy e.item_id) (truthy e.sku_id))
      c.report.issues

-- `usedEvidenceKeys`.
unfoldable pub used_evidence : CollectorReport → List Text
used_evidence r =
    flat_map (λ (i : Item). filter_map Sku.evidence_key i.skus) (all_items r)
    ++ filter_map (λ (e : ReportIssue). truthy e.evidence_key) r.issues

unfoldable pub evidence_coherent : CheckpointState → Bool
evidence_coherent c =
    all (λ key. is_some (get key c.manifest)) (used_evidence c.report)
    && all (has (used_evidence c.report)) (keys_of c.manifest)

abbrev own_item_ids : CollectorReport → List Text
own_item_ids r = map OwnItem.item_id r.own_items

abbrev is_own_key : CheckpointState → Option (Text × Text) → Bool
is_own_key c none = false
is_own_key c (some (identity, sku)) = has (own_item_ids c.report) identity

-- What is completed belongs to own items.
unfoldable pub only_own : Codec → CheckpointState → Bool
only_own codec c =
    all (has (own_item_ids c.report)) c.completed_items
    && all (λ key. is_own_key c (codec.decode key)) c.completed_skus

unfoldable pub all_listings_done : CheckpointState → Job → Bool
all_listings_done c job = all (has c.completed_listings) (listing_ids job)

unfoldable pub phase_fits : Codec → CheckpointState → Job → Phase → Bool
phase_fits codec c job own_listings =
    is_empty c.report.positions
    && is_empty c.report.competitor_items
    && is_empty c.aliases
    && only_own codec c
phase_fits codec c job search =
    all_listings_done c job && is_empty c.report.competitor_items && only_own codec c
phase_fits codec c job items = all_listings_done c job
phase_fits codec c job complete = all_listings_done c job

abbrev pub is_succeeded : ReportStatus → Bool
is_succeeded succeeded = true
is_succeeded _ = false

abbrev pub is_partial : ReportStatus → Bool
is_partial partial_failed = true
is_partial _ = false

unfoldable pub has_partial_failure : CollectorReport → Bool
has_partial_failure r = any (λ (e : ReportIssue). has partial_failure_issues e.code) r.issues

unfoldable pub complete_fits : CheckpointState → Bool
complete_fits c =
    (if has_partial_failure c.report
      then is_partial c.report.status
      else is_succeeded c.report.status)
    && all
        (λ (p : SearchPosition). not (is_unresolved p.item_id) && has c.completed_items p.item_id)
        c.report.positions
    && all (λ (i : CompetitorItem). has c.completed_items i.item_id) c.report.competitor_items

abbrev pub status_fits : CheckpointState → Phase → Bool
status_fits c complete = complete_fits c
status_fits c _ = not (is_succeeded c.report.status)

unfoldable pub is_coherent : Codec → CheckpointState → Job → Bool
is_coherent codec c job =
    same_run c job
    && pause_coherent c.report
    && all (own_item_coherent codec job) c.report.own_items
    && aliases_coherent codec c
    && competitors_coherent c.report
    && listings_coherent c job
    && completed_items_coherent c
    && sku_keys_coherent codec c [] c.completed_skus
    && observed_done codec c
    && issues_done codec c
    && evidence_coherent c
    && phase_fits codec c job c.phase
    && status_fits c c.phase
