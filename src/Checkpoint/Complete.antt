-- ===== src/Checkpoint/Complete.antt =====
-- A checkpoint that passes the tests, at the end of its run.
use mathlib.Core.List.{Memᴰ}
use price_monitor.Prelude.{
  Bool, true, false, not, ◌&&◌, Option, none, some, ◌≡◌, refl, ap, All, All-of_Memᴰ, find,
  find-eq-some, if◌then◌else◌, &&-left, &&-right, Text, text_eq, text_eq→eq, arith,
}
use price_monitor.OwnCatalog.{has}
use price_monitor.OwnCatalog.Sets.{all-Memᴰ, Memᴰ-of_has, Memᴰ-map}
use price_monitor.Checkpoint.{
  complete, ReportStatus, succeeded, partial_failed, OwnItem, CompetitorItem, SearchPosition,
  JobListing, Job, CheckpointState, Codec,
}
use price_monitor.Checkpoint.Aliases.{canonical_identity}
use price_monitor.Checkpoint.Coherence.{
  is_text, resolves_to, has_terminal_state, listing_done, listings_coherent,
  completed_items_coherent, all_listings_done, phase_fits, is_succeeded, is_partial,
  has_partial_failure, complete_fits, is_coherent, is_unresolved,
}

-- What a finished identity is: it resolves to itself, and the report has SKUs of it or says why not.
abbrev pub IsFinished : CheckpointState → Text → Type 0
IsFinished c id =
    (canonical_identity c.aliases id ≡ some id) × (has_terminal_state c.report id ≡ true)

is_text-eq : (t : Text) (o : Option Text) → is_text t o ≡ true → o ≡ some t
is_text-eq t none h = cc
is_text-eq t (some s) h = ap some (text_eq→eq s t h)

completed-IsFinished :
    (c : CheckpointState) (id : Text)
    → completed_items_coherent c ≡ true
    → has c.completed_items id ≡ true
    → IsFinished c id
unfolding completed_items_coherent resolves_to
completed-IsFinished c id h m =
    let both =
      all-Memᴰ (λ i. resolves_to c.aliases i i && has_terminal_state c.report i) h
        (Memᴰ-of_has id c.completed_items m) in
    (is_text-eq id _ (&&-left _ _ both), &&-right (resolves_to c.aliases id id) _ both)

-- The own item of a listing that is done.
pub record IsListed (c : CheckpointState) (id : Text) : Type 0 where
  pub item : OwnItem
  pub of_report : Memᴰ item c.report.own_items
  pub of_listing : item.listing_id ≡ id
  pub finished : IsFinished c item.item_id

listing_done-IsListed :
    (c : CheckpointState) (id : Text) (o : Option OwnItem)
    → completed_items_coherent c ≡ true
    → find (λ (i : OwnItem). text_eq i.listing_id id) c.report.own_items ≡ o
    → listing_done c o ≡ true
    → IsListed c id
listing_done-IsListed c id none h e d = cc
listing_done-IsListed c id (some i) h e d =
    let (m, same) = find-eq-some (λ (i : OwnItem). text_eq i.listing_id id) c.report.own_items e in
    record {
      item = i;
      of_report = m;
      of_listing = text_eq→eq i.listing_id id same;
      finished = completed-IsFinished c i.item_id h (&&-left _ _ d);
    }

listing-IsListed :
    (c : CheckpointState) (job : Job) (id : Text)
    → completed_items_coherent c ≡ true
    → listings_coherent c job ≡ true
    → has c.completed_listings id ≡ true
    → IsListed c id
unfolding listings_coherent
listing-IsListed c job id h l m =
    let both = all-Memᴰ _ l (Memᴰ-of_has id c.completed_listings m) in
    listing_done-IsListed c id _ h refl (&&-right _ _ both)

abbrev StatusFits : Bool → ReportStatus → Type 0
StatusFits true s = s ≡ partial_failed
StatusFits false s = s ≡ succeeded

status-StatusFits :
    (b : Bool) (s : ReportStatus)
    → (if b then is_partial s else is_succeeded s) ≡ true
    → StatusFits b s
status-StatusFits true s h = ground arith
status-StatusFits false s h = ground arith

-- The tests that a complete checkpoint passes.
record Passes (c : CheckpointState) (job : Job) : Type 0 where
  listings : listings_coherent c job ≡ true
  completed : completed_items_coherent c ≡ true
  all_done : all_listings_done c job ≡ true
  fits : complete_fits c ≡ true

is_coherent-Passes :
    (codec : Codec) (c : CheckpointState) (job : Job)
    → is_coherent codec c job ≡ true
    → c.phase ≡ complete
    → Passes c job
unfolding is_coherent phase_fits
is_coherent-Passes codec c job h e =
    let h' = rw e at h in
    record {
      listings = ground arith;
      completed = ground arith;
      all_done = ground arith;
      fits = ground arith;
    }

-- The end of a run, as its checkpoint tells it.
pub record IsFinishedRun (c : CheckpointState) (job : Job) : Type 0 where
  pub positions :
      All
        (λ (p : SearchPosition). (is_unresolved p.item_id ≡ false) × IsFinished c p.item_id)
        c.report.positions
  pub competitors : All (λ (i : CompetitorItem). IsFinished c i.item_id) c.report.competitor_items
  pub listings : All (λ (l : JobListing). IsListed c l.id) job.listings
  pub status : StatusFits (has_partial_failure c.report) c.report.status

and₃ : (a b d : Bool) → (a && b && d) ≡ true → (a ≡ true) × (b ≡ true) × (d ≡ true)
and₃ a b d h = ground arith

not-true : (b : Bool) → not b ≡ true → b ≡ false
not-true b h = ground arith

Passes-IsFinishedRun : (c : CheckpointState) (job : Job) → Passes c job → IsFinishedRun c job
unfolding complete_fits all_listings_done
Passes-IsFinishedRun c job p =
    let (status, positions, competitors) = and₃ _ _ _ p.fits in
    record {
      positions = All-of_Memᴰ _ c.report.positions λ x m.
          let both = all-Memᴰ _ positions m in
          (
            not-true (is_unresolved x.item_id) (&&-left _ _ both),
            completed-IsFinished c x.item_id p.completed (&&-right _ _ both),
          );
      competitors =
          All-of_Memᴰ _ c.report.competitor_items
            λ i m. completed-IsFinished c i.item_id p.completed (all-Memᴰ _ competitors m);
      listings = All-of_Memᴰ _ job.listings λ l m.
          listing-IsListed c job l.id p.completed p.listings
            (all-Memᴰ (has c.completed_listings) p.all_done (Memᴰ-map JobListing.id m));
      status = status-StatusFits (has_partial_failure c.report) c.report.status status;
    }

-- A checkpoint in the phase COMPLETE that passes the semantic tests ends its run. Every position of the
-- search has a resolved identity, and it, every competitor's item and the own item of every listing of
-- the job are finished: they resolve to themselves, and the report has SKUs of them or an issue that says
-- why not. The report's status is PARTIAL_FAILED if it has an issue of a partial failure, and SUCCEEDED
-- otherwise.
pub is_coherent-IsFinishedRun :
    (codec : Codec) (c : CheckpointState) (job : Job)
    → is_coherent codec c job ≡ true
    → c.phase ≡ complete
    → IsFinishedRun c job
is_coherent-IsFinishedRun codec c job h e =
    Passes-IsFinishedRun c job (is_coherent-Passes codec c job h e)
