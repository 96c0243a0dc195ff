-- ===== src/Runs/Steps.antt =====
-- The transactions on the runs as steps of one state, and sequences of them.
use mathlib.Core.List.{Memᴰ}
use price_monitor.Prelude.{
  ℕ, ◌≡◌, ◌≢◌, sym, ap, subst, ◌∙◌, inl, inr, Bool, false, ◌&&◌, Option, none, some, List, [], ◌∷◌,
  arith, ◌==◌, Bool-cases, Text, text_eq, text_eq_iff, ok,
}
use price_monitor.Runs.{
  running, Run, Table, is_unfinished, is_running, is_queued, is_text, update_many, update_count,
}
use price_monitor.Runs.Queue.{
  Model, Request, Defaults, Created, create_or_coalesce, requeue_paused, is_requeueable,
}
use price_monitor.Runs.Agent.{
  Agent, ClaimInput, Job, JobRules, Store, Pause, Disposition, heartbeat, pause, release, claim,
  claim_row, update_held, is_held, is_stale_owned, is_claimable, claim_where, claim_queued,
  claim_stale, claim_run, claim_as, next_run, compatible_providers,
}
use price_monitor.Runs.Invariant.{count, has_id, IsValid}
use price_monitor.Runs.Frames.{
  requeue_paused-IsValid, heartbeat-IsValid, pause-IsValid, release-IsValid, claim-IsValid,
}
use price_monitor.Runs.Jobs.{claim-runs}
use price_monitor.Runs.Creation.{create_or_coalesce-IsValid, create_or_coalesce-Memᴰ}

-- What one agent does.
pub data Acts (listed : Text → Bool) (agent : Text) : Store → Store → Type 0 where
  beats :
      (now : ℕ) (id : Text) (discovered skus : ℕ) (s : Store)
      → Acts listed agent s (heartbeat now agent id discovered skus s).1
  pauses :
      (now : ℕ) (id : Text) (p : Pause) (s : Store) → Acts listed agent s (pause now agent id p s).1
  releases :
      (now : ℕ) (id : Text) (d : Disposition) (s : Store)
      → Acts listed agent s (release now agent id d s).1
  claims :
      (rules : JobRules) (now : ℕ) (input : ClaimInput) (s u : Store) (job : Option Job)
      → claim rules now listed input agent s ≡ ok (job, u)
      → Acts listed agent s u

-- What can happen to the runs.
pub data Step (models : List Model) (listed : Text → Bool) : Store → Store → Type 0 where
  creates :
      (request : Request) (defaults : Defaults) (s : Store) (c : Created)
      → create_or_coalesce models request defaults s.runs ≡ ok c
      → count (has_id defaults.id) s.runs ≡ 0
      → Step models listed s (record s { runs = c.table })
  requeues :
      (id : Text) (s : Store)
      → Step models listed s (record s { runs = (requeue_paused id s.runs).1 })
  acts : (agent : Text) (s u : Store) → Acts listed agent s u → Step models listed s u

pub data Reaches (models : List Model) (listed : Text → Bool) : Store → Store → Type 0 where
  stays : (s : Store) → Reaches models listed s s
  goes :
      (s u v : Store)
      → Step models listed s u
      → Reaches models listed u v
      → Reaches models listed s v

Acts-IsValid :
    (listed : Text → Bool) (agent : Text) {s u : Store}
    → Acts listed agent s u
    → IsValid s.runs
    → IsValid u.runs
Acts-IsValid listed agent (Acts.beats now id discovered skus s) v =
    heartbeat-IsValid now agent id discovered skus s v
Acts-IsValid listed agent (Acts.pauses now id p s) v = pause-IsValid now agent id p s v
Acts-IsValid listed agent (Acts.releases now id d s) v = release-IsValid now agent id d s v
Acts-IsValid listed agent (Acts.claims rules now input s u job e) v =
    claim-IsValid rules now listed input agent s e v

pub Step-IsValid :
    (models : List Model) (listed : Text → Bool) {s u : Store}
    → Step models listed s u
    → IsValid s.runs
    → IsValid u.runs
Step-IsValid models listed (Step.creates request defaults s c e fresh) v =
    create_or_coalesce-IsValid models request defaults s.runs e fresh v
Step-IsValid models listed (Step.requeues id s) v = requeue_paused-IsValid id s.runs v
Step-IsValid models listed (Step.acts agent s u a) v = Acts-IsValid listed agent a v

-- Whatever sequence of transactions is run, a valid table stays valid: ids and slots are unique, each
-- model has one unfinished run at most, each coalesced run points to a run of its model that is no
-- coalesced one, and each running run has an agent and a heartbeat.
pub Reaches-IsValid :
    (models : List Model) (listed : Text → Bool) {s u : Store}
    → Reaches models listed s u
    → IsValid s.runs
    → IsValid u.runs
Reaches-IsValid models listed (Reaches.stays s) v = v
Reaches-IsValid models listed (Reaches.goes s u w step rest) v =
    Reaches-IsValid models listed rest (Step-IsValid models listed step v)

-- A row that an update does not select stays as it is.
Memᴰ-update_many_miss :
    (test : Run → Bool) (change : Run → Run) {r : Run} {t : Table}
    → test r ≡ false
    → Memᴰ r t
    → Memᴰ r (update_many test change t)
unfolding update_many
Memᴰ-update_many_miss test change {r} miss (Memᴰ.head {x} {xs} e) =
    let skipped : test x ≡ false = ap test (sym e) ∙ miss in rw skipped (Memᴰ.head e)
Memᴰ-update_many_miss test change miss (Memᴰ.tail {x} {xs} m) =
    Memᴰ.tail (Memᴰ-update_many_miss test change miss m)

Memᴰ-update_held :
    (change : Run → Run) (now : ℕ) (agent id : Text) (s : Store) {r : Run}
    → is_held agent id r ≡ false
    → Memᴰ r s.runs
    → Memᴰ r (update_held change now agent id s).1.runs
unfolding update_held
Memᴰ-update_held change now agent id s miss m =
    elim (Bool-cases (update_count (is_held agent id) s.runs == 0)) [
      | inl missed ↦ rw missed m
      | inr hit ↦ rw hit (Memᴰ-update_many_miss (is_held agent id) change miss m)
    ]

Memᴰ-claim_where :
    (test : Run → Bool) (change : Run → Run) (id : Text) (t : Table) {r : Run}
    → test r ≡ false
    → Memᴰ r t
    → Memᴰ r (claim_where test change id t).1
unfolding claim_where
Memᴰ-claim_where test change id t {r} miss m =
    Memᴰ-update_many_miss (λ q. text_eq q.id id && test q) change (rw miss (ground arith)) m

-- The runs that no claim of the agent selects.
abbrev IsMissed : Text → Run → Type 0
IsMissed agent r =
    ((is_running r.status && is_text agent r.agent) ≡ false) × (is_queued r.status ≡ false)

is_held_missed : (agent id : Text) (r : Run) → IsMissed agent r → is_held agent id r ≡ false
unfolding is_held
is_held_missed agent id r (h, k) = ground arith

is_stale_owned_missed :
    (now : ℕ) (providers : List Text) (agent : Text) (r : Run)
    → IsMissed agent r
    → is_stale_owned now providers agent r ≡ false
unfolding is_stale_owned
is_stale_owned_missed now providers agent r (h, k) = ground arith

is_claimable_missed :
    (listed : Text → Bool) (providers : List Text) (agent : Text) (r : Run)
    → IsMissed agent r
    → is_claimable listed providers agent r ≡ false
unfolding is_claimable
is_claimable_missed listed providers agent r (h, k) = ground arith

Memᴰ-claim_queued :
    (now : ℕ) (listed : Text → Bool) (providers : List Text) (agent : Text) (t : Table)
    (o : Option Run) {r : Run}
    → IsMissed agent r
    → Memᴰ r t
    → Memᴰ r (claim_queued now listed providers agent t o).1
unfolding claim_queued
Memᴰ-claim_queued now listed providers agent t none miss m = m
Memᴰ-claim_queued now listed providers agent t (some q) {r} miss m =
    Memᴰ-claim_where _ _ q.id t (is_claimable_missed listed providers agent r miss) m

Memᴰ-claim_stale :
    (now : ℕ) (listed : Text → Bool) (providers : List Text) (agent : Text) (t : Table)
    (o : Option Run) {r : Run}
    → IsMissed agent r
    → Memᴰ r t
    → Memᴰ r (claim_stale now listed providers agent t o).1
unfolding claim_stale
Memᴰ-claim_stale now listed providers agent t (some q) {r} miss m =
    Memᴰ-claim_where _ _ q.id t (is_stale_owned_missed now providers agent r miss) m
Memᴰ-claim_stale now listed providers agent t none miss m =
    Memᴰ-claim_queued now listed providers agent t (next_run listed providers agent t) miss m

Memᴰ-claim_run :
    (now : ℕ) (listed : Text → Bool) (providers : List Text) (agent : Text) (t : Table) {r : Run}
    → IsMissed agent r
    → Memᴰ r t
    → Memᴰ r (claim_run now listed providers agent t).1
unfolding claim_run
Memᴰ-claim_run now listed [] agent t miss m = m
Memᴰ-claim_run now listed (p ∷ ps) agent t miss m =
    Memᴰ-claim_stale now listed (p ∷ ps) agent t _ miss m

Memᴰ-claim_as :
    (now : ℕ) (listed : Text → Bool) (input : ClaimInput) (id : Text) (s : Store) (o : Option Agent)
    {r : Run}
    → IsMissed id r
    → Memᴰ r s.runs
    → Memᴰ r (claim_as now listed input id s o).1.runs
unfolding claim_as
Memᴰ-claim_as now listed input id s none miss m = m
Memᴰ-claim_as now listed input id s (some a) miss m =
    Memᴰ-claim_run now listed (compatible_providers a.platform input.capabilities) id s.runs miss m

Acts-Memᴰ :
    (listed : Text → Bool) (agent : Text) {s u : Store} {r : Run}
    → Acts listed agent s u
    → IsMissed agent r
    → Memᴰ r s.runs
    → Memᴰ r u.runs
unfolding heartbeat pause release claim_row
Acts-Memᴰ listed agent {r} (Acts.beats now id discovered skus s) miss m =
    Memᴰ-update_held _ now agent id s (is_held_missed agent id r miss) m
Acts-Memᴰ listed agent {r} (Acts.pauses now id p s) miss m =
    Memᴰ-update_held _ now agent id s (is_held_missed agent id r miss) m
Acts-Memᴰ listed agent {r} (Acts.releases now id d s) miss m =
    Memᴰ-update_many_miss (is_held agent id) _ (is_held_missed agent id r miss) m
Acts-Memᴰ listed agent {r} (Acts.claims rules now input s u job e) miss m =
    subst (Memᴰ r) (sym (claim-runs rules now listed input agent s e))
      (Memᴰ-claim_as now listed input agent s _ miss m)

-- No agent touches a run that another agent is running: no heartbeat, pause or release of it, and no
-- claim, changes the row.
pub Acts-exclusive :
    (listed : Text → Bool) (agent holder : Text) {s u : Store} {r : Run}
    → Acts listed agent s u
    → Memᴰ r s.runs
    → r.status ≡ running
    → r.agent ≡ some holder
    → holder ≢ agent
    → Memᴰ r u.runs
Acts-exclusive listed agent holder {r} a m h k different =
    Acts-Memᴰ listed agent a (ground (arith, text_eq_iff holder agent), ground arith) m

-- A run that is finished or coalesced is left as it is by every transaction of the queue, a creation or a
-- requeue, and by everything an agent does, a claim, a heartbeat, a pause or a release. The other writers
-- of the table are no part of this: the ingestion of reports, `CollectionService`, which may start a
-- failed run again, and the repositories of the alerts, which write counts and evaluations.
pub Step-finished :
    (models : List Model) (listed : Text → Bool) {s u : Store} {r : Run}
    → Step models listed s u
    → Memᴰ r s.runs
    → is_unfinished r.status ≡ false
    → Memᴰ r u.runs
Step-finished models listed (Step.creates request defaults s c e fresh) m h =
    create_or_coalesce-Memᴰ models request defaults s.runs e m
Step-finished models listed {r} (Step.requeues id s) m h =
    unfold requeue_paused in
    Memᴰ-update_many_miss (is_requeueable id) _ (unfold is_requeueable in ground arith) m
Step-finished models listed {r} (Step.acts agent s u a) m h =
    Acts-Memᴰ listed agent a (ground arith, ground arith) m
