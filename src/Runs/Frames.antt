-- ===== src/Runs/Frames.antt =====
-- The rows that the updates of the two repositories change, and the invariant of the table.
use price_monitor.Prelude.{
  ℕ, ◌≡◌, refl, sym, subst, ok, inl, inr, Bool, true, ◌&&◌, Option, none, some, List, [], ◌∷◌,
  arith, ◌==◌, Bool-cases, Text, text_eq, &&-left, &&-right, find,
}
use price_monitor.Runs.{running, Run, Table, is_queued, update_count}
use price_monitor.Runs.Queue.{is_requeueable, requeued, requeue_paused}
use price_monitor.Runs.Agent.{
  Agent, ClaimInput, Store, Pause, Disposition, is_held, beaten, paused, released, resumed, claimed,
  update_held, heartbeat, pause, release, is_claimable, claim_where, claim_queued, claim_stale,
  claim_run, claim_as, claim_row, claim, Job, JobRules, next_run, compatible_providers,
  is_active_agent,
}
use price_monitor.Runs.Jobs.{claim-runs}
use price_monitor.Runs.Invariant.{Keeps, IsValid, update_many-IsValid}

requeued-Keeps : (id : Text) (r : Run) → is_requeueable id r ≡ true → Keeps r (requeued r)
unfolding is_requeueable requeued
requeued-Keeps id r h = record {
  id = refl;
  model = refl;
  provider = refl;
  scheduled_for = refl;
  coalesced_into = refl;
  coalesced = ground arith;
  unfinished = ground arith;
  leased = λ k. refl;
}

is_held→running : (agent id : Text) (r : Run) → is_held agent id r ≡ true → r.status ≡ running
unfolding is_held
is_held→running agent id r h = ground arith

beaten-Keeps : (now discovered skus : ℕ) (r : Run) → Keeps r (beaten now discovered skus r)
unfolding beaten
beaten-Keeps now discovered skus r = record {
  id = refl;
  model = refl;
  provider = refl;
  scheduled_for = refl;
  coalesced_into = refl;
  coalesced = refl;
  unfinished = omega arith;
  leased = λ k. ground arith;
}

paused-Keeps : (now : ℕ) (p : Pause) (r : Run) → r.status ≡ running → Keeps r (paused now p r)
unfolding paused
paused-Keeps now p r h = record {
  id = refl;
  model = refl;
  provider = refl;
  scheduled_for = refl;
  coalesced_into = refl;
  coalesced = ground arith;
  unfinished = ground arith;
  leased = λ k. ground arith;
}

released-Keeps :
    (now : ℕ) (d : Disposition) (r : Run) → r.status ≡ running → Keeps r (released now d r)
unfolding released
released-Keeps now d r h = record {
  id = ground arith;
  model = ground arith;
  provider = ground arith;
  scheduled_for = ground arith;
  coalesced_into = ground arith;
  coalesced = ground arith;
  unfinished = ground arith;
  leased = λ k. ground arith;
}

resumed-Keeps : (now : ℕ) (r : Run) → Keeps r (resumed now r)
unfolding resumed
resumed-Keeps now r = record {
  id = refl;
  model = refl;
  provider = refl;
  scheduled_for = refl;
  coalesced_into = refl;
  coalesced = refl;
  unfinished = omega arith;
  leased = λ k. ground arith;
}

claimed-Keeps :
    (now : ℕ) (agent : Text) (r : Run) → is_queued r.status ≡ true → Keeps r (claimed now agent r)
unfolding claimed
claimed-Keeps now agent r h = record {
  id = refl;
  model = refl;
  provider = refl;
  scheduled_for = refl;
  coalesced_into = refl;
  coalesced = ground arith;
  unfinished = ground arith;
  leased = λ k. ground arith;
}

pub requeue_paused-IsValid : (id : Text) (t : Table) → IsValid t → IsValid (requeue_paused id t).1
unfolding requeue_paused
requeue_paused-IsValid id t v =
    update_many-IsValid (is_requeueable id) requeued t (requeued-Keeps id) v

update_held-IsValid :
    (change : Run → Run) (now : ℕ) (agent id : Text) (s : Store)
    → ((r : Run) → r.status ≡ running → Keeps r (change r))
    → IsValid s.runs
    → IsValid (update_held change now agent id s).1.runs
unfolding update_held
update_held-IsValid change now agent id s h v =
    elim (Bool-cases (update_count (is_held agent id) s.runs == 0)) [
      | inl missed ↦ rw missed v
      | inr hit ↦ rw hit (
          update_many-IsValid (is_held agent id) change s.runs
            (λ r k. h r (is_held→running agent id r k)) v)
    ]

pub heartbeat-IsValid :
    (now : ℕ) (agent id : Text) (discovered skus : ℕ) (s : Store)
    → IsValid s.runs
    → IsValid (heartbeat now agent id discovered skus s).1.runs
unfolding heartbeat
heartbeat-IsValid now agent id discovered skus s v =
    update_held-IsValid _ now agent id s (λ r k. beaten-Keeps now discovered skus r) v

pub pause-IsValid :
    (now : ℕ) (agent id : Text) (p : Pause) (s : Store)
    → IsValid s.runs
    → IsValid (pause now agent id p s).1.runs
unfolding pause
pause-IsValid now agent id p s v = update_held-IsValid _ now agent id s (paused-Keeps now p) v

pub release-IsValid :
    (now : ℕ) (agent id : Text) (d : Disposition) (s : Store)
    → IsValid s.runs
    → IsValid (release now agent id d s).1.runs
unfolding release
release-IsValid now agent id d s v =
    update_many-IsValid (is_held agent id) (released now d) s.runs
      (λ r k. released-Keeps now d r (is_held→running agent id r k)) v

is_claimable→queued :
    (listed : Text → Bool) (providers : List Text) (agent : Text) (r : Run)
    → is_claimable listed providers agent r ≡ true
    → is_queued r.status ≡ true
unfolding is_claimable
is_claimable→queued listed providers agent r h = &&-left _ _ (&&-right _ _ h)

claim_where-IsValid :
    (test : Run → Bool) (change : Run → Run) (id : Text) (t : Table)
    → ((r : Run) → test r ≡ true → Keeps r (change r))
    → IsValid t
    → IsValid (claim_where test change id t).1
unfolding claim_where
claim_where-IsValid test change id t h v =
    update_many-IsValid (λ q. text_eq q.id id && test q) change t
      (λ r k. h r (&&-right (text_eq r.id id) (test r) k)) v

claim_queued-IsValid :
    (now : ℕ) (listed : Text → Bool) (providers : List Text) (agent : Text) (t : Table)
    (o : Option Run)
    → IsValid t
    → IsValid (claim_queued now listed providers agent t o).1
unfolding claim_queued
claim_queued-IsValid now listed providers agent t none v = v
claim_queued-IsValid now listed providers agent t (some r) v =
    claim_where-IsValid _ _ r.id t
      (λ q k. claimed-Keeps now agent q (is_claimable→queued listed providers agent q k)) v

claim_stale-IsValid :
    (now : ℕ) (listed : Text → Bool) (providers : List Text) (agent : Text) (t : Table)
    (o : Option Run)
    → IsValid t
    → IsValid (claim_stale now listed providers agent t o).1
unfolding claim_stale
claim_stale-IsValid now listed providers agent t (some r) v =
    claim_where-IsValid _ _ r.id t (λ q k. resumed-Keeps now q) v
claim_stale-IsValid now listed providers agent t none v =
    claim_queued-IsValid now listed providers agent t (next_run listed providers agent t) v

claim_run-IsValid :
    (now : ℕ) (listed : Text → Bool) (providers : List Text) (agent : Text) (t : Table)
    → IsValid t
    → IsValid (claim_run now listed providers agent t).1
unfolding claim_run
claim_run-IsValid now listed [] agent t v = v
claim_run-IsValid now listed (p ∷ ps) agent t v =
    claim_stale-IsValid now listed (p ∷ ps) agent t _ v

claim_as-IsValid :
    (now : ℕ) (listed : Text → Bool) (input : ClaimInput) (id : Text) (s : Store) (o : Option Agent)
    → IsValid s.runs
    → IsValid (claim_as now listed input id s o).1.runs
unfolding claim_as
claim_as-IsValid now listed input id s none v = v
claim_as-IsValid now listed input id s (some a) v =
    claim_run-IsValid now listed (compatible_providers a.platform input.capabilities) id s.runs v

claim_row-IsValid :
    (now : ℕ) (listed : Text → Bool) (input : ClaimInput) (id : Text) (s : Store)
    → IsValid s.runs
    → IsValid (claim_row now listed input id s).1.runs
unfolding claim_row
claim_row-IsValid now listed input id s v =
    claim_as-IsValid now listed input id s (find (is_active_agent id) s.agents) v

pub claim-IsValid :
    (rules : JobRules) (now : ℕ) (listed : Text → Bool) (input : ClaimInput) (id : Text) (s : Store)
    {j : Option Job} {u : Store}
    → claim rules now listed input id s ≡ ok (j, u)
    → IsValid s.runs
    → IsValid u.runs
claim-IsValid rules now listed input id s h v =
    subst IsValid (sym (claim-runs rules now listed input id s h))
      (claim_row-IsValid now listed input id s v)
