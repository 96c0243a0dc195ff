-- ===== src/Runs/Claims.antt =====
-- What a claim gives its agent.
use mathlib.Core.List.{Memᴰ}
use price_monitor.Prelude.{
  ℕ, ◌≡◌, refl, sym, ap, subst, ok, ◌∙◌, inl, inr, Bool, true, false, ◌&&◌, Option, none, some,
  List, [], ◌∷◌, arith, ◌==◌, Bool-cases, Text, text_eq, text_eq→eq, find, filter, length,
  none-ne-some, Memᴰ-filter, Memᴰ-filter_of, &&-left, &&-right,
}
use price_monitor.Runs.{running, Run, Table, is_text, update_many, update_count}
use price_monitor.Runs.Agent.{
  Agent, ClaimInput, Job, JobRules, Store, claim, claim_row, is_stale_owned, resumed, claimed,
  claim_where, claim_queued, claim_stale, claim_run, claim_as, next_run, stale_run,
  compatible_providers, is_active_agent,
}
use price_monitor.Runs.Jobs.{claim-runs, claim-job}

pub length-ne-zero :
    (test : Run → Bool) (t : Table) {r : Run}
    → Memᴰ r t
    → test r ≡ true
    → (update_count test t == 0) ≡ false
unfolding update_count
length-ne-zero test t m h = nonempty (Memᴰ-filter_of test m h)
  where
    nonempty : {r : Run} {xs : Table} → Memᴰ r xs → (length xs == 0) ≡ false
    nonempty (Memᴰ.head {x} {xs} e) = ground arith
    nonempty (Memᴰ.tail {x} {xs} m) = ground arith

update_count-hit :
    (test : Run → Bool) (t : Table)
    → (update_count test t == 0) ≡ false
    → (r : Run) × Memᴰ r t × (test r ≡ true)
unfolding update_count
update_count-hit test t h = from (filter test t) h (λ r m. Memᴰ-filter test t m)
  where
    from :
        (xs : Table)
        → (length xs == 0) ≡ false
        → ((r : Run) → Memᴰ r xs → Memᴰ r t × (test r ≡ true))
        → (r : Run) × Memᴰ r t × (test r ≡ true)
    from [] e f = cc
    from (x ∷ xs) e f = let (m, k) = f x (Memᴰ.head refl) in (x, m, k)

Memᴰ-update_many_hit :
    (test : Run → Bool) (change : Run → Run) {r : Run} {t : Table}
    → test r ≡ true
    → Memᴰ r t
    → Memᴰ (change r) (update_many test change t)
unfolding update_many
Memᴰ-update_many_hit test change {r} hit (Memᴰ.head {x} {xs} e) =
    let chosen : test x ≡ true = ap test (sym e) ∙ hit in rw chosen (Memᴰ.head (ap change e))
Memᴰ-update_many_hit test change hit (Memᴰ.tail {x} {xs} m) =
    Memᴰ.tail (Memᴰ-update_many_hit test change hit m)

-- The run of this id is running, held by the agent, and was heard of now.
pub record IsHeldNow (now : ℕ) (agent id : Text) (t : Table) : Type 0 where
  pub run : Run
  pub member : Memᴰ run t
  pub named : run.id ≡ id
  pub is_run : run.status ≡ running
  pub held : run.agent ≡ some agent
  pub heartbeat : run.heartbeat_at ≡ some now

claim_where-eq-some :
    (test : Run → Bool) (change : Run → Run) (id : Text) (t : Table) {k : Text}
    → (claim_where test change id t).0 ≡ some k
    → (r : Run) × (r.id ≡ k) × (test r ≡ true) × Memᴰ (change r) (claim_where test change id t).1
unfolding claim_where
claim_where-eq-some test change id t {k} h =
    let chosen = λ (q : Run). text_eq q.id id && test q in
    elim (Bool-cases (update_count chosen t == 0)) [
      | inl missed ↦ absurd (none-ne-some (rw missed at h))
      | inr hit ↦
          (let (r, m, e) = update_count-hit chosen t hit in
            let same : id ≡ k = let h' = rw hit at h in cc h' in
            (
              r,
              text_eq→eq r.id id (&&-left _ _ e) ∙ same,
              &&-right (text_eq r.id id) _ e,
              Memᴰ-update_many_hit chosen change e m,
            ))
    ]

is_text→some : (t : Text) (o : Option Text) → is_text t o ≡ true → o ≡ some t
is_text→some t none h = cc
is_text→some t (some s) h = ap some (text_eq→eq s t h)

IsHeldNow-resumed :
    (now : ℕ) (agent id : Text) (providers : List Text) (r : Run) (t : Table)
    → r.id ≡ id
    → is_stale_owned now providers agent r ≡ true
    → Memᴰ (resumed now r) t
    → IsHeldNow now agent id t
unfolding is_stale_owned resumed
IsHeldNow-resumed now agent id providers r t e h m = record {
  run = resumed now r;
  member = m;
  named = e;
  is_run = ground arith;
  held = is_text→some agent r.agent (ground arith);
  heartbeat = refl;
}

IsHeldNow-claimed :
    (now : ℕ) (agent id : Text) (r : Run) (t : Table)
    → r.id ≡ id
    → Memᴰ (claimed now agent r) t
    → IsHeldNow now agent id t
unfolding claimed
IsHeldNow-claimed now agent id r t e m = record {
  run = claimed now agent r;
  member = m;
  named = e;
  is_run = refl;
  held = refl;
  heartbeat = refl;
}

claim_queued-IsHeldNow :
    (now : ℕ) (listed : Text → Bool) (providers : List Text) (agent : Text) (t : Table)
    (o : Option Run) {k : Text}
    → (claim_queued now listed providers agent t o).0 ≡ some k
    → IsHeldNow now agent k (claim_queued now listed providers agent t o).1
unfolding claim_queued
claim_queued-IsHeldNow now listed providers agent t none h = absurd (none-ne-some h)
claim_queued-IsHeldNow now listed providers agent t (some q) {k} h =
    let (r, e, test, m) = claim_where-eq-some _ _ q.id t h in IsHeldNow-claimed now agent k r _ e m

claim_stale-IsHeldNow :
    (now : ℕ) (listed : Text → Bool) (providers : List Text) (agent : Text) (t : Table)
    (o : Option Run) {k : Text}
    → (claim_stale now listed providers agent t o).0 ≡ some k
    → IsHeldNow now agent k (claim_stale now listed providers agent t o).1
unfolding claim_stale
claim_stale-IsHeldNow now listed providers agent t none h =
    claim_queued-IsHeldNow now listed providers agent t (next_run listed providers agent t) h
claim_stale-IsHeldNow now listed providers agent t (some q) {k} h =
    let (r, e, test, m) = claim_where-eq-some _ _ q.id t h in
    IsHeldNow-resumed now agent k providers r _ e test m

claim_run-IsHeldNow :
    (now : ℕ) (listed : Text → Bool) (providers : List Text) (agent : Text) (t : Table) {k : Text}
    → (claim_run now listed providers agent t).0 ≡ some k
    → IsHeldNow now agent k (claim_run now listed providers agent t).1
unfolding claim_run
claim_run-IsHeldNow now listed [] agent t h = absurd (none-ne-some h)
claim_run-IsHeldNow now listed (p ∷ ps) agent t h =
    claim_stale-IsHeldNow now listed (p ∷ ps) agent t (stale_run now listed (p ∷ ps) agent t) h

claim_as-IsHeldNow :
    (now : ℕ) (listed : Text → Bool) (input : ClaimInput) (id : Text) (s : Store) (o : Option Agent)
    {k : Text}
    → (claim_as now listed input id s o).0 ≡ some k
    → IsHeldNow now id k (claim_as now listed input id s o).1.runs
unfolding claim_as
claim_as-IsHeldNow now listed input id s none h = absurd (none-ne-some h)
claim_as-IsHeldNow now listed input id s (some a) h =
    claim_run-IsHeldNow now listed (compatible_providers a.platform input.capabilities) id s.runs h

pub claim_row-IsHeldNow :
    (now : ℕ) (listed : Text → Bool) (input : ClaimInput) (id : Text) (s : Store) {k : Text}
    → (claim_row now listed input id s).0 ≡ some k
    → IsHeldNow now id k (claim_row now listed input id s).1.runs
unfolding claim_row
claim_row-IsHeldNow now listed input id s h =
    claim_as-IsHeldNow now listed input id s (find (is_active_agent id) s.agents) h

-- A job that a claim returns is a job of the claiming agent, and its run is, after the claim, running, held
-- by that agent, with a heartbeat of now.
pub claim-IsHeldNow :
    (rules : JobRules) (now : ℕ) (listed : Text → Bool) (input : ClaimInput) (id : Text) (s : Store)
    {job : Job} {u : Store}
    → claim rules now listed input id s ≡ ok (some job, u)
    → (job.collector ≡ id) × IsHeldNow now id job.run_id u.runs
claim-IsHeldNow rules now listed input id s {job} h =
    let (chosen, mine) = claim-job rules now listed input id s h in
    (
      mine,
      subst (IsHeldNow now id job.run_id) (sym (claim-runs rules now listed input id s h))
          (claim_row-IsHeldNow now listed input id s chosen),
    )
