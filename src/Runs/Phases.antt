-- ===== src/Runs/Phases.antt =====
-- The life of one run, apart from all that the table keeps of it, and the runs of the table as lives.
use mathlib.Core.List.{Memᴰ}
use price_monitor.Prelude.{
  ℕ, ◌≡◌, refl, sym, subst, ap, ◌∙◌, inl, inr, Bool, true, ◌&&◌, Option, none, some, List, [], ◌∷◌,
  arith, ◌==◌, Bool-cases, &&-right, Text, text_eq, find,
}
use price_monitor.Runs.{
  Status, queued, running, paused_login, paused_challenge, coalesced, succeeded, partial_failed,
  failed, Run, Table, is_running, is_queued, is_paused, update_many, update_count,
}
use price_monitor.Runs.Queue.{Model, requeue_paused, is_requeueable, requeued}
use price_monitor.Runs.Agent.{
  Agent, ClaimInput, Store, Pause, login, challenge, Disposition, quarantine, requeue, heartbeat,
  beaten, pause, paused, release, released, claim_row, claimed, resumed, update_held, is_held,
  is_claimable, claim_where, claim_queued, claim_stale, claim_run, claim_as, next_run,
  compatible_providers, is_active_agent,
}
use price_monitor.Runs.Jobs.{claim-runs}
use price_monitor.Runs.Creation.{create_or_coalesce-Memᴰ}
use price_monitor.Runs.Steps.{Acts, Step, Reaches}

-- The phases of a run: merged into another, waiting for an agent, at work, halted until an operator
-- lets it go on, and at its end.
pub data Phase : Type 0 where
  merged waiting working halted ended : Phase

abbrev pub phase : Status → Phase
phase queued = waiting
phase running = working
phase paused_login = halted
phase paused_challenge = halted
phase coalesced = merged
phase succeeded = ended
phase partial_failed = ended
phase failed = ended

-- The kinds of transactions.
pub data Kind : Type 0 where
  creation requeueing claiming beating pausing releasing : Kind

-- What a transaction of a kind may do to a run.
pub data Move : Kind → Phase → Phase → Type 0 where
  starts : Move claiming waiting working
  halts : Move pausing working halted
  gives_back : Move releasing working waiting
  breaks_off : Move releasing working ended
  resumes : Move requeueing halted waiting

-- One transaction: the run rests, or makes one move that the kind allows.
pub data Turn (k : Kind) : Phase → Phase → Type 0 where
  rests : (p : Phase) → Turn k p p
  moves : (p q : Phase) → Move k p q → Turn k p q

-- A life under transactions of the given kinds, one turn for each.
pub data Life : List Kind → Phase → Phase → Type 0 where
  over : (p : Phase) → Life [] p p
  turns : (k : Kind) (ks : List Kind) (p q r : Phase) → Turn k p q → Life ks q r → Life (k ∷ ks) p r

abbrev one : {k : Kind} {p q : Phase} → Move k p q → Turn k p q
one {k} {p} {q} m = Turn.moves p q m

-- The kinds of what is done, in order.
abbrev pub act_kind :
    {listed : Text → Bool} {agent : Text} {s u : Store} → Acts listed agent s u → Kind
act_kind (Acts.beats now id discovered skus s) = beating
act_kind (Acts.pauses now id p s) = pausing
act_kind (Acts.releases now id d s) = releasing
act_kind (Acts.claims rules now input s u job e) = claiming

abbrev pub step_kind :
    {models : List Model} {listed : Text → Bool} {s u : Store} → Step models listed s u → Kind
step_kind (Step.creates request defaults s c e fresh) = creation
step_kind (Step.requeues id s) = requeueing
step_kind (Step.acts agent s u a) = act_kind a

abbrev pub kinds :
    {models : List Model} {listed : Text → Bool} {s u : Store}
    → Reaches models listed s u
    → List Kind
kinds (Reaches.stays s) = []
kinds (Reaches.goes s u v step rest) = step_kind step ∷ kinds rest

-- The run of a later table that a run has become, by steps of the given shape.
pub record Becomes (Shape : Phase → Phase → Type 0) (r : Run) (t : Table) : Type 0 where
  pub run : Run
  pub of_table : Memᴰ run t
  pub same_id : run.id ≡ r.id
  pub life : Shape (phase r.status) (phase run.status)

-- The same on the runs of one update.
abbrev Fits : Kind → (Run → Run) → Run → Type 0
Fits k change r = ((change r).id ≡ r.id) × Turn k (phase r.status) (phase (change r).status)

Becomes-self : {k : Kind} {r : Run} {t : Table} → Memᴰ r t → Becomes (Turn k) r t
Becomes-self {k} {r} m = record { run = r; of_table = m; same_id = refl; life = Turn.rests _ }

update_many-Becomes :
    (test : Run → Bool) (change : Run → Run) {k : Kind} {r : Run} {t : Table}
    → (test r ≡ true → Fits k change r)
    → Memᴰ r t
    → Becomes (Turn k) r (update_many test change t)
unfolding update_many
update_many-Becomes test change {k} {r} h (Memᴰ.head {x} {xs} e) = elim (Bool-cases (test x)) [
  | inl hit ↦
      (let (same, life) = h (ap test e ∙ hit) in
        record {
          run = change r;
          of_table = rw hit (Memᴰ.head (ap change e));
          same_id = same;
          life = life;
        })
  | inr miss ↦ record {
    run = r;
    of_table = rw miss (Memᴰ.head e);
    same_id = refl;
    life = Turn.rests _;
  }
]
update_many-Becomes test change h (Memᴰ.tail {x} {xs} m) =
    let b = update_many-Becomes test change h m in
    record { run = b.run; of_table = Memᴰ.tail b.of_table; same_id = b.same_id; life = b.life }

is_running-eq : (s : Status) → is_running s ≡ true → s ≡ running
is_running-eq s h = ground arith

is_queued-eq : (s : Status) → is_queued s ≡ true → s ≡ queued
is_queued-eq s h = ground arith

is_paused-phase : (s : Status) → is_paused s ≡ true → phase s ≡ halted
is_paused-phase s h = ground arith

-- The moves of the operations.
beaten-Fits : (now discovered skus : ℕ) (r : Run) → Fits beating (beaten now discovered skus) r
unfolding beaten
beaten-Fits now discovered skus r = (refl, Turn.rests _)

paused-Fits : (now : ℕ) (p : Pause) (r : Run) → r.status ≡ running → Fits pausing (paused now p) r
unfolding paused
paused-Fits now login r h = (refl, rw h (one Move.halts))
paused-Fits now challenge r h = (refl, rw h (one Move.halts))

released-Fits :
    (now : ℕ) (d : Disposition) (r : Run) → r.status ≡ running → Fits releasing (released now d) r
unfolding released
released-Fits now (quarantine code) r h = (refl, rw h (one Move.breaks_off))
released-Fits now requeue r h = (refl, rw h (one Move.gives_back))

claimed-Fits :
    (now : ℕ) (agent : Text) (r : Run) → r.status ≡ queued → Fits claiming (claimed now agent) r
unfolding claimed
claimed-Fits now agent r h = (refl, rw h (one Move.starts))

resumed-Fits : (now : ℕ) (r : Run) → Fits claiming (resumed now) r
unfolding resumed
resumed-Fits now r = (refl, Turn.rests _)

requeued-Fits : (r : Run) → phase r.status ≡ halted → Fits requeueing requeued r
unfolding requeued
requeued-Fits r h = (refl, rw h (one Move.resumes))

is_held-running : (agent id : Text) (r : Run) → is_held agent id r ≡ true → r.status ≡ running
unfolding is_held
is_held-running agent id r h =
    let e : is_running r.status ≡ true = ground arith in is_running-eq r.status e

is_claimable-queued :
    (listed : Text → Bool) (providers : List Text) (agent : Text) (r : Run)
    → is_claimable listed providers agent r ≡ true
    → r.status ≡ queued
unfolding is_claimable
is_claimable-queued listed providers agent r h =
    let e : is_queued r.status ≡ true = ground arith in is_queued-eq r.status e

is_requeueable-halted : (id : Text) (r : Run) → is_requeueable id r ≡ true → phase r.status ≡ halted
unfolding is_requeueable
is_requeueable-halted id r h =
    let e : is_paused r.status ≡ true = ground arith in is_paused-phase r.status e

update_held-Becomes :
    (change : Run → Run) (now : ℕ) (agent id : Text) (s : Store) {k : Kind} {r : Run}
    → (r.status ≡ running → Fits k change r)
    → Memᴰ r s.runs
    → Becomes (Turn k) r (update_held change now agent id s).1.runs
unfolding update_held
update_held-Becomes change now agent id s {k} {r} h m =
    elim (Bool-cases (update_count (is_held agent id) s.runs == 0)) [
      | inl missed ↦ rw missed (Becomes-self m)
      | inr hit ↦
          rw hit (
            update_many-Becomes (is_held agent id) change (λ e. h (is_held-running agent id r e)) m)
    ]

claim_where-Becomes :
    (test : Run → Bool) (change : Run → Run) (id : Text) (t : Table) {k : Kind} {r : Run}
    → (test r ≡ true → Fits k change r)
    → Memᴰ r t
    → Becomes (Turn k) r (claim_where test change id t).1
unfolding claim_where
claim_where-Becomes test change id t {k} {r} h m =
    update_many-Becomes (λ q. text_eq q.id id && test q) change
      (λ e. h (&&-right (text_eq r.id id) (test r) e)) m

claim_queued-Becomes :
    (now : ℕ) (listed : Text → Bool) (providers : List Text) (agent : Text) (t : Table)
    (o : Option Run) {r : Run}
    → Memᴰ r t
    → Becomes (Turn claiming) r (claim_queued now listed providers agent t o).1
unfolding claim_queued
claim_queued-Becomes now listed providers agent t none m = Becomes-self m
claim_queued-Becomes now listed providers agent t (some q) {r} m =
    claim_where-Becomes _ _ q.id t
      (λ e. claimed-Fits now agent r (is_claimable-queued listed providers agent r e)) m

claim_stale-Becomes :
    (now : ℕ) (listed : Text → Bool) (providers : List Text) (agent : Text) (t : Table)
    (o : Option Run) {r : Run}
    → Memᴰ r t
    → Becomes (Turn claiming) r (claim_stale now listed providers agent t o).1
unfolding claim_stale
claim_stale-Becomes now listed providers agent t (some q) {r} m =
    claim_where-Becomes _ _ q.id t (λ e. resumed-Fits now r) m
claim_stale-Becomes now listed providers agent t none m =
    claim_queued-Becomes now listed providers agent t (next_run listed providers agent t) m

claim_run-Becomes :
    (now : ℕ) (listed : Text → Bool) (providers : List Text) (agent : Text) (t : Table) {r : Run}
    → Memᴰ r t
    → Becomes (Turn claiming) r (claim_run now listed providers agent t).1
unfolding claim_run
claim_run-Becomes now listed [] agent t m = Becomes-self m
claim_run-Becomes now listed (p ∷ ps) agent t m =
    claim_stale-Becomes now listed (p ∷ ps) agent t _ m

claim_as-Becomes :
    (now : ℕ) (listed : Text → Bool) (input : ClaimInput) (id : Text) (s : Store) (o : Option Agent)
    {r : Run}
    → Memᴰ r s.runs
    → Becomes (Turn claiming) r (claim_as now listed input id s o).1.runs
unfolding claim_as
claim_as-Becomes now listed input id s none m = Becomes-self m
claim_as-Becomes now listed input id s (some a) m =
    claim_run-Becomes now listed (compatible_providers a.platform input.capabilities) id s.runs m

Acts-Becomes :
    (listed : Text → Bool) (agent : Text) {s u : Store} {r : Run} (a : Acts listed agent s u)
    → Memᴰ r s.runs
    → Becomes (Turn (act_kind a)) r u.runs
unfolding heartbeat pause release claim_row
Acts-Becomes listed agent {r} (Acts.beats now id discovered skus s) m =
    update_held-Becomes _ now agent id s (λ e. beaten-Fits now discovered skus r) m
Acts-Becomes listed agent {r} (Acts.pauses now id p s) m =
    update_held-Becomes _ now agent id s (paused-Fits now p r) m
Acts-Becomes listed agent {r} (Acts.releases now id d s) m =
    update_many-Becomes (is_held agent id) (released now d)
      (λ e. released-Fits now d r (is_held-running agent id r e)) m
Acts-Becomes listed agent {r} (Acts.claims rules now input s u job e) m =
    subst (Becomes (Turn claiming) r) (sym (claim-runs rules now listed input agent s e))
      (claim_as-Becomes now listed input agent s (find (is_active_agent agent) s.agents) m)

Step-Becomes :
    (models : List Model) (listed : Text → Bool) {s u : Store} {r : Run}
    (step : Step models listed s u)
    → Memᴰ r s.runs
    → Becomes (Turn (step_kind step)) r u.runs
unfolding requeue_paused
Step-Becomes models listed (Step.creates request defaults s c e fresh) m =
    Becomes-self (create_or_coalesce-Memᴰ models request defaults s.runs e m)
Step-Becomes models listed {r} (Step.requeues id s) m =
    update_many-Becomes (is_requeueable id) requeued
      (λ e. requeued-Fits r (is_requeueable-halted id r e)) m
Step-Becomes models listed (Step.acts agent s u a) m = Acts-Becomes listed agent a m

-- The table of runs refines the life of a run: whatever transactions of the queue and of the agents
-- follow, each run of a table is there under its id in the later table, and its phases took one turn for
-- each transaction. In a turn the run rests, or makes the one kind of move that belongs to the
-- transaction: a claim starts a waiting run, a pause halts a run at work, a release gives it back or
-- breaks it off, and a requeue lets a halted run wait again. No other change of phase happens.
pub Reaches-Becomes :
    (models : List Model) (listed : Text → Bool) {s u : Store} {r : Run}
    (trace : Reaches models listed s u)
    → Memᴰ r s.runs
    → Becomes (Life (kinds trace)) r u.runs
Reaches-Becomes models listed {r} (Reaches.stays s) m = record {
  run = r;
  of_table = m;
  same_id = refl;
  life = Life.over _;
}
Reaches-Becomes models listed (Reaches.goes s u v step rest) m =
    let b = Step-Becomes models listed step m in
    let c = Reaches-Becomes models listed rest b.of_table in
    record {
      run = c.run;
      of_table = c.of_table;
      same_id = c.same_id ∙ b.same_id;
      life = Life.turns _ _ _ _ _ b.life c.life;
    }
