-- ===== src/Runs/Tests.antt =====
-- A model's run: queued, claimed, and a second request that is coalesced into it.
use mathlib.Core.List.{Memᴰ}
use price_monitor.Prelude.{
  ℕ, zero, suc, ◌≡◌, ◌≢◌, refl, Bool, true, false, none, some, List, [], ◌∷◌, Text, codes, text_eq,
  sort, insert, compare_text, ok, get, put,
}
use price_monitor.Runs.{Status, Run, Table, desktop_provider, update_many, update_count}
use price_monitor.Runs.Queue
use price_monitor.Runs.Queue.{Model, Request, Defaults, Created, create_or_coalesce, requeue_paused}
use price_monitor.Runs.Agent
use price_monitor.Runs.Agent.{
  Agent, ClaimInput, Job, JobRules, Store, macos, claim_row, claim, heartbeat,
}
use price_monitor.Runs.Invariant.{IsValid, empty-IsValid, count, has_id}
use price_monitor.Runs.Enqueue.{IsSoundRound, IsAnswered, enqueue_model_now-IsAnswered}
use price_monitor.Runs.Answers.{Answers, create_retrying-Answers}
use price_monitor.Runs.Retries
use price_monitor.Runs.Retries.{Round, maximum_attempts, create_retrying, enqueue_model_now}
use price_monitor.Runs.Phases.{claiming, Life, Becomes, Reaches-Becomes}
use price_monitor.Runs.Steps.{Acts, Step, Reaches, Reaches-IsValid, Acts-exclusive, Step-finished}
use price_monitor.Runs.Claims.{IsHeldNow, claim-IsHeldNow}
use price_monitor.Runs.ClaimNext.{Attempt}

abbrev models : List Model
models = record { id = codes "m"; enabled = true } ∷ []

abbrev request : ℕ → Request
request at = record { model = codes "m"; scheduled_for = at; search_limit = 50 }

abbrev defaults : Text → Defaults
defaults id = record { id = id; created_at = 7 }

abbrev capable : ClaimInput
capable = record {
  app_version = codes "1";
  capabilities = codes "accessibility" ∷ codes "all-sku" ∷ codes "png-evidence" ∷ [];
}

abbrev agent : Agent
agent = record {
  id = codes "a";
  enabled = true;
  platform = macos;
  app_version = [];
  capabilities = [];
  last_seen = none;
}

abbrev listed : Text → Bool
listed model = true

abbrev fresh_run : Text → ℕ → Run
fresh_run id at = record {
  id = id;
  model = codes "m";
  provider = desktop_provider;
  scheduled_for = at;
  created_at = 7;
  search_limit = 50;
  status = Status.queued;
  coalesced_into = none;
  agent = none;
  claimed_at = none;
  heartbeat_at = none;
  started_at = none;
  finished_at = none;
  discovered_count = 0;
  sku_count = 0;
  error_code = none;
  report_digest = none;
}

abbrev running_run : Run
running_run = record (fresh_run (codes "r") 100) {
  status = Status.running;
  agent = some (codes "a");
  claimed_at = some 200;
  heartbeat_at = some 200;
  started_at = some 200;
}

abbrev failed_run : Run
failed_run = record (fresh_run (codes "r") 100) { status = Status.failed }

abbrev empty : Store
empty = record { runs = []; agents = agent ∷ []; jobs = [] }

abbrev queued_store : Store
queued_store = record { runs = fresh_run (codes "r") 100 ∷ []; agents = agent ∷ []; jobs = [] }

-- A hub to unfold what a run reads.
unfoldable runs : Unit {0}
unfolding update_many update_count Queue.in_slot Queue.compare_queue Queue.is_active_of
    Queue.active_run Queue.new_run Queue.insert_run Queue.create_unlocked Queue.is_enabled_model
    create_or_coalesce Queue.is_valid_limit enqueue_model_now Queue.is_requeueable Queue.requeued
    requeue_paused Agent.is_held Agent.beaten Agent.seen Agent.update_held heartbeat
    Agent.compatible_providers Agent.is_provided Agent.is_stale_owned Agent.is_claimable
    Agent.compare_stale Agent.stale_run Agent.next_run Agent.resumed Agent.claimed Agent.claim_where
    Agent.claim_queued Agent.claim_stale Agent.claim_run Agent.checked_in Agent.is_active_agent
    Agent.claim_as Agent.new_job Agent.issue_job Agent.issue_to Agent.has_run_id Agent.issue
    claim_row claim create_retrying Retries.create_from Retries.same_slot get put count sort insert
    compare_text text_eq
runs = tt

abbrev rules : JobRules
rules = record { accepts = λ job. true; details = λ model limit. model }

abbrev job : Job
job = record { run_id = codes "r"; collector = codes "a"; details = codes "m" }

abbrev claimed_store : Store
claimed_store = record {
  runs = running_run ∷ [];
  agents =
      record agent {
        app_version = codes "1";
        capabilities = capable.capabilities;
        last_seen = some 200;
      }
      ∷ [];
  jobs = (codes "r", job) ∷ [];
}

claim_sample :
    claim rules 200 listed capable (codes "a") queued_store ≡ ok (some job, claimed_store)
unfolding runs
claim_sample = refl

claim-IsHeldNow_example :
    (job.collector ≡ codes "a") × IsHeldNow 200 (codes "a") job.run_id claimed_store.runs
claim-IsHeldNow_example =
    claim-IsHeldNow rules 200 listed capable (codes "a") queued_store claim_sample

-- The first attempt has a conflict, the second has none.
abbrev attempts : ℕ → Attempt
attempts zero = record { conflicts = true; now = 200; seen = queued_store }
attempts (suc n) = record { conflicts = false; now = 201; seen = queued_store }

created_sample :
    create_or_coalesce models (request 100) (defaults (codes "r")) []
    ≡ ok (record {
      run = fresh_run (codes "r") 100;
      coalesced = false;
      table = fresh_run (codes "r") 100 ∷ [];
    })
unfolding runs
created_sample = refl

fresh_sample : (id : Text) → count (has_id id) [] ≡ 0
unfolding count
fresh_sample id = refl

claim-Step : Step models listed queued_store claimed_store
claim-Step =
    Step.acts (codes "a") queued_store claimed_store
      (Acts.claims rules 200 capable queued_store claimed_store (some job) claim_sample)

Reaches-IsValid_example : IsValid claimed_store.runs
Reaches-IsValid_example =
    Reaches-IsValid models listed
      (Reaches.goes empty queued_store _
        (Step.creates (request 100) (defaults (codes "r")) empty _ created_sample
          (fresh_sample (codes "r")))
        (Reaches.goes queued_store claimed_store _ claim-Step (Reaches.stays _)))
      empty-IsValid

abbrev running_store : Store
running_store = record { runs = running_run ∷ []; agents = agent ∷ []; jobs = [] }

other-ne-holder : codes "a" ≢ codes "a2"
other-ne-holder e = cc

abbrev seen_store : Store
seen_store = record { runs = running_run ∷ []; agents = agent ∷ []; jobs = [] }

-- Another agent has nothing to claim.
other_sample : claim rules 999999 listed capable (codes "a2") seen_store ≡ ok (none, seen_store)
unfolding runs
other_sample = refl

Acts-exclusive_example : Memᴰ running_run seen_store.runs
Acts-exclusive_example =
    Acts-exclusive listed (codes "a2") (codes "a")
      (Acts.claims rules 999999 capable seen_store seen_store none other_sample) (Memᴰ.head refl)
      refl refl other-ne-holder

Step-finished_example : Memᴰ failed_run (requeue_paused (codes "r") (failed_run ∷ [])).1
Step-finished_example =
    Step-finished models listed
      (Step.requeues (codes "r") (record { runs = failed_run ∷ []; agents = []; jobs = [] }))
      (Memᴰ.head refl) refl

abbrev round : Table → Round
round t = record { refused = false; seen = t; defaults = defaults (codes "s"); later = [] }

-- A second request, for another slot, is answered with the run that is active.
coalesced_sample :
    enqueue_model_now models (request 300) (λ n. round (running_run ∷ []))
    ≡ ok (
      codes "r",
      true,
      record (fresh_run (codes "s") 300) {
        status = Status.coalesced;
        coalesced_into = some (codes "r");
      }
          ∷ running_run
          ∷ [],
    )
unfolding runs
coalesced_sample = refl

-- The first attempt is refused and finds nothing, the second is accepted.
abbrev two_rounds : ℕ → Round
two_rounds zero = record { refused = true; seen = []; defaults = defaults (codes "x"); later = [] }
two_rounds (suc n) = record {
  refused = false;
  seen = [];
  defaults = defaults (codes "r");
  later = [];
}

two_rounds-IsSoundRound : (n : ℕ) → IsSoundRound (two_rounds n)
two_rounds-IsSoundRound zero = (fresh_sample _, empty-IsValid, empty-IsValid)
two_rounds-IsSoundRound (suc n) = (fresh_sample _, empty-IsValid, empty-IsValid)

enqueue_model_now-IsAnswered_example :
    IsAnswered (request 100) two_rounds (enqueue_model_now models (request 100) two_rounds)
unfolding runs
enqueue_model_now-IsAnswered_example =
    enqueue_model_now-IsAnswered models (request 100) two_rounds refl refl two_rounds-IsSoundRound

-- The claim starts the run.
Reaches-Becomes_example :
    Becomes (Life (claiming ∷ [])) (fresh_run (codes "r") 100) claimed_store.runs
unfolding runs
Reaches-Becomes_example =
    Reaches-Becomes models listed
      (Reaches.goes queued_store claimed_store _
        (Step.acts (codes "a") queued_store claimed_store
          (Acts.claims rules 200 capable queued_store claimed_store (some job) claim_sample))
        (Reaches.stays _))
      (Memᴰ.head refl)

create_retrying-Answers_example :
    Answers
      (request 100)
      two_rounds
      0
      maximum_attempts
      (create_retrying models (request 100) two_rounds)
unfolding runs
create_retrying-Answers_example = create_retrying-Answers models (request 100) two_rounds refl
