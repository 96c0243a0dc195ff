-- ===== src/Runs/Agent.antt =====
-- apps/api/src/collector-agent/prisma-collector-agent.repository.ts: how an agent claims a run, keeps
-- it alive, pauses and releases it.
use price_monitor.Prelude.{
  ℕ, ◌+◌, Bool, true, false, ◌&&◌, ◌||◌, Option, none, some, List, [], ◌∷◌, map, filter, find,
  head?, any, all, leb, if◌then◌else◌, Text, codes, text_eq, ◌==◌, Ordering, compare, compare_text,
  or_else, sort, Dict, get, put, Result, ok, err, ◌>>=◌,
}
use price_monitor.Runs.{
  Status, queued, running, failed, Run, Table, is_running, is_queued, absent, is_text,
  desktop_provider, update_many, update_count,
}
use price_monitor.Runs.Queue.{compare_queue}

pub data Platform : Type 0 where
  macos windows : Platform

pub record Agent : Type 0 where
  pub id : Text
  pub enabled : Bool
  pub platform : Platform
  pub app_version : Text
  pub capabilities : List Text
  pub last_seen : Option ℕ

-- `where: { id: runId, collectorAgentId: agentId, status: "RUNNING" }`.
unfoldable pub is_held : Text → Text → Run → Bool
is_held agent id r = text_eq r.id id && (is_text agent r.agent && is_running r.status)

unfoldable pub beaten : ℕ → ℕ → ℕ → Run → Run
beaten now discovered skus r = record r {
  heartbeat_at = some now;
  discovered_count = discovered;
  sku_count = skus;
}

-- `collectorAgent.update({ data: { lastSeenAt } })`.
unfoldable pub seen : ℕ → Text → List Agent → List Agent
seen now id agents =
    map (λ (a : Agent). if text_eq a.id id then record a { last_seen = some now } else a) agents

-- `CollectorJob`: the two fields that the claim reads, and the rest of it as it is.
pub record Job : Type 0 where
  pub run_id : Text
  pub collector : Text
  pub details : Text

-- The two tables that the operations of an agent write, and the column `claimedJob` of the runs by the
-- runs' ids: a run without an entry has null there.
pub record Store : Type 0 where
  pub runs : Table
  pub agents : List Agent
  pub jobs : Dict Job

-- The shape of `heartbeat` and `pause`: an update of the held run, and of the agent if there is one.
unfoldable pub update_held : (Run → Run) → ℕ → Text → Text → Store → Bool × Store
update_held change now agent id s =
    if update_count (is_held agent id) s.runs == 0 then (false, s) else (
      true,
      record s {
        runs = update_many (is_held agent id) change s.runs;
        agents = seen now agent s.agents;
      },
    )

-- `heartbeat`.
unfoldable pub heartbeat : ℕ → Text → Text → ℕ → ℕ → Store → Bool × Store
heartbeat now agent id discovered skus s = update_held (beaten now discovered skus) now agent id s

pub data Pause : Type 0 where
  login challenge : Pause

abbrev pub paused_status : Pause → Status
paused_status login = Status.paused_login
paused_status challenge = Status.paused_challenge

abbrev pub paused_code : Pause → Text
paused_code login = codes "LOGIN_REQUIRED"
paused_code challenge = codes "PLATFORM_CHALLENGE"

unfoldable pub paused : ℕ → Pause → Run → Run
paused now p r = record r {
  status = paused_status p;
  heartbeat_at = some now;
  error_code = some (paused_code p);
}

-- `pause`.
unfoldable pub pause : ℕ → Text → Text → Pause → Store → Bool × Store
pause now agent id p s = update_held (paused now p) now agent id s

-- `CollectorRunReleaseInput`.
pub data Disposition : Type 0 where
  quarantine : Text → Disposition
  requeue : Disposition

unfoldable pub released : ℕ → Disposition → Run → Run
released now (quarantine code) r = record r {
  status = failed;
  heartbeat_at = some now;
  finished_at = some now;
  error_code = some code;
}
released now requeue r = record r { status = queued; heartbeat_at = some now; error_code = none }

-- `release`.
unfoldable pub release : ℕ → Text → Text → Disposition → Store → Bool × Store
release now agent id d s = (
  update_count (is_held agent id) s.runs == 1,
  record s { runs = update_many (is_held agent id) (released now d) s.runs },
)

-- `compatibleProviderKeys`, for the one profile.
abbrev required_capabilities : List Text
required_capabilities = codes "accessibility" ∷ codes "all-sku" ∷ codes "png-evidence" ∷ []

abbrev is_macos : Platform → Bool
is_macos macos = true
is_macos windows = false

unfoldable pub compatible_providers : Platform → List Text → List Text
compatible_providers platform capabilities =
    if is_macos platform && all (λ (c : Text). any (text_eq c) capabilities) required_capabilities
    then desktop_provider ∷ []
    else []

-- `COLLECTOR_RUN_LEASE_MILLISECONDS`.
abbrev pub run_lease : ℕ
run_lease = 90000

-- `heartbeatAt: { lte: staleBefore }`, which no null passes.
abbrev pub is_stale : ℕ → Option ℕ → Bool
is_stale now none = false
is_stale now (some at) = leb (at + run_lease) now

unfoldable pub is_provided : List Text → Run → Bool
is_provided providers r = any (text_eq r.provider) providers

-- The conditions of the two updates; a run's model is `listed` where it has an active own listing.
unfoldable pub is_stale_owned : ℕ → List Text → Text → Run → Bool
is_stale_owned now providers agent r =
    is_provided providers r
    && (is_running r.status
        && (is_text agent r.agent && (is_stale now r.heartbeat_at && absent r.report_digest)))

unfoldable pub is_claimable : (Text → Bool) → List Text → Text → Run → Bool
is_claimable listed providers agent r =
    is_provided providers r
    && (is_queued r.status && ((absent r.agent || is_text agent r.agent) && listed r.model))

abbrev compare_option : Option ℕ → Option ℕ → Ordering
compare_option (some m) (some n) = compare m n
compare_option (some m) none = Ordering.lt
compare_option none (some n) = Ordering.gt
compare_option none none = Ordering.eq

unfoldable pub compare_stale : Run → Run → Ordering
compare_stale a b =
    or_else (compare_option a.heartbeat_at b.heartbeat_at)
      (or_else (compare a.scheduled_for b.scheduled_for) (compare_text a.id b.id))

-- `staleOwnedRun`.
unfoldable pub stale_run : ℕ → (Text → Bool) → List Text → Text → Table → Option Run
stale_run now listed providers agent t = head? (
    sort compare_stale
      (filter (λ (r : Run). is_stale_owned now providers agent r && listed r.model) t))

unfoldable pub next_run : (Text → Bool) → List Text → Text → Table → Option Run
next_run listed providers agent t =
    head? (sort compare_queue (filter (is_claimable listed providers agent) t))

unfoldable pub resumed : ℕ → Run → Run
resumed now r = record r { claimed_at = some now; heartbeat_at = some now }

unfoldable pub claimed : ℕ → Text → Run → Run
claimed now agent r = record r {
  status = running;
  agent = some agent;
  claimed_at = some now;
  heartbeat_at = some now;
  started_at = some now;
  finished_at = none;
  error_code = none;
}

-- The update of the chosen run: `if (claimed.count === 0) return null`, else its id and the runs.
unfoldable pub claim_where : (Run → Bool) → (Run → Run) → Text → Table → Option Text × Table
claim_where test change id t =
    let chosen = λ (q : Run). text_eq q.id id && test q in
    (if update_count chosen t == 0 then none else some id, update_many chosen change t)

unfoldable pub claim_queued :
    ℕ → (Text → Bool) → List Text → Text → Table → Option Run → Option Text × Table
claim_queued now listed providers agent t none = (none, t)
claim_queued now listed providers agent t (some r) =
    claim_where (is_claimable listed providers agent) (claimed now agent) r.id t

unfoldable pub claim_stale :
    ℕ → (Text → Bool) → List Text → Text → Table → Option Run → Option Text × Table
claim_stale now listed providers agent t (some r) =
    claim_where (is_stale_owned now providers agent) (resumed now) r.id t
claim_stale now listed providers agent t none =
    claim_queued now listed providers agent t (next_run listed providers agent t)

-- From `staleBefore` on.
unfoldable pub claim_run : ℕ → (Text → Bool) → List Text → Text → Table → Option Text × Table
claim_run now listed [] agent t = (none, t)
claim_run now listed (p ∷ ps) agent t =
    claim_stale now listed (p ∷ ps) agent t (stale_run now listed (p ∷ ps) agent t)

-- The second argument of `claimNext`.
pub record ClaimInput : Type 0 where
  pub app_version : Text
  pub capabilities : List Text

unfoldable pub checked_in : ℕ → ClaimInput → Agent → Agent
checked_in now input a = record a {
  app_version = input.app_version;
  capabilities = input.capabilities;
  last_seen = some now;
}

unfoldable pub is_active_agent : Text → Agent → Bool
is_active_agent id a = text_eq a.id id && a.enabled

unfoldable pub claim_as :
    ℕ → (Text → Bool) → ClaimInput → Text → Store → Option Agent → Option Text × Store
claim_as now listed input id s none = (none, s)
claim_as now listed input id s (some a) =
    let (found, runs) =
      claim_run now listed (compatible_providers a.platform input.capabilities) id s.runs in
    (
      found,
      record s {
        runs = runs;
        agents =
            map (λ (b : Agent). if is_active_agent id b then checked_in now input b else b)
              s.agents;
      },
    )

-- `claimInSerializableTransaction`, up to the update of the chosen run.
unfoldable pub claim_row : ℕ → (Text → Bool) → ClaimInput → Text → Store → Option Text × Store
claim_row now listed input id s =
    claim_as now listed input id s (find (is_active_agent id) s.agents)

-- Why a claim throws: no run has the id, the stored job is not the agent's for this run, the model has no
-- active own listing, or the schema refuses the new job.
pub data ClaimError : Type 0 where
  missing_run invalid_stored_job missing_listing invalid_job : ClaimError

-- What the claim takes from outside: whether `collectorJobSchema` accepts a job, and the rest of the job
-- that is made from the rows of a run's model and the run's limit.
pub record JobRules : Type 0 where
  pub accepts : Job → Bool
  pub details : Text → ℕ → Text

unfoldable pub new_job : JobRules → Text → Run → Job
new_job rules agent r = record {
  run_id = r.id;
  collector = agent;
  details = rules.details r.model r.search_limit;
}

-- The job that is returned: the stored one, or else a new one.
unfoldable pub issue_job :
    JobRules → (Text → Bool) → Text → Run → Option Job → Result ClaimError Job
issue_job rules listed agent r (some job) =
    if rules.accepts job && (text_eq job.run_id r.id && text_eq job.collector agent)
    then ok job
    else err invalid_stored_job
issue_job rules listed agent r none =
    if listed r.model
    then (if rules.accepts (new_job rules agent r)
        then ok (new_job rules agent r)
        else err invalid_job)
    else err missing_listing

-- The job with what is stored of it: a stored job is stored already.
unfoldable pub issue_to :
    JobRules → (Text → Bool) → Text → Store → Option Run → Result ClaimError (Option Job × Store)
issue_to rules listed agent s none = err missing_run
issue_to rules listed agent s (some r) = issue_job rules listed agent r (get r.id s.jobs) >>= λ job.
    ok (some job, record s { jobs = put r.id job s.jobs })

unfoldable pub has_run_id : Text → Run → Bool
has_run_id id r = text_eq r.id id

-- From `findUniqueOrThrow` on.
unfoldable pub issue :
    JobRules → (Text → Bool) → Text → Option Text × Store → Result ClaimError (Option Job × Store)
issue rules listed agent (none, s) = ok (none, s)
issue rules listed agent (some id, s) = issue_to rules listed agent s (find (has_run_id id) s.runs)

-- `claimInSerializableTransaction`: an error takes all of it back.
unfoldable pub claim :
    JobRules
    → ℕ
    → (Text → Bool)
    → ClaimInput
    → Text
    → Store
    → Result ClaimError (Option Job × Store)
claim rules now listed input id s = issue rules listed id (claim_row now listed input id s)
