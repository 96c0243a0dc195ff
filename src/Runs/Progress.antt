-- ===== src/Runs/Progress.antt =====
-- When a claim gives its agent a job.
use mathlib.Core.List.{Memᴰ}
use price_monitor.Prelude.{
  ℕ, zero, suc, ◌<◌, ◌+◌, ◌≡◌, Result, ok, err, ◌⊎◌, get, Bool, true, false, Option, some, List,
  ◌∷◌, Text, find,
}
use price_monitor.Runs.{Run}
use price_monitor.Runs.Agent.{
  Agent, ClaimInput, ClaimError, Job, JobRules, Store, issue_job, claim, claim_row, is_claimable,
  compatible_providers, is_active_agent,
}
use price_monitor.Runs.ClaimNext.{Attempt, NextError, last_conflict, lifted}

-- A claim gives a job, or it throws since no job can be issued for the run that it has chosen.
abbrev pub GivesJob :
    JobRules
    → (Text → Bool)
    → Text
    → Option Text × Store
    → Result ClaimError (Option Job × Store)
    → Type 0
GivesJob rules listed agent (chosen, t) result =
    ((job : Job) × (u : Store) × (result ≡ ok (some job, u)))
    ⊎ ((r : Run) × (e : ClaimError) × (result ≡ err e)
        × (chosen ≡ some r.id)
        × Memᴰ r t.runs
        × (issue_job rules listed agent r (get r.id t.jobs) ≡ err e))

-- A run waits that the agent may take: the agent is enabled, its platform and capabilities fit a provider,
-- and some queued run with an own listing waits that no other agent has taken.
pub record Waits (listed : Text → Bool) (input : ClaimInput) (id : Text) (s : Store) : Type 0 where
  pub agent : Agent
  pub provider : Text
  pub rest : List Text
  pub run : Run
  pub active : find (is_active_agent id) s.agents ≡ some agent
  pub fits : compatible_providers agent.platform input.capabilities ≡ provider ∷ rest
  pub of_table : Memᴰ run s.runs
  pub claimable : is_claimable listed (provider ∷ rest) id run ≡ true

-- Every attempt from one on ends in a conflict.
abbrev pub AllConflict : (ℕ → Attempt) → ℕ → ℕ → Type 0
AllConflict attempts n zero = Unit
AllConflict attempts n (suc left) =
    (Attempt.conflicts (attempts n) ≡ true) × AllConflict attempts (suc n) left

-- What the loop comes to: one of its attempts has no conflict and gives a job, or throws as it must, or
-- each attempt ends in a conflict.
abbrev pub NextGives :
    JobRules
    → (Text → Bool)
    → ClaimInput
    → Text
    → (ℕ → Attempt)
    → ℕ
    → ℕ
    → Result NextError (Option Job × Store)
    → Type 0
NextGives rules listed input id attempts n left result =
    ((k : ℕ) × (k < n + left)
      × (Attempt.conflicts (attempts k) ≡ false)
      × (result
          ≡ lifted
              (claim rules (Attempt.now (attempts k)) listed input id (Attempt.seen (attempts k))))
      × GivesJob rules listed id
          (claim_row (Attempt.now (attempts k)) listed input id (Attempt.seen (attempts k)))
          (claim rules (Attempt.now (attempts k)) listed input id (Attempt.seen (attempts k))))
    ⊎ ((result ≡ err last_conflict) × AllConflict attempts n left)
