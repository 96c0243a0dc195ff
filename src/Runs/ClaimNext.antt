-- ===== src/Runs/ClaimNext.antt =====
-- apps/api/src/collector-agent/prisma-collector-agent.repository.ts: the retries of `claimNext` around the
-- transaction of a claim. What others do between the attempts is in what each attempt sees.
use price_monitor.Prelude.{ℕ, zero, suc, Bool, Option, none, if◌then◌else◌, Text, Result, ok, err}
use price_monitor.Runs.Agent.{ClaimInput, ClaimError, Job, JobRules, Store, claim}

-- One attempt: whether its transaction ends in a serializable conflict, its time, and what it sees.
pub record Attempt : Type 0 where
  pub conflicts : Bool
  pub now : ℕ
  pub seen : Store

-- What the operation throws: the error of the transaction, or the last conflict.
pub data NextError : Type 0 where
  thrown : ClaimError → NextError
  last_conflict : NextError

-- `maximumClaimAttempts`.
abbrev pub maximum_claims : ℕ
maximum_claims = 5

abbrev pub lifted : Result ClaimError (Option Job × Store) → Result NextError (Option Job × Store)
lifted (ok r) = ok r
lifted (err e) = err (thrown e)

abbrev pub after_conflict :
    ℕ → Result NextError (Option Job × Store) → Result NextError (Option Job × Store)
after_conflict zero next = err last_conflict
after_conflict (suc left) next = next

-- The loop, from the attempt with the given number on, with the attempts that are left, and `return null`
-- behind it.
unfoldable pub claim_from :
    JobRules
    → (Text → Bool)
    → ClaimInput
    → Text
    → (ℕ → Attempt)
    → ℕ
    → ℕ
    → Result NextError (Option Job × Store)
claim_from rules listed input id attempts n zero = ok (none, Attempt.seen (attempts n))
claim_from rules listed input id attempts n (suc left) =
    let next = claim_from rules listed input id attempts (suc n) left in
    let a : Attempt = attempts n in
    if a.conflicts
    then after_conflict left next
    else lifted (claim rules a.now listed input id a.seen)

-- `claimNext`.
unfoldable pub claim_next :
    JobRules
    → (Text → Bool)
    → ClaimInput
    → Text
    → (ℕ → Attempt)
    → Result NextError (Option Job × Store)
claim_next rules listed input id attempts =
    claim_from rules listed input id attempts 0 maximum_claims
