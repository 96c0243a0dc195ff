-- ===== src/Runs/Enqueue.antt =====
-- What `enqueueModelNow` tells its caller, over all that the retries meet.
use price_monitor.Prelude.{
  ℕ, zero, suc, ◌≡◌, refl, ◌⊎◌, inl, inr, Bool, true, Option, none, some, List, find-eq-some,
  Bool-cases, All-Memᴰ, Text, Result, ok, err, ◌>>=◌,
}
use price_monitor.Runs.{Run, Table, is_coalesced, desktop_provider}
use price_monitor.Runs.Queue.{
  Model, Request, Created, in_slot, create_or_coalesce, is_enabled_model, returned_id,
  is_valid_limit,
}
use price_monitor.Runs.Retries.{
  Round, RetryError, last_refusal, maximum_attempts, same_slot, attempted, after_refusal,
  create_from, create_retrying, require_id, enqueue_model_now,
}
use price_monitor.Runs.Invariant.{count, has_id, IsTarget, IsValid}
use price_monitor.Runs.Creation.{
  IsTold, in_slot-eq_true, same_slot-IsTold, create_unlocked-IsTold, create_unlocked-IsValid,
}
use price_monitor.Runs.Answers.{Answers, AllRefused, create_retrying-Answers}

-- The tables that a round sees are valid, and the id of a new row is fresh.
abbrev pub IsSoundRound : Round → Type 0
IsSoundRound r = (count (has_id r.defaults.id) r.seen ≡ 0) × IsValid r.seen × IsValid r.later

abbrev Tells : Text → Result RetryError Created → Type 0
Tells model (ok c) = IsTold c.table model (returned_id c) × IsValid c.table
Tells model (err e) = Unit

-- A run that is found in the slot after a refusal.
found-Tells :
    (request : Request) (t : Table) (r : Run)
    → same_slot request t ≡ some r
    → IsValid t
    → Tells request.model (ok (record { run = r; coalesced = is_coalesced r.status; table = t }))
unfolding same_slot
found-Tells request t r e v =
    let (m, h) = find-eq-some (in_slot request.model desktop_provider request.scheduled_for) t e in
    (same_slot-IsTold request t r m (in_slot-eq_true _ _ _ r h).0 (All-Memᴰ _ m v.linked), v)

-- A transaction that is not refused.
committed-Tells :
    (models : List Model) (request : Request) (r : Round)
    → is_enabled_model models request.model ≡ true
    → IsSoundRound r
    → Tells request.model (attempted (create_or_coalesce models request r.defaults r.seen))
unfolding create_or_coalesce
committed-Tells models request r h (fresh, v, w) = rw h (
  create_unlocked-IsTold request r.defaults r.seen _ refl v,
  create_unlocked-IsValid request r.defaults r.seen _ refl fresh v,
)

after_refusal-Tells :
    (request : Request) (left : ℕ) (later : Table) (o : Option Run)
    (next : Result RetryError Created)
    → same_slot request later ≡ o
    → IsValid later
    → Tells request.model next
    → Tells request.model (after_refusal left later o next)
after_refusal-Tells request left later (some r) next e v h = found-Tells request later r e v
after_refusal-Tells request zero later none next e v h = tt
after_refusal-Tells request (suc left) later none next e v h = h

create_from-Tells :
    (models : List Model) (request : Request) (rounds : ℕ → Round) (attempt left : ℕ)
    → is_enabled_model models request.model ≡ true
    → ((n : ℕ) → IsSoundRound (rounds n))
    → Tells request.model (create_from models request rounds attempt left)
unfolding create_from
create_from-Tells models request rounds attempt zero h sound = tt
create_from-Tells models request rounds attempt (suc left) h sound =
    elim (Bool-cases (Round.refused (rounds attempt))) [
      | inr miss ↦ rw miss (committed-Tells models request (rounds attempt) h (sound attempt))
      | inl hit ↦
          (let (fresh, v, w) = sound attempt in
            rw hit (
              after_refusal-Tells request left (Round.later (rounds attempt)) _ _ refl w
                (create_from-Tells models request rounds (suc attempt) left h sound)))
    ]

-- A request is answered, or the last refusal is thrown.
abbrev pub IsAnswered : Request → (ℕ → Round) → Result RetryError (Text × Bool × Table) → Type 0
IsAnswered request rounds result =
    ((id : Text) × (joined : Bool) × (u : Table) × (result ≡ ok (id, joined, u))
      × IsTarget u request.model id
      × IsValid u)
    ⊎ ((result ≡ err last_refusal) × AllRefused request rounds 0 maximum_attempts)

require_id-IsAnswered :
    (request : Request) (rounds : ℕ → Round) (created : Result RetryError Created)
    → Answers request rounds 0 maximum_attempts created
    → Tells request.model created
    → IsAnswered request rounds (created >>= λ (c : Created). require_id c (returned_id c))
require_id-IsAnswered request rounds created (inr (e, all)) h = inr (rw e refl, all)
require_id-IsAnswered request rounds (ok c) (inl (d, e, answer)) ((id, told, target), v) =
    inl (id, c.coalesced, c.table, rw told refl, target, v)
require_id-IsAnswered request rounds (err reason) (inl (d, e, answer)) h = cc

-- A request for an enabled model with a limit from 1 to 50, where each table that its attempts see is valid
-- and each new row's id is fresh, is answered, or all five attempts were refused and none of them found a
-- run in the slot, and then the last refusal is thrown. The answer's table is valid, and the run that the
-- answer names is in it, of that model, and no coalesced one: the missing of an active run is never an
-- error.
pub enqueue_model_now-IsAnswered :
    (models : List Model) (request : Request) (rounds : ℕ → Round)
    → is_valid_limit request.search_limit ≡ true
    → is_enabled_model models request.model ≡ true
    → ((n : ℕ) → IsSoundRound (rounds n))
    → IsAnswered request rounds (enqueue_model_now models request rounds)
unfolding enqueue_model_now create_retrying
enqueue_model_now-IsAnswered models request rounds limit enabled sound =
    rw (limit, enabled)
      (require_id-IsAnswered request rounds _
        (unfold create_retrying in create_retrying-Answers models request rounds enabled)
        (create_from-Tells models request rounds 0 maximum_attempts enabled sound))
