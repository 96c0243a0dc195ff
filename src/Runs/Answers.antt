-- ===== src/Runs/Answers.antt =====
-- What the retries of `createOrCoalesce` answer.
use mathlib.Core.List.{Memᴰ}
use price_monitor.Prelude.{
  ℕ, zero, suc, ◌≡◌, refl, ◌⊎◌, inl, inr, true, false, Option, none, some, List, find-eq-some,
  Bool-cases, Option-cases, text_eq, text_eq_refl, Result, ok, err, ◌==◌, arith,
}
use price_monitor.Runs.{Run, Table, is_coalesced, desktop_provider}
use price_monitor.Runs.Queue.{
  Model, Request, Defaults, Created, in_slot, active_run, new_run, insert_run, create_unlocked,
  is_enabled_model, create_or_coalesce,
}
use price_monitor.Runs.Retries.{
  Round, RetryError, last_refusal, maximum_attempts, same_slot, attempted, create_from,
  create_retrying,
}

-- The run that is returned stands in the slot of the request, in the table that the answer is from.
pub record IsAnswer (request : Request) (c : Created) : Type 0 where
  pub of_table : Memᴰ c.run c.table
  pub of_slot : in_slot request.model desktop_provider request.scheduled_for c.run ≡ true
  pub told : c.coalesced ≡ is_coalesced c.run.status

same_number : (n : ℕ) → (n == n) ≡ true
same_number n = ground arith

new_run-in_slot :
    (request : Request) (defaults : Defaults) (active : Option Run)
    → in_slot request.model desktop_provider request.scheduled_for (new_run request defaults active)
      ≡ true
unfolding new_run in_slot text_eq
new_run-in_slot request defaults active =
    rw (text_eq_refl request.model, same_number request.scheduled_for)

insert_run-IsAnswer :
    (request : Request) (defaults : Defaults) (t : Table) (active : Option Run)
    → IsAnswer request (insert_run request defaults t active)
unfolding insert_run
insert_run-IsAnswer request defaults t active = record {
  of_table = Memᴰ.head refl;
  of_slot = new_run-in_slot request defaults active;
  told = told active;
}
  where
    told :
        (a : Option Run)
        → (insert_run request defaults t a).coalesced
          ≡ is_coalesced (new_run request defaults a).status
    told none = unfold insert_run new_run in refl
    told (some r) = unfold insert_run new_run in refl

create_unlocked-IsAnswer :
    (request : Request) (defaults : Defaults) (t : Table) (o : Option Run)
    → same_slot request t ≡ o
    → IsAnswer request (create_unlocked request defaults t o)
unfolding create_unlocked same_slot
create_unlocked-IsAnswer request defaults t none e =
    insert_run-IsAnswer request defaults t (active_run request.model t)
create_unlocked-IsAnswer request defaults t (some r) e =
    let (m, h) = find-eq-some (in_slot request.model desktop_provider request.scheduled_for) t e in
    record { of_table = m; of_slot = h; told = refl }

-- Every attempt from one on is refused, and none finds the slot.
abbrev pub AllRefused : Request → (ℕ → Round) → ℕ → ℕ → Type 0
AllRefused request rounds attempt zero = Unit
AllRefused request rounds attempt (suc left) =
    (Round.refused (rounds attempt) ≡ true)
    × (same_slot request (Round.later (rounds attempt)) ≡ none)
    × AllRefused request rounds (suc attempt) left

-- What the loop gives.
abbrev pub Answers : Request → (ℕ → Round) → ℕ → ℕ → Result RetryError Created → Type 0
Answers request rounds attempt left result =
    ((c : Created) × (result ≡ ok c) × IsAnswer request c)
    ⊎ ((result ≡ err last_refusal) × AllRefused request rounds attempt left)

found-IsAnswer :
    (request : Request) (t : Table) (r : Run)
    → same_slot request t ≡ some r
    → IsAnswer request (record { run = r; coalesced = is_coalesced r.status; table = t })
unfolding same_slot
found-IsAnswer request t r e =
    let (m, h) = find-eq-some (in_slot request.model desktop_provider request.scheduled_for) t e in
    record { of_table = m; of_slot = h; told = refl }

committed-IsAnswer :
    (models : List Model) (request : Request) (r : Round)
    → is_enabled_model models request.model ≡ true
    → (c : Created) × (attempted (create_or_coalesce models request r.defaults r.seen) ≡ ok c)
      × IsAnswer request c
unfolding create_or_coalesce same_slot
committed-IsAnswer models request r h = (
  create_unlocked request r.defaults r.seen (same_slot request r.seen),
  rw h refl,
  create_unlocked-IsAnswer request r.defaults r.seen _ refl,
)

-- One round, from what the rounds behind it give.
module _ (models : List Model) (request : Request) (rounds : ℕ → Round) (attempt : ℕ) where
  abbrev this : Round
  this = rounds attempt

  create_from-Answers_found :
      (left : ℕ) (r : Run)
      → this.refused ≡ true
      → same_slot request this.later ≡ some r
      → Answers request rounds attempt
          (suc left)
          (create_from models request rounds attempt (suc left))
  unfolding create_from
  create_from-Answers_found left r hit e = inl (
    record { run = r; coalesced = is_coalesced r.status; table = this.later },
    rw (hit, e) refl,
    found-IsAnswer request this.later r e,
  )

  create_from-Answers_committed :
      (left : ℕ) (c : Created)
      → this.refused ≡ false
      → attempted (create_or_coalesce models request this.defaults this.seen) ≡ ok c
      → IsAnswer request c
      → Answers request rounds attempt
          (suc left)
          (create_from models request rounds attempt (suc left))
  unfolding create_from
  create_from-Answers_committed left c miss e a = inl (c, rw miss e, a)

  create_from-Answers_last :
      this.refused ≡ true
      → same_slot request this.later ≡ none
      → Answers request rounds attempt 1 (create_from models request rounds attempt 1)
  unfolding create_from
  create_from-Answers_last hit e = inr (rw (hit, e) refl, (hit, e, tt))

  create_from-Answers_next :
      (left : ℕ)
      → this.refused ≡ true
      → same_slot request this.later ≡ none
      → Answers request rounds
          (suc attempt)
          (suc left)
          (create_from models request rounds (suc attempt) (suc left))
      → Answers request rounds attempt
          (suc (suc left))
          (create_from models request rounds attempt (suc (suc left)))
  unfolding create_from
  create_from-Answers_next left hit e (inl (c, f, a)) = inl (c, rw (hit, e) f, a)
  create_from-Answers_next left hit e (inr (f, all)) = inr (rw (hit, e) f, (hit, e, all))

-- A round that was not refused ends the loop.
create_from-Answers_miss :
    (models : List Model) (request : Request) (rounds : ℕ → Round) (attempt left : ℕ)
    → is_enabled_model models request.model ≡ true
    → Round.refused (rounds attempt) ≡ false
    → Answers request rounds attempt
        (suc left)
        (create_from models request rounds attempt (suc left))
create_from-Answers_miss models request rounds attempt left h miss =
    let (c, e, a) = committed-IsAnswer models request (rounds attempt) h in
    create_from-Answers_committed models request rounds attempt left c miss e a

create_from-Answers :
    (models : List Model) (request : Request) (rounds : ℕ → Round) (attempt left : ℕ)
    → is_enabled_model models request.model ≡ true
    → Answers request rounds attempt
        (suc left)
        (create_from models request rounds attempt (suc left))
create_from-Answers models request rounds attempt zero h =
    elim (Bool-cases (Round.refused (rounds attempt))) [
      | inr miss ↦ create_from-Answers_miss models request rounds attempt zero h miss
      | inl hit ↦ elim (Option-cases (same_slot request (Round.later (rounds attempt)))) [
        | inr (r, e) ↦ create_from-Answers_found models request rounds attempt zero r hit e
        | inl e ↦ create_from-Answers_last models request rounds attempt hit e
      ]
    ]
create_from-Answers models request rounds attempt (suc left) h =
    elim (Bool-cases (Round.refused (rounds attempt))) [
      | inr miss ↦ create_from-Answers_miss models request rounds attempt (suc left) h miss
      | inl hit ↦ elim (Option-cases (same_slot request (Round.later (rounds attempt)))) [
        | inr (r, e) ↦ create_from-Answers_found models request rounds attempt (suc left) r hit e
        | inl e ↦
            create_from-Answers_next models request rounds attempt left hit e
              (create_from-Answers models request rounds (suc attempt) left h)
      ]
    ]

-- The creation of a run for an enabled model ends after at most five attempts, whatever other callers do
-- to the table. It gives a run that stands in the slot of the request, in the table that it was read
-- from or written to, and says whether that run is a coalesced one; or all five attempts were refused
-- and none of them found a run in the slot, and then the last refusal is thrown.
pub create_retrying-Answers :
    (models : List Model) (request : Request) (rounds : ℕ → Round)
    → is_enabled_model models request.model ≡ true
    → Answers request rounds 0 maximum_attempts (create_retrying models request rounds)
unfolding create_retrying
create_retrying-Answers models request rounds h = create_from-Answers models request rounds 0 4 h
