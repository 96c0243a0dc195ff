-- ===== src/Notification/Attempts.antt =====
-- The attempts to deliver a batch, over all sequences of the repository's transactions.
use price_monitor.Prelude.{
  ℕ, ◌+◌, ◌≤◌, ◌<◌, ◌≡◌, refl, sym, ap, ◌∙◌, subst, inl, inr, Bool, true, false, ◌&&◌, Option, none,
  some, arith, leb, Bool-cases, Text, ok, ok-injective,
}
use price_monitor.Notification.{
  BatchState, pending, sending, notified, ambiguous, failed, Batch, Store, Claimed, is_sending,
  is_leased, max_attempts, abandon, claim_sending, grant, give_up, claim_pending, claim_by, Summary,
  is_readable, read_claim, claim_batch, is_current, complete_attempt, settle_notified,
  settle_failed, settle_ambiguous, mark_notified, record_failure, record_ambiguous, sweep,
  is_expired,
}

abbrev pub absent {ℓ} : {A : Type ℓ} → Option A → Bool
absent none = true
absent (some a) = false

-- By its state: an attempt that is being sent has a token and a start, and no other state has a token;
-- a batch that waits has an attempt left.
abbrev pub Fits : BatchState → Batch → Type 0
Fits pending b = (b.token ≡ none) × (b.attempts < max_attempts)
Fits sending b =
    (absent b.token ≡ false) × (absent b.started_at ≡ false) × (b.attempts ≤ max_attempts)
Fits notified b = (b.token ≡ none) × (absent b.notified_at ≡ false) × (b.attempts ≤ max_attempts)
Fits ambiguous b = (b.token ≡ none) × (b.attempts ≤ max_attempts)
Fits failed b = (b.token ≡ none) × (b.attempts ≤ max_attempts)

abbrev pub IsSound : Batch → Type 0
IsSound b = Fits b.state b

abbrev pub granted : Option Claimed → ℕ
granted none = 0
granted (some c) = 1

-- One transaction, with the number of claims that it grants.
pub data Step : Store → Store → ℕ → Type 0 where
  claims :
      (now clock : ℕ) (token : Text) (s u : Store) (c : Option Claimed)
      → claim_batch now clock token s ≡ ok (c, u)
      → Step s u (granted c)
  notifies : (at : ℕ) (c : Claimed) (s u : Store) → mark_notified at c s ≡ ok u → Step s u 0
  fails :
      (at clock : ℕ) (message : Text) (c : Claimed) (s u : Store)
      → record_failure at clock message c s ≡ ok u
      → Step s u 0
  doubts :
      (at clock : ℕ) (c : Claimed) (s u : Store) → record_ambiguous at clock c s ≡ ok u → Step s u 0
  sweeps : (now clock : ℕ) (s : Store) → Step s (sweep now clock s) 0

pub data Trace : Store → Store → ℕ → Type 0 where
  stays : (s : Store) → Trace s s 0
  goes : (s u v : Store) (m n : ℕ) → Step s u m → Trace u v n → Trace s v (m + n)

-- What a transaction does to a sound batch: it stays sound, and the count of attempts rises by the
-- claims that are granted.
abbrev Counts : Batch → Batch → ℕ → Type 0
Counts b c n = IsSound c × (c.attempts ≡ b.attempts + n)

IsSound-attempts : (b : Batch) → IsSound b → b.attempts ≤ max_attempts
IsSound-attempts b h = go b.state h
  where
    go : (s : BatchState) → Fits s b → b.attempts ≤ max_attempts
    go pending (h, k) = omega arith
    go sending (h, j, k) = k
    go notified (h, j, k) = k
    go ambiguous (h, k) = k
    go failed (h, k) = k

claim_by-Counts :
    (now clock : ℕ) (token : Text) (s : Store) (state : BatchState)
    → s.batch.state ≡ state
    → IsSound s.batch
    → Counts s.batch
        (claim_by now clock token s state).1.batch
        (granted (claim_by now clock token s state).0)
unfolding claim_by claim_pending grant give_up claim_sending abandon
claim_by-Counts now clock token s notified e h = (h, omega arith)
claim_by-Counts now clock token s ambiguous e h = (h, omega arith)
claim_by-Counts now clock token s failed e h = (h, omega arith)
claim_by-Counts now clock token s sending e h =
    elim (Bool-cases (is_leased now s.batch.started_at)) [
      | inl leased ↦ rw leased (h, omega arith)
      | inr expired ↦ rw expired ((refl, IsSound-attempts s.batch h), omega arith)
    ]
claim_by-Counts now clock token s pending e h =
    elim (Bool-cases (leb max_attempts s.batch.attempts)) [
      | inl spent ↦ rw spent ((refl, IsSound-attempts s.batch h), omega arith)
      | inr left ↦ rw left ((refl, refl, ground arith), omega arith)
    ]

-- A claim that is not taken back.
pub read_claim-eq-ok :
    (summary : Summary) (r : Option Claimed × Store) {q : Option Claimed × Store}
    → read_claim summary r ≡ ok q
    → r ≡ q
unfolding read_claim
read_claim-eq-ok summary (none, s) h = ok-injective h
read_claim-eq-ok summary (some c, s) h = elim (Bool-cases (is_readable summary)) [
  | inl fine ↦ ok-injective (rw fine at h)
  | inr broken ↦ cc (rw broken at h)
]

complete_attempt-eq-ok :
    (c : Claimed) (operation : Store → Store) (s : Store) {u : Store}
    → complete_attempt c operation s ≡ ok u
    → (is_current c s.batch ≡ true) × (operation s ≡ u)
unfolding complete_attempt
complete_attempt-eq-ok c operation s h = elim (Bool-cases (is_current c s.batch)) [
  | inl current ↦ (current, ok-injective (rw current at h))
  | inr stale ↦ cc (rw stale at h)
]

settle_notified-Counts :
    (at : ℕ) (c : Claimed) (s : Store)
    → IsSound s.batch
    → Counts s.batch (settle_notified at c s).batch 0
unfolding settle_notified
settle_notified-Counts at c s h = ((refl, refl, IsSound-attempts s.batch h), omega arith)

settle_failed-Counts :
    (at clock : ℕ) (message : Text) (c : Claimed) (s : Store)
    → IsSound s.batch
    → Counts s.batch (settle_failed at clock message c s).batch 0
unfolding settle_failed
settle_failed-Counts at clock message c s h =
    elim (Bool-cases (leb max_attempts s.batch.attempts)) [
      | inl spent ↦ rw spent ((refl, IsSound-attempts s.batch h), omega arith)
      | inr left ↦ rw left ((refl, ground arith), omega arith)
    ]

settle_ambiguous-Counts :
    (at clock : ℕ) (c : Claimed) (s : Store)
    → IsSound s.batch
    → Counts s.batch (settle_ambiguous at clock c s).batch 0
unfolding settle_ambiguous
settle_ambiguous-Counts at clock c s h = ((refl, IsSound-attempts s.batch h), omega arith)

complete_attempt-Counts :
    (c : Claimed) (operation : Store → Store) (s : Store) {u : Store}
    → complete_attempt c operation s ≡ ok u
    → Counts s.batch (operation s).batch 0
    → Counts s.batch u.batch 0
complete_attempt-Counts c operation s h k =
    subst (λ (v : Store). Counts s.batch v.batch 0) (complete_attempt-eq-ok c operation s h).1 k

sweep-Counts :
    (now clock : ℕ) (s : Store) → IsSound s.batch → Counts s.batch (sweep now clock s).batch 0
unfolding sweep abandon
sweep-Counts now clock s h =
    elim (Bool-cases (is_sending s.batch.state && is_expired now s.batch.started_at)) [
      | inl expired ↦ rw expired ((refl, IsSound-attempts s.batch h), omega arith)
      | inr other ↦ rw other (h, omega arith)
    ]

pub Step-Counts : {s u : Store} {n : ℕ} → Step s u n → IsSound s.batch → Counts s.batch u.batch n
unfolding claim_batch mark_notified record_failure record_ambiguous
Step-Counts (Step.claims now clock token s u c e) h =
    subst (λ (r : Option Claimed × Store). Counts s.batch r.1.batch (granted r.0))
      (read_claim-eq-ok _ _ e) (claim_by-Counts now clock token s s.batch.state refl h)
Step-Counts (Step.notifies at c s u e) h =
    complete_attempt-Counts c _ s e (settle_notified-Counts at c s h)
Step-Counts (Step.fails at clock message c s u e) h =
    complete_attempt-Counts c _ s e (settle_failed-Counts at clock message c s h)
Step-Counts (Step.doubts at clock c s u e) h =
    complete_attempt-Counts c _ s e (settle_ambiguous-Counts at clock c s h)
Step-Counts (Step.sweeps now clock s) h = sweep-Counts now clock s h

Trace-Counts : {s u : Store} {n : ℕ} → Trace s u n → IsSound s.batch → Counts s.batch u.batch n
Trace-Counts (Trace.stays s) h = (h, omega arith)
Trace-Counts (Trace.goes s u v m n step rest) h =
    let (sound, first) = Step-Counts step h in
    let (sound', others) = Trace-Counts rest sound in (sound', omega arith)

-- Over any sequence of transactions on a sound batch the batch stays sound, its count of attempts rises
-- by one for each claim that is granted, and no more than two claims are granted in all.
pub Trace-attempts :
    {s u : Store} {n : ℕ}
    → Trace s u n
    → IsSound s.batch
    → IsSound u.batch × (u.batch.attempts ≡ s.batch.attempts + n) × (n ≤ max_attempts)
Trace-attempts {s} {u} trace h =
    let (sound, total) = Trace-Counts trace h in
    let bound = IsSound-attempts u.batch sound in (sound, total, omega arith)

abbrev pub is_final : BatchState → Bool
is_final notified = true
is_final ambiguous = true
is_final failed = true
is_final _ = false

is_final→not_sending : (s : BatchState) → is_final s ≡ true → is_sending s ≡ false
is_final→not_sending s h = ground arith

claim_by-final :
    (now clock : ℕ) (token : Text) (s : Store) (state : BatchState)
    → is_final state ≡ true
    → (claim_by now clock token s state).1 ≡ s
unfolding claim_by
claim_by-final now clock token s notified h = refl
claim_by-final now clock token s ambiguous h = refl
claim_by-final now clock token s failed h = refl
claim_by-final now clock token s sending h = cc
claim_by-final now clock token s pending h = cc

is_current-final : (c : Claimed) (b : Batch) → is_final b.state ≡ true → is_current c b ≡ false
unfolding is_current
is_current-final c b h = rw (is_final→not_sending b.state h)

complete_attempt-final :
    (c : Claimed) (operation : Store → Store) (s : Store) {u : Store}
    → is_final s.batch.state ≡ true
    → complete_attempt c operation s ≡ ok u
    → u ≡ s
unfolding complete_attempt
complete_attempt-final c operation s h e = cc (rw (is_current-final c s.batch h) at e)

-- A batch that has been notified, given up or left in doubt is final: no transaction changes it or the
-- rows of the alerts.
pub Step-final : {s u : Store} {n : ℕ} → Step s u n → is_final s.batch.state ≡ true → u ≡ s
unfolding claim_batch mark_notified record_failure record_ambiguous sweep
Step-final (Step.claims now clock token s u c e) h =
    sym (ap (λ (r : Option Claimed × Store). r.1) (read_claim-eq-ok _ _ e))
    ∙ claim_by-final now clock token s s.batch.state h
Step-final (Step.notifies at c s u e) h = complete_attempt-final c _ s h e
Step-final (Step.fails at clock message c s u e) h = complete_attempt-final c _ s h e
Step-final (Step.doubts at clock c s u e) h = complete_attempt-final c _ s h e
Step-final (Step.sweeps now clock s) h = rw (is_final→not_sending s.batch.state h)
