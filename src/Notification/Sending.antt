-- ===== src/Notification/Sending.antt =====
-- One run of the notifier, and what its claim keeps others from.
use price_monitor.Prelude.{
  ℕ, ◌+◌, ◌≤◌, ◌<◌, ◌≡◌, refl, sym, ap, ◌∙◌, subst, ◌⊎◌, inl, inr, true, false, Option, none, some,
  List, if◌then◌else◌, Bool-cases, leb, le→leb, lt→ltb, none-ne-some, Text, codes, Result, ok, err,
}
use price_monitor.Notification.{
  BatchState, pending, sending, notified, ambiguous, failed, AlertRow, Store, Claimed,
  PersistenceError, persistence_error, claim_lease, max_attempts, abandon, claim_sending, grant,
  claim_pending, claim_by, is_readable, read_claim, claim_batch, is_leased, is_current,
  complete_attempt, mark_notified, record_failure, record_ambiguous, sweep, Delivery, unconfigured,
  delivered, in_doubt, refused, Circumstances, alerts_notified, alerts_failed, delivery_ambiguous,
}
use price_monitor.Notification.Attempts.{read_claim-eq-ok}

-- The claim that a grant gives.
abbrev pub claim_of : Text → Store → Claimed
claim_of token s = record { token = token; alert_ids = s.batch.alert_ids }

-- The state that a delivery leaves, after so many attempts, with the error and the rows of the alerts.
abbrev pub state_after : Delivery → ℕ → BatchState
state_after delivered n = notified
state_after in_doubt n = ambiguous
state_after _ n = if leb max_attempts n then failed else pending

abbrev pub alerts_after : ℕ → ℕ → Delivery → List Text → List AlertRow → List AlertRow
alerts_after at clock delivered ids rows = alerts_notified at ids rows
alerts_after at clock in_doubt ids rows = alerts_failed clock delivery_ambiguous ids rows
alerts_after at clock refused ids rows =
    alerts_failed clock (codes "WECOM_DELIVERY_FAILED") ids rows
alerts_after at clock unconfigured ids rows =
    alerts_failed clock (codes "WECOM_NOT_CONFIGURED") ids rows

-- The store with the attempt that the run of the notifier claims, and what others have made of it when
-- the outcome is known.
abbrev pub out : Circumstances → Store → Store
out x s = x.meanwhile (grant x.now x.token s).1

-- What is left: the state that the delivery calls for, no token, and the rows of the alerts.
abbrev pub IsSettled : Circumstances → Store → Store → Store → Type 0
IsSettled x s t u =
    (u.batch.state ≡ state_after x.delivery t.batch.attempts)
    × (u.batch.attempts ≡ t.batch.attempts)
    × (u.batch.token ≡ none)
    × (u.alerts ≡ alerts_after x.later x.later_clock x.delivery s.batch.alert_ids t.alerts)

complete_attempt-stale :
    (c : Claimed) (s : Store) (operation : Store → Store)
    → is_current c s.batch ≡ false
    → complete_attempt c operation s ≡ err persistence_error
unfolding complete_attempt
complete_attempt-stale c s operation h = rw h refl

-- What a run of the notifier comes to.
abbrev pub Comes : Circumstances → Store → Result PersistenceError Store → Type 0
Comes x s result =
    ((is_readable s.batch.summary ≡ false) × (result ≡ err persistence_error))
    ⊎ ((is_current (claim_of x.token s) (Store.batch (out x s)) ≡ false)
        × (result ≡ err persistence_error))
    ⊎ ((is_readable s.batch.summary ≡ true)
        × (is_current (claim_of x.token s) (Store.batch (out x s)) ≡ true)
        × ((u : Store) × (result ≡ ok u) × IsSettled x s (out x s) u))

-- A claim that is granted is a grant.
claim_by-some :
    (now clock : ℕ) (token : Text) (s u : Store) (state : BatchState) {c : Claimed}
    → claim_by now clock token s state ≡ (some c, u)
    → grant now token s ≡ (some c, u)
unfolding claim_by claim_sending claim_pending
claim_by-some now clock token s u notified h = absurd (none-ne-some (ap (λ r. r.0) h))
claim_by-some now clock token s u ambiguous h = absurd (none-ne-some (ap (λ r. r.0) h))
claim_by-some now clock token s u failed h = absurd (none-ne-some (ap (λ r. r.0) h))
claim_by-some now clock token s u sending h = elim (Bool-cases (is_leased now s.batch.started_at)) [
  | inl leased ↦ absurd (none-ne-some (ap (λ r. r.0) (rw leased at h)))
  | inr expired ↦ absurd (none-ne-some (ap (λ r. r.0) (rw expired at h)))
]
claim_by-some now clock token s u pending h =
    elim (Bool-cases (leb max_attempts s.batch.attempts)) [
      | inl spent ↦ absurd (none-ne-some (ap (λ r. r.0) (rw spent at h)))
      | inr left ↦ rw left at h
    ]

claim_batch-some :
    (now clock : ℕ) (token : Text) (s u : Store) {c : Claimed}
    → claim_batch now clock token s ≡ ok (some c, u)
    → u ≡ (grant now token s).1
unfolding claim_batch
claim_batch-some now clock token s u h = sym (
    ap (λ (r : Option Claimed × Store). r.1)
      (claim_by-some now clock token s u s.batch.state (read_claim-eq-ok _ _ h)))

-- While an attempt that was granted holds its lease, no other claim is granted and none changes anything.
pub claim_batch-exclusive :
    (now clock next clock' : ℕ) (token other : Text) (s u : Store) {c : Claimed}
    → claim_batch now clock token s ≡ ok (some c, u)
    → next < now + claim_lease
    → claim_batch next clock' other u ≡ ok (none, u)
claim_batch-exclusive now clock next clock' token other s u h leased =
    subst (λ (r : Store). claim_batch next clock' other r ≡ ok (none, r))
      (sym (claim_batch-some now clock token s u h))
      (unfold claim_batch claim_by grant claim_sending read_claim in rw (lt→ltb _ _ leased) refl)

-- What no claim can report: each of the three reports throws.
abbrev pub IsShut : Claimed → ℕ → ℕ → Text → Store → Type 0
IsShut c at clock message t =
    (mark_notified at c t ≡ err persistence_error)
    × (record_failure at clock message c t ≡ err persistence_error)
    × (record_ambiguous at clock c t ≡ err persistence_error)

not_sending-IsShut :
    (c : Claimed) (at clock : ℕ) (message : Text) (t : Store)
    → is_current c t.batch ≡ false
    → IsShut c at clock message t
unfolding mark_notified record_failure record_ambiguous
not_sending-IsShut c at clock message t h =
    (complete_attempt-stale c t _ h, complete_attempt-stale c t _ h, complete_attempt-stale c t _ h)

sweep-granted :
    (now next clock : ℕ) (token : Text) (s : Store)
    → now + claim_lease ≤ next
    → sweep next clock (grant now token s).1 ≡ abandon clock (grant now token s).1
unfolding sweep grant
sweep-granted now next clock token s late = rw (le→leb _ _ late) refl

-- Once the lease of a granted attempt has run out and the attempt is swept up, the batch is in doubt, and
-- no claim, that of the attempt's holder included, can report anything any more: that the message was
-- delivered, that it failed, or that it is in doubt, each report throws.
pub sweep-IsShut :
    (now clock next clock' at later : ℕ) (token message : Text) (s u : Store) (c d : Claimed)
    → claim_batch now clock token s ≡ ok (some c, u)
    → now + claim_lease ≤ next
    → ((sweep next clock' u).batch.state ≡ ambiguous)
      × IsShut d at later message (sweep next clock' u)
sweep-IsShut now clock next clock' at later token message s u c d h late =
    subst (λ (t : Store). (t.batch.state ≡ ambiguous) × IsShut d at later message t)
      (sym (
        ap (sweep next clock') (claim_batch-some now clock token s u h)
        ∙ sweep-granted now next clock' token s late))
      (unfold abandon in
        (refl, not_sending-IsShut d at later message _ (unfold is_current in refl)))
