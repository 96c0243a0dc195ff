-- ===== src/Notification.antt =====
-- The message that tells the operator of a run's alerts:
-- apps/api/src/alerts/prisma-run-alert-notification.repository.ts, the rows of the alerts in
-- apps/api/src/alerts/prisma-alert.repository.ts, and apps/api/src/alerts/run-alert-notifier.ts.
pub mod Attempts
pub mod Sending
pub mod Tests
use price_monitor.Prelude.{
  ℕ, suc, ◌+◌, Bool, true, false, not, ◌&&◌, ◌||◌, Option, none, some, List, [], ◌∷◌, map, any, all,
  is_empty, ltb, leb, if◌then◌else◌, Text, codes, text_eq, Result, ok, err, ◌>>=◌,
}

pub data BatchState : Type 0 where
  pending sending notified ambiguous failed : BatchState

-- The stored summary, by what `runAlertSummaryFromJson` asks of it: whether its schema accepts the value,
-- whether the value has a baseline, and for each alert whether it has all of its own snapshot's fields.
pub record Summary : Type 0 where
  pub accepted : Bool
  pub has_baseline : Bool
  pub complete_alerts : List Bool

-- `RunAlertNotificationBatch`.
pub record Batch : Type 0 where
  pub alert_ids : List Text
  pub state : BatchState
  pub token : Option Text
  pub started_at : Option ℕ
  pub attempts : ℕ
  pub error : Option Text
  pub last_attempt_at : Option ℕ
  pub notified_at : Option ℕ
  pub summary : Summary

-- What the two updates of `PrismaAlertRepository` write of an alert.
pub record AlertRow : Type 0 where
  pub id : Text
  pub attempts : ℕ
  pub error : Option Text
  pub last_attempt_at : Option ℕ
  pub notified_at : Option ℕ

-- The batch of one run, and the alerts.
pub record Store : Type 0 where
  pub batch : Batch
  pub alerts : List AlertRow

-- `ClaimedRunAlertBatch`.
pub record Claimed : Type 0 where
  pub token : Text
  pub alert_ids : List Text

-- `RunAlertNotificationPersistenceError`.
pub data PersistenceError : Type 0 where
  persistence_error : PersistenceError

-- `CLAIM_LEASE_MILLISECONDS`.
abbrev pub claim_lease : ℕ
claim_lease = 300000

-- `MAX_BATCH_DELIVERY_ATTEMPTS`.
abbrev pub max_attempts : ℕ
max_attempts = 2

abbrev pub delivery_ambiguous : Text
delivery_ambiguous = codes "WECOM_DELIVERY_AMBIGUOUS"

abbrev pub is_sending : BatchState → Bool
is_sending sending = true
is_sending _ = false

-- `sameIds`.
unfoldable pub same_ids : List Text → List Text → Bool
same_ids [] [] = true
same_ids [] (y ∷ ys) = false
same_ids (x ∷ xs) [] = false
same_ids (x ∷ xs) (y ∷ ys) = text_eq x y && same_ids xs ys

unfoldable pub update_alerts : (AlertRow → AlertRow) → List Text → List AlertRow → List AlertRow
update_alerts change ids rows =
    map (λ (r : AlertRow). if any (text_eq r.id) ids then change r else r) rows

-- `PrismaAlertRepository.markBatchNotified`.
unfoldable pub alerts_notified : ℕ → List Text → List AlertRow → List AlertRow
alerts_notified at ids rows =
    update_alerts
      (λ r. record {
        id = r.id;
        attempts = suc r.attempts;
        error = none;
        last_attempt_at = some at;
        notified_at = some at;
      })
      ids rows

-- `PrismaAlertRepository.recordBatchNotificationFailure`.
unfoldable pub alerts_failed : ℕ → Text → List Text → List AlertRow → List AlertRow
alerts_failed now message ids rows =
    update_alerts
      (λ r. record {
        id = r.id;
        attempts = suc r.attempts;
        error = some message;
        last_attempt_at = some now;
        notified_at = r.notified_at;
      })
      ids rows

-- An attempt that is given up, with the clock that the rows of the alerts get: nobody knows whether the message went out.
unfoldable pub abandon : ℕ → Store → Store
abandon clock s = record {
  batch = record s.batch {
    state = ambiguous;
    token = none;
    started_at = none;
    error = some delivery_ambiguous;
  };
  alerts = alerts_failed clock delivery_ambiguous s.batch.alert_ids s.alerts;
}

-- The lease of an attempt that is being sent: `attemptStartedAt > attemptedAt - CLAIM_LEASE`.
abbrev pub is_leased : ℕ → Option ℕ → Bool
is_leased now none = false
is_leased now (some at) = ltb now (at + claim_lease)

unfoldable pub claim_sending : ℕ → ℕ → Store → Option Claimed × Store
claim_sending now clock s =
    if is_leased now s.batch.started_at then (none, s) else (none, abandon clock s)

unfoldable pub grant : ℕ → Text → Store → Option Claimed × Store
grant now token s = (
  some (record { token = token; alert_ids = s.batch.alert_ids }),
  record s {
    batch = record s.batch {
      state = sending;
      token = some token;
      started_at = some now;
      attempts = suc s.batch.attempts;
      last_attempt_at = some now;
    };
  },
)

unfoldable pub give_up : Store → Store
give_up s = record s { batch = record s.batch { state = failed; token = none; started_at = none } }

unfoldable pub claim_pending : ℕ → Text → Store → Option Claimed × Store
claim_pending now token s =
    if leb max_attempts s.batch.attempts then (none, give_up s) else grant now token s

unfoldable pub claim_by : ℕ → ℕ → Text → Store → BatchState → Option Claimed × Store
claim_by now clock token s notified = (none, s)
claim_by now clock token s ambiguous = (none, s)
claim_by now clock token s failed = (none, s)
claim_by now clock token s sending = claim_sending now clock s
claim_by now clock token s pending = claim_pending now token s

-- Whether `runAlertSummaryFromJson` reads the summary: an alert without its own fields wants a baseline.
unfoldable pub is_readable : Summary → Bool
is_readable s = s.accepted && (s.has_baseline || all (λ b. b) s.complete_alerts)

-- The result of a claim, which holds the summary: where it cannot be read all is taken back.
unfoldable pub read_claim :
    Summary → Option Claimed × Store → Result PersistenceError (Option Claimed × Store)
read_claim summary (none, s) = ok (none, s)
read_claim summary (some c, s) =
    if is_readable summary then ok (some c, s) else err persistence_error

-- `claimBatch`, with the token that `randomUUID` gives and the clock at the update of the alerts.
unfoldable pub claim_batch : ℕ → ℕ → Text → Store → Result PersistenceError (Option Claimed × Store)
claim_batch now clock token s =
    read_claim s.batch.summary (claim_by now clock token s s.batch.state)

abbrev pub is_token : Text → Option Text → Bool
is_token t none = false
is_token t (some s) = text_eq s t

unfoldable pub is_current : Claimed → Batch → Bool
is_current c b =
    is_sending b.state && (is_token c.token b.token && same_ids b.alert_ids c.alert_ids)

-- `completeAttempt`.
unfoldable pub complete_attempt : Claimed → (Store → Store) → Store → Result PersistenceError Store
complete_attempt c operation s =
    if is_current c s.batch then ok (operation s) else err persistence_error

unfoldable pub settle_notified : ℕ → Claimed → Store → Store
settle_notified at c s = record {
  batch = record s.batch {
    state = notified;
    token = none;
    started_at = none;
    error = none;
    last_attempt_at = some at;
    notified_at = some at;
  };
  alerts = alerts_notified at c.alert_ids s.alerts;
}

unfoldable pub settle_failed : ℕ → ℕ → Text → Claimed → Store → Store
settle_failed at clock message c s = record {
  batch = record s.batch {
    state = if leb max_attempts s.batch.attempts then failed else pending;
    token = none;
    started_at = none;
    error = some message;
    last_attempt_at = some at;
  };
  alerts = alerts_failed clock message c.alert_ids s.alerts;
}

unfoldable pub settle_ambiguous : ℕ → ℕ → Claimed → Store → Store
settle_ambiguous at clock c s = record {
  batch = record s.batch {
    state = ambiguous;
    token = none;
    started_at = none;
    error = some delivery_ambiguous;
    last_attempt_at = some at;
  };
  alerts = alerts_failed clock delivery_ambiguous c.alert_ids s.alerts;
}

-- `markBatchNotified`.
unfoldable pub mark_notified : ℕ → Claimed → Store → Result PersistenceError Store
mark_notified at c s = complete_attempt c (settle_notified at c) s

-- `recordBatchNotificationFailure`.
unfoldable pub record_failure : ℕ → ℕ → Text → Claimed → Store → Result PersistenceError Store
record_failure at clock message c s = complete_attempt c (settle_failed at clock message c) s

-- `recordBatchNotificationAmbiguous`.
unfoldable pub record_ambiguous : ℕ → ℕ → Claimed → Store → Result PersistenceError Store
record_ambiguous at clock c s = complete_attempt c (settle_ambiguous at clock c) s

abbrev pub is_expired : ℕ → Option ℕ → Bool
is_expired now none = false
is_expired now (some at) = leb (at + claim_lease) now

-- `markAbandonedAttemptsAmbiguous`, for this batch.
unfoldable pub sweep : ℕ → ℕ → Store → Store
sweep now clock s =
    if is_sending s.batch.state && is_expired now s.batch.started_at then abandon clock s else s

-- What comes of the sender: there is none, or the message is delivered, in doubt, or refused.
pub data Delivery : Type 0 where
  unconfigured delivered in_doubt refused : Delivery

unfoldable pub settle_delivery : ℕ → ℕ → Delivery → Claimed → Store → Result PersistenceError Store
settle_delivery now clock unconfigured c s =
    record_failure now clock (codes "WECOM_NOT_CONFIGURED") c s
settle_delivery now clock in_doubt c s = record_ambiguous now clock c s
settle_delivery now clock refused c s = record_failure now clock (codes "WECOM_DELIVERY_FAILED") c s
settle_delivery now clock delivered c s = mark_notified now c s

-- What a run of the notifier meets: the time and the clock of the claim, its
-- token, what others do to the store while the message is out, what comes of it, and the time and the
-- clock of the report.
pub record Circumstances : Type 0 where
  pub now : ℕ
  pub clock : ℕ
  pub token : Text
  pub meanwhile : Store → Store
  pub delivery : Delivery
  pub later : ℕ
  pub later_clock : ℕ

unfoldable pub send_claimed : Circumstances → Option Claimed × Store → Result PersistenceError Store
send_claimed x (none, s) = ok s
send_claimed x (some c, s) = settle_delivery x.later x.later_clock x.delivery c (x.meanwhile s)

-- `RunAlertNotifier.send`, by whether sending is approved.
unfoldable pub send : Bool → Circumstances → Store → Result PersistenceError Store
send approved x s =
    if approved then (claim_batch x.now x.clock x.token s >>= send_claimed x) else ok s
