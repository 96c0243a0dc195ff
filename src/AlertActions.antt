-- ===== src/AlertActions.antt =====
-- What operators do with an alert: apps/api/src/alerts/alert-action.service.ts, with the input of
-- apps/api/src/alerts/alert-action.dto.ts and the transaction of
-- apps/api/src/alerts/prisma-alert-action.repository.ts. `trim` is the language's.
pub mod Laws
pub mod Tests
use price_monitor.Prelude.{
  ℕ, Bool, true, false, not, ◌&&◌, ◌||◌, Option, none, some, List, [], ◌∷◌, ◌++◌, map, find, any,
  length, leb, if◌then◌else◌, Text, text_eq, Result, ok, err, ◌>>=◌,
}
use price_monitor.PriceAlerts.{
  AlertStatus, pending, price_changed, no_follow, false_positive, watching,
}

-- `AlertActionInput`.
pub record ActionInput : Type 0 where
  pub status : AlertStatus
  pub reason : Option Text
  pub note : Option Text

-- `AlertStateRecord`.
pub record AlertState : Type 0 where
  pub id : Text
  pub status : AlertStatus

-- `AlertActionRecord`.
pub record Action : Type 0 where
  pub alert_id : Text
  pub actor_id : Text
  pub status : AlertStatus
  pub reason : Option Text
  pub note : Option Text

-- An entry of the audit.
pub record AuditEntry : Type 0 where
  pub actor_id : Text
  pub alert_id : Text
  pub before : AlertStatus
  pub after : AlertStatus

pub record ActionStore : Type 0 where
  pub alerts : List AlertState
  pub actions : List Action
  pub audit : List AuditEntry

pub data ActionError : Type 0 where
  validation conflict not_found : ActionError

-- `ALLOWED_TRANSITIONS`.
unfoldable pub allowed : AlertStatus → List AlertStatus
allowed pending = price_changed ∷ no_follow ∷ false_positive ∷ watching ∷ []
allowed watching = pending ∷ price_changed ∷ no_follow ∷ false_positive ∷ []
allowed price_changed = []
allowed no_follow = []
allowed false_positive = []

unfoldable pub same_status : AlertStatus → AlertStatus → Bool
same_status pending pending = true
same_status price_changed price_changed = true
same_status no_follow no_follow = true
same_status false_positive false_positive = true
same_status watching watching = true
same_status _ _ = false

abbrev pub needs_reason : AlertStatus → Bool
needs_reason no_follow = true
needs_reason false_positive = true
needs_reason _ = false

abbrev pub absent : Option Text → Bool
absent none = true
absent (some t) = false

abbrev pub trimmed : (Text → Text) → Option Text → Option Text
trimmed trim none = none
trimmed trim (some t) = some (trim t)

abbrev pub fits : ℕ → ℕ → Option Text → Bool
fits least most none = true
fits least most (some t) = leb least (length t) && leb (length t) most

-- `alertActionSchema.safeParse`.
unfoldable pub parse_action : (Text → Text) → ActionInput → Option ActionInput
parse_action trim input =
    let reason = trimmed trim input.reason in
    let note = trimmed trim input.note in
    if fits 1 120 reason && (fits 0 2000 note && not (needs_reason input.status && absent reason))
    then some (record { status = input.status; reason = reason; note = note })
    else none

-- `...(parsed.data.note ? { note } : {})`.
abbrev pub non_empty : Option Text → Option Text
non_empty (some (c ∷ cs)) = some (c ∷ cs)
non_empty _ = none

unfoldable pub set_status : Text → AlertStatus → List AlertState → List AlertState
set_status id status [] = []
set_status id status (a ∷ rest) =
    (if text_eq a.id id then record { id = a.id; status = status } else a)
    ∷ set_status id status rest

-- `PrismaAlertActionRepository.applyAction`, and the audit of the change.
unfoldable pub store_action : Text → Text → AlertState → ActionInput → ActionStore → ActionStore
store_action id actor existing input s = record {
  alerts = set_status id input.status s.alerts;
  actions =
      s.actions
      ++ record {
        alert_id = id;
        actor_id = actor;
        status = input.status;
        reason = non_empty input.reason;
        note = non_empty input.note;
      }
        ∷ [];
  audit =
      s.audit
      ++ record { actor_id = actor; alert_id = id; before = existing.status; after = input.status }
        ∷ [];
}

unfoldable pub apply_to :
    Text → Text → ActionInput → ActionStore → Option AlertState → Result ActionError ActionStore
apply_to id actor input s none = err not_found
apply_to id actor input s (some existing) =
    if any (same_status input.status) (allowed existing.status)
    then ok (store_action id actor existing input s)
    else err conflict

unfoldable pub apply_parsed :
    Text → Text → ActionStore → Option ActionInput → Result ActionError ActionStore
apply_parsed id actor s none = err validation
apply_parsed id actor s (some input) =
    apply_to id actor input s (find (λ (a : AlertState). text_eq a.id id) s.alerts)

-- `AlertActionService.applyAction`.
unfoldable pub apply_action :
    (Text → Text) → Text → ActionInput → Text → ActionStore → Result ActionError ActionStore
apply_action trim id input actor s = apply_parsed id actor s (parse_action trim input)
