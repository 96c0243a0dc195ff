-- ===== src/Notification/Tests.antt =====
-- A batch of one alert.
use price_monitor.Prelude.{◌≡◌, refl, true, false, none, some, [], ◌∷◌, arith, codes, ok, err, ◌≤◌}
use price_monitor.Notification.{
  pending, sending, notified, ambiguous, Batch, AlertRow, Store, Claimed, Circumstances,
  persistence_error, max_attempts, claim_batch, sweep, delivered, claim_by, claim_pending, grant,
  read_claim, is_readable,
}
use price_monitor.Notification.Attempts.{IsSound, Step, Trace, Trace-attempts, Step-final}
use price_monitor.Notification.Sending.{IsShut, claim_batch-exclusive, sweep-IsShut}

abbrev waiting : Batch
waiting = record {
  alert_ids = codes "x" ∷ [];
  state = pending;
  token = none;
  started_at = none;
  attempts = 0;
  error = none;
  last_attempt_at = none;
  notified_at = none;
  summary = record { accepted = true; has_baseline = true; complete_alerts = [] };
}

abbrev row : AlertRow
row = record {
  id = codes "x";
  attempts = 0;
  error = none;
  last_attempt_at = none;
  notified_at = none;
}

abbrev store : Store
store = record { batch = waiting; alerts = row ∷ [] }

abbrev told : Store
told = record {
  batch = record waiting { state = notified; notified_at = some 5 };
  alerts = row ∷ [];
}

abbrev granted_store : Store
granted_store = record {
  batch = record waiting {
    state = sending;
    token = some (codes "t");
    started_at = some 100;
    attempts = 1;
    last_attempt_at = some 100;
  };
  alerts = row ∷ [];
}

abbrev mine : Claimed
mine = record { token = codes "t"; alert_ids = codes "x" ∷ [] }

claim_batch_sample : claim_batch 100 101 (codes "t") store ≡ ok (some mine, granted_store)
unfolding claim_batch claim_by claim_pending grant read_claim is_readable
claim_batch_sample = refl

-- The message is delivered, and nobody else writes the batch.
abbrev calm : Circumstances
calm = record {
  now = 100;
  clock = 101;
  token = codes "t";
  meanwhile = λ s. s;
  delivery = delivered;
  later = 150;
  later_clock = 151;
}

claim_batch-exclusive_example :
    claim_batch 200 201 (codes "u") granted_store ≡ ok (none, granted_store)
claim_batch-exclusive_example =
    claim_batch-exclusive 100 101 200 201 (codes "t") (codes "u") store granted_store
      claim_batch_sample (omega arith)

sweep-IsShut_example :
    ((sweep 400000 400001 granted_store).batch.state ≡ ambiguous)
    × IsShut mine 400002 400003 (codes "WECOM_DELIVERY_FAILED") (sweep 400000 400001 granted_store)
sweep-IsShut_example =
    sweep-IsShut 100 101 400000 400001 400002 400003 (codes "t") (codes "WECOM_DELIVERY_FAILED")
      store granted_store mine mine claim_batch_sample (omega arith)

store-IsSound : IsSound store.batch
store-IsSound = (refl, omega arith)

Trace-attempts_example :
    IsSound granted_store.batch × (granted_store.batch.attempts ≡ 1) × (1 ≤ max_attempts)
Trace-attempts_example =
    Trace-attempts
      (Trace.goes store granted_store granted_store 1 0
        (Step.claims 100 101 (codes "t") store granted_store _ claim_batch_sample)
        (Trace.stays granted_store))
      store-IsSound

Step-final_example : sweep 400000 400001 told ≡ told
Step-final_example = Step-final (Step.sweeps 400000 400001 told) refl

-- A summary that cannot be read: an alert without its own fields and no baseline.
broken_sample :
    claim_batch 100 101 (codes "t") (record store {
      batch = record waiting {
        summary = record { accepted = true; has_baseline = false; complete_alerts = false ∷ [] };
      };
    })
    ≡ err persistence_error
unfolding claim_batch claim_by claim_pending grant read_claim is_readable
broken_sample = refl
