-- ===== src/AlertActions/Tests.antt =====
-- One alert that is set aside, with a reason, next to one that is closed.
use mathlib.Core.List.{Memᴰ}
use price_monitor.Prelude.{◌≡◌, refl, sym, ◌∙◌, none, some, [], ◌∷◌, All, codes, text_eq, ok}
use price_monitor.PriceAlerts.{pending, no_follow}
use price_monitor.AlertActions.{
  ActionInput, AlertState, ActionStore, allowed, same_status, parse_action, set_status,
  store_action, apply_to, apply_parsed, apply_action,
}
use price_monitor.AlertActions.Laws.{HasReason, apply_action-HasReason, apply_action-closed}

abbrev waiting : AlertState
waiting = record { id = []; status = pending }

abbrev closed : AlertState
closed = record { id = codes "z"; status = no_follow }

abbrev input : ActionInput
input = record { status = no_follow; reason = some (codes "r"); note = none }

abbrev before : ActionStore
before = record { alerts = waiting ∷ closed ∷ []; actions = []; audit = [] }

abbrev after : ActionStore
after = record {
  alerts = record { id = []; status = no_follow } ∷ closed ∷ [];
  actions =
      record {
        alert_id = [];
        actor_id = codes "u";
        status = no_follow;
        reason = some (codes "r");
        note = none;
      }
      ∷ [];
  audit = record { actor_id = codes "u"; alert_id = []; before = pending; after = no_follow } ∷ [];
}

apply_action_sample : apply_action (λ t. t) [] input (codes "u") before ≡ ok after
unfolding apply_action apply_parsed apply_to store_action set_status parse_action same_status
    allowed text_eq
apply_action_sample = refl

apply_action-HasReason_example : All HasReason after.actions
apply_action-HasReason_example =
    apply_action-HasReason (λ t. t) [] input (codes "u") before apply_action_sample tt

before_unique :
    (b c : AlertState) → Memᴰ b before.alerts → Memᴰ c before.alerts → b.id ≡ c.id → b ≡ c
before_unique b c (Memᴰ.head e) (Memᴰ.head f) same = e ∙ sym f
before_unique b c (Memᴰ.head e) (Memᴰ.tail (Memᴰ.head f)) same = cc
before_unique b c (Memᴰ.head e) (Memᴰ.tail (Memᴰ.tail n)) same = elim n [ ]
before_unique b c (Memᴰ.tail (Memᴰ.head e)) (Memᴰ.head f) same = cc
before_unique b c (Memᴰ.tail (Memᴰ.head e)) (Memᴰ.tail (Memᴰ.head f)) same = e ∙ sym f
before_unique b c (Memᴰ.tail (Memᴰ.head e)) (Memᴰ.tail (Memᴰ.tail n)) same = elim n [ ]
before_unique b c (Memᴰ.tail (Memᴰ.tail m)) n same = elim m [ ]

allowed-closed : allowed closed.status ≡ []
unfolding allowed
allowed-closed = refl

apply_action-closed_example : Memᴰ closed after.alerts
apply_action-closed_example =
    apply_action-closed (λ t. t) [] input (codes "u") before before_unique apply_action_sample
      (Memᴰ.tail (Memᴰ.head refl)) allowed-closed
