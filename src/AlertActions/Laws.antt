-- ===== src/AlertActions/Laws.antt =====
-- What `AlertActionService.applyAction` leaves of the alerts and the recorded actions.
use mathlib.Core.List.{Memᴰ}
use price_monitor.Prelude.{
  ◌≡◌, ◌≢◌, refl, sym, ap, ◌∙◌, subst, inl, inr, Bool, true, false, not, ◌&&◌, Option, none, some,
  List, [], ◌∷◌, ◌++◌, find-eq-some, any, arith, Bool-cases, none-ne-some, &&-left, &&-right, All,
  Text, text_eq, text_eq→eq, ok, ok-injective,
}
use price_monitor.PriceAlerts.{AlertStatus}
use price_monitor.AlertActions.{
  ActionInput, AlertState, Action, ActionStore, allowed, same_status, needs_reason, absent, trimmed,
  fits, parse_action, non_empty, set_status, store_action, apply_to, apply_parsed, apply_action,
}

-- An action that needs a reason has one.
abbrev pub HasReason : Action → Type 0
HasReason a = (needs_reason a.status && absent a.reason) ≡ false

-- What an accepted action has gone through.
pub record Accepted (trim : Text → Text) (id : Text) (input : ActionInput) (actor : Text)
    (s u : ActionStore) : Type 0 where
  pub parsed : ActionInput
  pub existing : AlertState
  pub is_parsed : parse_action trim input ≡ some parsed
  pub found : Memᴰ existing s.alerts
  pub named : existing.id ≡ id
  pub permitted : any (same_status parsed.status) (allowed existing.status) ≡ true
  pub stored : u ≡ store_action id actor existing parsed s

apply_to-eq-ok :
    (id actor : Text) (input : ActionInput) (s : ActionStore) (o : Option AlertState)
    {u : ActionStore}
    → apply_to id actor input s o ≡ ok u
    → (a : AlertState) × (o ≡ some a)
      × (any (same_status input.status) (allowed a.status) ≡ true)
      × (u ≡ store_action id actor a input s)
unfolding apply_to
apply_to-eq-ok id actor input s none h = cc
apply_to-eq-ok id actor input s (some a) h =
    elim (Bool-cases (any (same_status input.status) (allowed a.status))) [
      | inl fine ↦ (a, refl, fine, sym (ok-injective (rw fine at h)))
      | inr refused ↦ cc (rw refused at h)
    ]

apply_parsed-Accepted :
    (trim : Text → Text) (id : Text) (input : ActionInput) (actor : Text) (s : ActionStore)
    (o : Option ActionInput) {u : ActionStore}
    → parse_action trim input ≡ o
    → apply_parsed id actor s o ≡ ok u
    → Accepted trim id input actor s u
unfolding apply_parsed
apply_parsed-Accepted trim id input actor s none e h = cc
apply_parsed-Accepted trim id input actor s (some parsed) e h =
    let (a, found, fine, stored) = apply_to-eq-ok id actor parsed s _ h in
    let (m, k) = find-eq-some _ s.alerts found in
    record {
      parsed = parsed;
      existing = a;
      is_parsed = e;
      found = m;
      named = text_eq→eq a.id id k;
      permitted = fine;
      stored = stored;
    }

pub apply_action-Accepted :
    (trim : Text → Text) (id : Text) (input : ActionInput) (actor : Text) (s : ActionStore)
    {u : ActionStore}
    → apply_action trim id input actor s ≡ ok u
    → Accepted trim id input actor s u
unfolding apply_action
apply_action-Accepted trim id input actor s h =
    apply_parsed-Accepted trim id input actor s (parse_action trim input) refl h

-- The validated input: its reason, if there is one, is not empty, and is there where one is needed.
abbrev IsValidInput : ActionInput → Type 0
IsValidInput p = (fits 1 120 p.reason ≡ true) × ((needs_reason p.status && absent p.reason) ≡ false)

some-injective {ℓ} : {A : Type ℓ} {a b : A} → some a ≡ some b → a ≡ b
some-injective e = cc

parse_action-valid :
    (trim : Text → Text) (input : ActionInput) {p : ActionInput}
    → parse_action trim input ≡ some p
    → IsValidInput p
unfolding parse_action
parse_action-valid trim input {p} h =
    let reason = trimmed trim input.reason in
    let rest =
      fits 0 2000 (trimmed trim input.note) && not (needs_reason input.status && absent reason) in
    elim (Bool-cases (fits 1 120 reason && rest)) [
      | inl fine ↦ subst IsValidInput (some-injective (rw fine at h)) (
        &&-left (fits 1 120 reason) rest fine,
        not_true _ (
            &&-right (fits 0 2000 (trimmed trim input.note)) _
              (&&-right (fits 1 120 reason) rest fine)),
      )
      | inr refused ↦ absurd (none-ne-some (rw refused at h))
    ]
  where
    not_true : (b : Bool) → not b ≡ true → b ≡ false
    not_true b e = ground arith

reason-kept :
    (needed : Bool) (o : Option Text)
    → fits 1 120 o ≡ true
    → (needed && absent o) ≡ false
    → (needed && absent (non_empty o)) ≡ false
reason-kept needed none e h = h
reason-kept needed (some []) e h = absurd (false-ne-true e)
  where
    false-ne-true : false ≢ true
    false-ne-true k = cc
reason-kept needed (some (c ∷ cs)) e h = h

All-append_one {ℓ κ} :
    {A : Type ℓ} (P : A → Type κ) (xs : List A) {a : A} → All P xs → P a → All P (xs ++ a ∷ [])
All-append_one P [] h k = (k, tt)
All-append_one P (x ∷ xs) (p, h) k = (p, All-append_one P xs h k)

-- An accepted action that ends an alert without a follow-up, or calls it false, is recorded with a
-- reason, so that if all recorded actions have the reasons they need, all do after it.
pub apply_action-HasReason :
    (trim : Text → Text) (id : Text) (input : ActionInput) (actor : Text) (s : ActionStore)
    {u : ActionStore}
    → apply_action trim id input actor s ≡ ok u
    → All HasReason s.actions
    → All HasReason u.actions
unfolding store_action
apply_action-HasReason trim id input actor s {u} h reasons =
    let r = apply_action-Accepted trim id input actor s h in
    let (fine, needed) = parse_action-valid trim input r.is_parsed in
    subst (λ (v : ActionStore). All HasReason v.actions) (sym r.stored)
      (All-append_one HasReason s.actions reasons
        (reason-kept (needs_reason r.parsed.status) r.parsed.reason fine needed))

Memᴰ-set_status :
    (id : Text) (status : AlertStatus) {a : AlertState} {rows : List AlertState}
    → a.id ≢ id
    → Memᴰ a rows
    → Memᴰ a (set_status id status rows)
unfolding set_status
Memᴰ-set_status id status {a} different (Memᴰ.head {x} {xs} e) =
    elim (Bool-cases (text_eq x.id id)) [
      | inl same ↦ absurd (different (ap AlertState.id e ∙ text_eq→eq x.id id same))
      | inr other ↦ rw other (Memᴰ.head e)
    ]
Memᴰ-set_status id status different (Memᴰ.tail {x} {xs} m) =
    Memᴰ.tail (Memᴰ-set_status id status different m)

-- Where no two alerts have one id, an alert that no transition leads out of, one that is closed, is left
-- as it is by every accepted action.
pub apply_action-closed :
    (trim : Text → Text) (id : Text) (input : ActionInput) (actor : Text) (s : ActionStore)
    {u : ActionStore} {a : AlertState}
    → ((b c : AlertState) → Memᴰ b s.alerts → Memᴰ c s.alerts → b.id ≡ c.id → b ≡ c)
    → apply_action trim id input actor s ≡ ok u
    → Memᴰ a s.alerts
    → allowed a.status ≡ []
    → Memᴰ a u.alerts
unfolding store_action
apply_action-closed trim id input actor s {u} {a} unique h m closed =
    let r = apply_action-Accepted trim id input actor s h in
    let different : a.id ≢ id = λ e.
      let same : a ≡ r.existing = unique a r.existing m r.found (e ∙ sym r.named) in
      let none_left : allowed r.existing.status ≡ [] =
        ap (λ (b : AlertState). allowed b.status) (sym same) ∙ closed in
      let never : any (same_status r.parsed.status) (allowed r.existing.status) ≡ false =
        ap (any (same_status r.parsed.status)) none_left in
      true-ne-false (sym r.permitted ∙ never) in
    subst (λ (v : ActionStore). Memᴰ a v.alerts) (sym r.stored)
      (Memᴰ-set_status id r.parsed.status different m)
  where
    true-ne-false : true ≢ false
    true-ne-false k = cc
