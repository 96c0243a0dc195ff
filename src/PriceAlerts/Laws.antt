-- ===== src/PriceAlerts/Laws.antt =====
-- The alerts that `AlertService.evaluate` raises.

use price_monitor.Prelude.{
  ℕ, ◌<◌, ◌≡◌, refl, sym, ap, ◌∙◌, subst, inl, inr, Bool, true, false, Option, none, some, List,
  ◌∷◌, ◌++◌, any, leb, arith, Bool-cases, none-ne-some, Text, codes, text_eq, text_eq_refl, ok,
  ok-injective,
}
use price_monitor.Money.{Number, natural, other, is_safe}
use price_monitor.Comparison.{fen_of}
use price_monitor.PriceAlerts.{
  Offer, Evaluation, Severity, PriceAlert, KeyInput, Alerts, dedup_key, key_input, is_comparable,
  severity_of, create_if_absent, new_alert, raise_alert, evaluate_prices, evaluate_alert,
}

-- The alert that one evaluation raises at these prices.
abbrev pub alert_of : (KeyInput → Text) → Offer → Offer → ℕ → ℕ → Severity → List Text → PriceAlert
alert_of digest own competitor m n severity reasons =
    new_alert own competitor m n severity reasons
      (codes "price-v3:" ++ digest (key_input own competitor n))

abbrev pub has_key : Text → PriceAlert → Bool
has_key key r = text_eq r.dedup_key key

-- The conditions of an alert, and what it does to the rows.
pub record Raises (digest : KeyInput → Text) (own competitor : Offer) (e : Evaluation)
    (rows : Alerts) (a : PriceAlert) (after : Alerts) : Type 0 where
  pub own_price : ℕ
  pub price : ℕ
  pub severity : Severity
  pub comparable : is_comparable own competitor ≡ true
  pub own_payable : fen_of own.payable ≡ some own_price
  pub payable : fen_of competitor.payable ≡ some price
  pub lower : price < own_price
  pub severe : severity_of e ≡ some severity
  pub same : a ≡ alert_of digest own competitor own_price price severity e.reasons
  pub unseen : any (has_key a.dedup_key) rows ≡ false
  pub stored : after ≡ a ∷ rows

fen_of-safe : (o : Option Number) {n : ℕ} → fen_of o ≡ some n → is_safe n ≡ true
fen_of-safe none h = absurd (none-ne-some h)
fen_of-safe (some other) h = absurd (none-ne-some h)
fen_of-safe (some (natural m)) {n} h = elim (Bool-cases (is_safe m)) [
  | inl safe ↦
      let same : m ≡ n = let e : some m ≡ some n = rw safe at h in cc e in
      subst (λ k. is_safe k ≡ true) same safe
  | inr unsafe ↦ absurd (none-ne-some (rw unsafe at h))
]

create_if_absent-eq-some :
    (b : PriceAlert) (rows : Alerts) {a : PriceAlert} {u : Alerts}
    → create_if_absent b rows ≡ (some a, u)
    → (a ≡ b) × (any (has_key b.dedup_key) rows ≡ false) × (u ≡ b ∷ rows)
unfolding create_if_absent
create_if_absent-eq-some b rows {a} {u} h = elim (Bool-cases (any (has_key b.dedup_key) rows)) [
  | inl seen ↦ absurd (none-ne-some (ap (λ (p : Option PriceAlert × Alerts). p.0) (rw seen at h)))
  | inr unseen ↦
      let h' : (some b, b ∷ rows) ≡ (some a, u) = rw unseen at h in
      (
        let e = ap (λ (p : Option PriceAlert × Alerts). p.0) h' in cc e,
        unseen,
        sym (ap (λ (p : Option PriceAlert × Alerts). p.1) h'),
      )
]

raise_alert-eq-ok :
    (digest : KeyInput → Text) (own competitor : Offer) (m n : ℕ) (reasons : List Text)
    (rows : Alerts) (o : Option Severity)
    → is_safe n ≡ true
    → {a : PriceAlert} {u : Alerts}
    → raise_alert digest own competitor m n reasons rows o ≡ ok (some a, u)
    → (s : Severity) × (o ≡ some s)
      × (create_if_absent (alert_of digest own competitor m n s reasons) rows ≡ (some a, u))
unfolding raise_alert dedup_key key_input
raise_alert-eq-ok digest own competitor m n reasons rows none safe h =
    absurd (none-ne-some (ap (λ (p : Option PriceAlert × Alerts). p.0) (ok-injective h)))
raise_alert-eq-ok digest own competitor m n reasons rows (some s) safe h =
    (s, refl, ok-injective (rw safe at h))

Raises-of_created :
    (digest : KeyInput → Text) (own competitor : Offer) (e : Evaluation) (rows : Alerts) (m n : ℕ)
    (s : Severity) (a : PriceAlert) (u : Alerts)
    → is_comparable own competitor ≡ true
    → fen_of own.payable ≡ some m
    → fen_of competitor.payable ≡ some n
    → n < m
    → severity_of e ≡ some s
    → create_if_absent (alert_of digest own competitor m n s e.reasons) rows ≡ (some a, u)
    → Raises digest own competitor e rows a u
Raises-of_created digest own competitor e rows m n s a u h1 h2 h3 h4 h5 h6 =
    let (same, unseen, stored) = create_if_absent-eq-some _ rows h6 in
    record {
      own_price = m;
      price = n;
      severity = s;
      comparable = h1;
      own_payable = h2;
      payable = h3;
      lower = h4;
      severe = h5;
      same = same;
      unseen = ap (λ (b : PriceAlert). any (has_key b.dedup_key) rows) same ∙ unseen;
      stored = stored ∙ ap (λ (b : PriceAlert). b ∷ rows) (sym same);
    }

evaluate_prices-Raises :
    (digest : KeyInput → Text) (own competitor : Offer) (e : Evaluation) (rows : Alerts)
    (o p : Option ℕ) {a : PriceAlert} {u : Alerts}
    → is_comparable own competitor ≡ true
    → fen_of own.payable ≡ o
    → fen_of competitor.payable ≡ p
    → evaluate_prices digest own competitor e rows o p ≡ ok (some a, u)
    → Raises digest own competitor e rows a u
unfolding evaluate_prices
evaluate_prices-Raises digest own competitor e rows none p h1 h2 h3 h =
    absurd (none-ne-some (ap (λ (p : Option PriceAlert × Alerts). p.0) (ok-injective h)))
evaluate_prices-Raises digest own competitor e rows (some m) none h1 h2 h3 h =
    absurd (none-ne-some (ap (λ (p : Option PriceAlert × Alerts). p.0) (ok-injective h)))
evaluate_prices-Raises digest own competitor e rows (some m) (some n) {a} {u} h1 h2 h3 h =
    elim (Bool-cases (leb m n)) [
      | inl higher ↦ absurd (
          none-ne-some
            (ap (λ (p : Option PriceAlert × Alerts). p.0) (ok-injective (rw higher at h))))
      | inr lower ↦
          (let (s, severe, created) =
              raise_alert-eq-ok digest own competitor m n e.reasons rows (severity_of e)
                (fen_of-safe competitor.payable h3) (rw lower at h) in
            Raises-of_created digest own competitor e rows m n s a u h1 h2 h3 (ground arith) severe
              created)
    ]

-- An alert is raised only for two comparable offers at confirmed prices of which the competitor's is
-- lower, with the severity that the match calls for; it is stored, and no stored alert had its key.
pub evaluate_alert-Raises :
    (digest : KeyInput → Text) (own competitor : Offer) (e : Evaluation) (rows : Alerts)
    {a : PriceAlert} {u : Alerts}
    → evaluate_alert digest own competitor e rows ≡ ok (some a, u)
    → Raises digest own competitor e rows a u
unfolding evaluate_alert
evaluate_alert-Raises digest own competitor e rows h =
    elim (Bool-cases (is_comparable own competitor)) [
      | inl comparable ↦
          evaluate_prices-Raises digest own competitor e rows _ _ comparable refl refl
            (rw comparable at h)
      | inr apart ↦ absurd (
          none-ne-some
            (ap (λ (p : Option PriceAlert × Alerts). p.0) (ok-injective (rw apart at h))))
    ]

-- What an evaluation does where the conditions of an alert hold.
evaluate_alert-at :
    (digest : KeyInput → Text) (own competitor : Offer) (e : Evaluation) (rows after : Alerts)
    (a : PriceAlert) (present : Alerts)
    → (r : Raises digest own competitor e rows a after)
    → evaluate_alert digest own competitor e present ≡ ok (create_if_absent a present)
unfolding evaluate_alert evaluate_prices raise_alert dedup_key key_input
evaluate_alert-at digest own competitor e rows after a present r =
    let safe = fen_of-safe competitor.payable r.payable in
    let lower : leb r.own_price r.price ≡ false = let h = r.lower in ground arith in
    rw (r.comparable, r.own_payable, r.payable, lower, r.severe, safe)
      (ap (λ (b : PriceAlert). ok (create_if_absent b present)) (sym r.same))

create_if_absent-seen :
    (rows : Alerts) (b : PriceAlert) (v : Alerts) → v ≡ b ∷ rows → create_if_absent b v ≡ (none, v)
unfolding create_if_absent
create_if_absent-seen rows b v k =
    let found : any (has_key b.dedup_key) v ≡ true =
      ap (any (has_key b.dedup_key)) k ∙ (rw (text_eq_refl b.dedup_key)) in
    rw found

-- An alert is raised once: the same evaluation on the rows after it raises none and changes nothing.
pub evaluate_alert-once :
    (digest : KeyInput → Text) (own competitor : Offer) (e : Evaluation) (rows : Alerts)
    {a : PriceAlert} {u : Alerts}
    → evaluate_alert digest own competitor e rows ≡ ok (some a, u)
    → evaluate_alert digest own competitor e u ≡ ok (none, u)
evaluate_alert-once digest own competitor e rows {a} {u} h =
    let r = evaluate_alert-Raises digest own competitor e rows h in
    evaluate_alert-at digest own competitor e rows u a u r
    ∙ ap ok (create_if_absent-seen rows a u r.stored)
