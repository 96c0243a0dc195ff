-- ===== src/Comparison/Alerts.antt =====
-- The alerts of a round of the main loop, and the entries that the loop collects.
use mathlib.Core.List.{append-nil, append_assoc}
use price_monitor.Prelude.{
  ℕ, ◌<◌, Bool, true, false, not, Option, none, some, List, [], ◌∷◌, ◌++◌, ◌≡◌, refl, sym, ap, ◌∙◌,
  inl, inr, filter_map, cons_some, none-ne-some, arith, if◌then◌else◌, Bool-cases, ltb, ltb→lt, get,
}
use price_monitor.Comparison.{
  Source, competitor, Combination, signed, review, excluded, Candidate, Signed, Priced, as_signed,
  signed_of, as_eligible, is_own,
}
use price_monitor.Comparison.Own.{rows_of}
use price_monitor.Comparison.Classify.{
  Alert, Round, Context, alert_of, classify_own_signed, classify_matched, classify_unmatched,
  classify_against, classify_priced, classify_competitor, classify_by, classify,
}
use price_monitor.Comparison.Evaluate.{Entries, push, record_round, run_rounds}

push-cons_some {ℓ} : {A : Type ℓ} (o : Option A) (xs : List A) → push o xs ≡ xs ++ cons_some o []
push-cons_some none xs = sym (append-nil xs)
push-cons_some (some a) xs = refl

push-append {ℓ} :
    {A : Type ℓ} (o : Option A) (xs ys : List A) → push o xs ++ ys ≡ xs ++ cons_some o ys
push-append none xs ys = refl
push-append (some a) xs ys = append_assoc xs (a ∷ []) ys

-- The main loop collects the alerts and the missing entries of its rounds, in order.
pub run_rounds-alerts :
    (ctx : Context) (cs : List Candidate) (e : Entries)
    → (run_rounds ctx cs e).alerts ≡ e.alerts ++ filter_map (λ c. (classify ctx c).alert) cs
unfolding run_rounds record_round
run_rounds-alerts ctx [] e = sym (append-nil e.alerts)
run_rounds-alerts ctx (c ∷ cs) e =
    run_rounds-alerts ctx cs (record_round c (classify ctx c) e)
    ∙ push-append (classify ctx c).alert e.alerts _

pub run_rounds-missing :
    (ctx : Context) (cs : List Candidate) (e : Entries)
    → (run_rounds ctx cs e).missing ≡ e.missing ++ filter_map (λ c. (classify ctx c).missing) cs
unfolding run_rounds record_round
run_rounds-missing ctx [] e = sym (append-nil e.missing)
run_rounds-missing ctx (c ∷ cs) e =
    run_rounds-missing ctx cs (record_round c (classify ctx c) e)
    ∙ push-append (classify ctx c).missing e.missing _

-- Why a candidate raises an alert.
pub record Undercuts (ctx : Context) (c : Candidate) (a : Alert) : Type 0 where
  pub signed_candidate : Signed
  pub offer : Priced
  pub baseline : Priced
  pub theirs : c.source ≡ competitor
  pub is_signed : as_signed c ≡ some signed_candidate
  pub is_priced : as_eligible signed_candidate ≡ some offer
  pub complete : ctx.catalog_complete ≡ true
  pub selected : get signed_candidate.signature ctx.selected ≡ some baseline
  pub cheaper : offer.price < baseline.price
  pub same : a ≡ alert_of signed_candidate offer.price baseline

classify_matched-alert :
    (s : Signed) (n : ℕ) (p : Priced) {a : Alert}
    → (classify_matched s n p).alert ≡ some a
    → (n < p.price) × (a ≡ alert_of s n p)
unfolding classify_matched
classify_matched-alert s n p h = elim (Bool-cases (ltb n p.price)) [
  | inl lower ↦ (ltb→lt n p.price lower, let e = rw lower at h in cc e)
  | inr other ↦ absurd (none-ne-some (rw other at h))
]

classify_unmatched-alert :
    (s : Signed) (n : ℕ) (rows : List Signed) → (classify_unmatched s n rows).alert ≡ none
unfolding classify_unmatched
classify_unmatched-alert s n rows = ground arith

classify_own_signed-alert :
    (s : Signed) (o : Option Priced) → (classify_own_signed s o).alert ≡ none
unfolding classify_own_signed
classify_own_signed-alert s none = refl
classify_own_signed-alert s (some p) = refl

classify_against-alert :
    (ctx : Context) (s : Signed) (n : ℕ) (o : Option Priced) {a : Alert}
    → (classify_against ctx s n o).alert ≡ some a
    → (p : Priced) × (o ≡ some p) × (n < p.price) × (a ≡ alert_of s n p)
unfolding classify_against
classify_against-alert ctx s n (some p) h =
    let (lower, same) = classify_matched-alert s n p h in (p, refl, lower, same)
classify_against-alert ctx s n none h =
    absurd (none-ne-some (sym (classify_unmatched-alert s n (rows_of s.signature ctx.all_own)) ∙ h))

alert_of_if :
    (b : Bool) (x y : Round) {a : Alert}
    → x.alert ≡ none
    → (if not b then x else y).alert ≡ some a
    → (b ≡ true) × (y.alert ≡ some a)
alert_of_if true x y e h = (refl, h)
alert_of_if false x y e h = absurd (none-ne-some (sym e ∙ h))

classify_priced-alert :
    (ctx : Context) (s : Signed) (n : ℕ) {a : Alert}
    → (classify_priced ctx s n).alert ≡ some a
    → (ctx.catalog_complete ≡ true)
      × ((p : Priced) × (get s.signature ctx.selected ≡ some p)
          × (n < p.price)
          × (a ≡ alert_of s n p))
unfolding classify_priced
classify_priced-alert ctx s n h =
    let (complete, h') = alert_of_if ctx.catalog_complete _ _ refl h in
    (complete, classify_against-alert ctx s n (get s.signature ctx.selected) h')

classify_competitor-alert :
    (ctx : Context) (s : Signed) (o : Option Priced) {a : Alert}
    → (classify_competitor ctx s o).alert ≡ some a
    → (q : Priced) × (o ≡ some q) × ((classify_priced ctx s q.price).alert ≡ some a)
unfolding classify_competitor
classify_competitor-alert ctx s none h = absurd (none-ne-some h)
classify_competitor-alert ctx s (some q) h = (q, refl, h)

is_own→competitor : (s : Source) → is_own s ≡ false → s ≡ competitor
is_own→competitor s h = ground arith

classify_by-alert :
    (ctx : Context) (c : Candidate) (k : Combination) {a : Alert}
    → (classify_by ctx c k).alert ≡ some a
    → c.combination ≡ k
    → Undercuts ctx c a
unfolding classify_by
classify_by-alert ctx c (excluded reasons) h e = absurd (none-ne-some h)
classify_by-alert ctx c (review label reasons) h e = absurd (none-ne-some h)
classify_by-alert ctx c (signed signature label reasons) {a} h e =
    elim (Bool-cases (is_own c.source)) [
      | inl mine ↦
          absurd (none-ne-some (sym (classify_own_signed-alert s (as_eligible s)) ∙ (rw mine at h)))
      | inr theirs ↦
          (let (q, eligible, h') =
              classify_competitor-alert ctx s (as_eligible s) (rw theirs at h) in
            let (complete, (p, selected, cheaper, same)) = classify_priced-alert ctx s q.price h' in
            record {
              signed_candidate = s;
              offer = q;
              baseline = p;
              theirs = is_own→competitor c.source theirs;
              is_signed = unfold as_signed signed_of in ap (λ x. signed_of x c) e;
              is_priced = eligible;
              complete = complete;
              selected = selected;
              cheaper = cheaper;
              same = same;
            })
    ]
  where
    s : Signed
    s = record { candidate = c; signature = signature; label = label; reasons = reasons }

pub classify-alert :
    (ctx : Context) (c : Candidate) {a : Alert}
    → (classify ctx c).alert ≡ some a
    → Undercuts ctx c a
unfolding classify
classify-alert ctx c h = classify_by-alert ctx c c.combination h refl
