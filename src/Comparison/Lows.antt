-- ===== src/Comparison/Lows.antt =====
-- The alerts of a whole comparison.
use mathlib.Core.List.{Memᴰ}
use price_monitor.Prelude.{
  ℕ, ◌+◌, ◌-◌, ◌<◌, Bool, true, false, Option, none, some, List, [], ◌∷◌, ◌≡◌, refl, sym, ap, ◌∙◌,
  subst, filter_map, Memᴰ-filter_map, Memᴰ-filter_map_of, All-of_Memᴰ, none-ne-some, arith, lt→ltb,
  All, All-Memᴰ, IfSome, head?, Text, get, sort, Memᴰ_of_sort, Memᴰ-sort,
}
use price_monitor.Comparison.{
  Source, competitor, Combination, signed, review, excluded, Candidate, Signed, Priced, as_signed,
  as_eligible, compare_candidate, compare_eligible, is_own, signed_of,
}
use price_monitor.Comparison.Own.{own_rows, selected_own}
use price_monitor.Comparison.Classify.{
  Alert, Context, alert_of, classify, classify_by, classify_competitor, classify_priced,
  classify_against, classify_matched, classify_own_signed,
}
use price_monitor.Comparison.Baselines.{IsBaseline, get-selected_own-IsBaseline, IsBaseline-of_sort}
use price_monitor.Comparison.Rows.{own_eligible, get-selected_own}
use price_monitor.Comparison.Missing.{missing_groups, entries_by_signature}
use price_monitor.Comparison.Evaluate.{Entries, context, evaluate_sorted, evaluate, compare_alert}
use price_monitor.Comparison.Alerts.{
  run_rounds-alerts, run_rounds-missing, Undercuts, classify-alert,
}

-- An alert of a comparison: a competitor's candidate of the run that is signed, in stock and confirmed
-- at a price, and a cheapest own offer of the same signature, which costs more.
pub record IsConfirmedLow (cs : List Candidate) (a : Alert) : Type 0 where
  pub signed_candidate : Signed
  pub offer : Priced
  pub baseline : Priced
  pub of_run : Memᴰ signed_candidate.candidate cs
  pub theirs : signed_candidate.candidate.source ≡ competitor
  pub is_signed : as_signed signed_candidate.candidate ≡ some signed_candidate
  pub is_priced : as_eligible signed_candidate ≡ some offer
  pub cheapest : IsBaseline cs signed_candidate.signature baseline
  pub same : a ≡ alert_of signed_candidate offer.price baseline
  pub difference : offer.price + a.difference ≡ baseline.price
  pub positive : 0 < a.difference

-- The context in which the sorted candidates of a run are classified.
abbrev pub run_context : Bool → List Candidate → Context
run_context complete cs = context complete (own_rows (sort compare_candidate cs))

pub evaluate-alerts :
    (complete : Bool) (cs : List Candidate)
    → (evaluate complete cs).alerts
      ≡ sort compare_alert (
          filter_map
            (λ c. (classify (run_context complete cs) c).alert)
            (sort compare_candidate cs))
unfolding evaluate evaluate_sorted
evaluate-alerts complete cs = ap (sort compare_alert) (
    run_rounds-alerts (run_context complete cs) (sort compare_candidate cs)
      (record { decisions = []; alerts = []; missing = [] }))

signed_of-candidate :
    (k : Combination) (c : Candidate) {s : Signed} → signed_of k c ≡ some s → s.candidate ≡ c
unfolding signed_of
signed_of-candidate k c h = ground arith

pub as_signed-candidate : (c : Candidate) {s : Signed} → as_signed c ≡ some s → s.candidate ≡ c
unfolding as_signed signed_of
as_signed-candidate c h = signed_of-candidate c.combination c h

alert_of-difference :
    (s : Signed) (n : ℕ) (p : Priced) (a : Alert)
    → n < p.price
    → a ≡ alert_of s n p
    → (n + a.difference ≡ p.price) × (0 < a.difference)
alert_of-difference s n p a h e =
    let d : a.difference ≡ p.price - n = ap Alert.difference e in (omega arith, omega arith)

IsConfirmedLow-of_Undercuts :
    (complete : Bool) (cs : List Candidate) (c : Candidate) (a : Alert)
    → Memᴰ c cs
    → Undercuts (run_context complete cs) c a
    → IsConfirmedLow cs a
IsConfirmedLow-of_Undercuts complete cs c a m u =
    let s = u.signed_candidate in
    let e : s.candidate ≡ c = as_signed-candidate c u.is_signed in
    let (total, positive) = alert_of-difference s u.offer.price u.baseline a u.cheaper u.same in
    record {
      signed_candidate = s;
      offer = u.offer;
      baseline = u.baseline;
      of_run = subst (λ (x : Candidate). Memᴰ x cs) (sym e) m;
      theirs = ap Candidate.source e ∙ u.theirs;
      is_signed = ap as_signed e ∙ u.is_signed;
      is_priced = u.is_priced;
      cheapest =
          IsBaseline-of_sort cs s.signature u.baseline
            (get-selected_own-IsBaseline s.signature (sort compare_candidate cs) u.selected);
      same = u.same;
      difference = total;
      positive = positive;
    }

-- Every alert of a run is of a competitor's candidate of the run that is signed, in stock and confirmed
-- at a price. It names an own offer of the same signature that is in stock, confirmed and costs no more
-- than any other such offer; that offer costs more, and the alert's difference is what it costs more.
pub evaluate-IsConfirmedLow :
    (complete : Bool) (cs : List Candidate) → All (IsConfirmedLow cs) (evaluate complete cs).alerts
evaluate-IsConfirmedLow complete cs =
    All-of_Memᴰ (IsConfirmedLow cs) (evaluate complete cs).alerts λ a m.
      let m' = Memᴰ_of_sort compare_alert _ (subst (Memᴰ a) (evaluate-alerts complete cs) m) in
      let (c, n, h) =
        Memᴰ-filter_map (λ c. (classify (run_context complete cs) c).alert)
          (sort compare_candidate cs) m' in
      IsConfirmedLow-of_Undercuts complete cs c a (Memᴰ_of_sort compare_candidate cs n)
        (classify-alert (run_context complete cs) c h)

-- A cheaper offer of a competitor's raises its alert.
classify_matched-alert_of :
    (s : Signed) (n : ℕ) (p : Priced)
    → n < p.price
    → (classify_matched s n p).alert ≡ some (alert_of s n p)
unfolding classify_matched
classify_matched-alert_of s n p h = rw (lt→ltb n p.price h)

classify_priced-alert_of :
    (ctx : Context) (s : Signed) (n : ℕ) (p : Priced)
    → ctx.catalog_complete ≡ true
    → get s.signature ctx.selected ≡ some p
    → n < p.price
    → (classify_priced ctx s n).alert ≡ some (alert_of s n p)
unfolding classify_priced classify_against
classify_priced-alert_of ctx s n p h1 h2 h3 = rw (h1, h2) (classify_matched-alert_of s n p h3)

classify_by-alert_of :
    (ctx : Context) (c : Candidate) (k : Combination) (s : Signed) (q p : Priced)
    → is_own c.source ≡ false
    → signed_of k c ≡ some s
    → as_eligible s ≡ some q
    → (classify_priced ctx s q.price).alert ≡ some (alert_of s q.price p)
    → (classify_by ctx c k).alert ≡ some (alert_of s q.price p)
unfolding classify_by signed_of
classify_by-alert_of ctx c (signed signature label reasons) s q p h1 h2 h3 h4 =
    let e : record { candidate = c; signature = signature; label = label; reasons = reasons } ≡ s =
      cc h2 in
    rw h1 (
      subst
        (λ (t : Signed).
          (classify_competitor ctx t (as_eligible t)).alert ≡ some (alert_of s q.price p))
        (sym e) (rw h3 (unfold classify_competitor in h4)))
classify_by-alert_of ctx c (review label reasons) s q p h1 h2 h3 h4 = absurd (none-ne-some h2)
classify_by-alert_of ctx c (excluded reasons) s q p h1 h2 h3 h4 = absurd (none-ne-some h2)

theirs→is_own : (s : Source) → s ≡ competitor → is_own s ≡ false
theirs→is_own s h = ground arith

evaluate-alert_of :
    (cs : List Candidate) (c : Candidate) (s : Signed) (q p : Priced)
    → Memᴰ c cs
    → c.source ≡ competitor
    → as_signed c ≡ some s
    → as_eligible s ≡ some q
    → get s.signature (selected_own (own_rows (sort compare_candidate cs))) ≡ some p
    → q.price < p.price
    → Memᴰ (alert_of s q.price p) (evaluate true cs).alerts
evaluate-alert_of cs c s q p m h1 h2 h3 h4 h5 =
    let ctx = run_context true cs in
    let raised : (classify ctx c).alert ≡ some (alert_of s q.price p) =
      unfold classify as_signed signed_of in
      classify_by-alert_of ctx c c.combination s q p (theirs→is_own c.source h1) h2 h3
        (classify_priced-alert_of ctx s q.price p refl h4 h5) in
    subst (Memᴰ (alert_of s q.price p)) (sym (evaluate-alerts true cs)) (
      Memᴰ-sort compare_alert _ (
        Memᴰ-filter_map_of (λ c. (classify ctx c).alert) (Memᴰ-sort compare_candidate cs m) raised))

head?_of_Memᴰ {ℓ} : {A : Type ℓ} {a : A} {xs : List A} → Memᴰ a xs → (b : A) × (head? xs ≡ some b)
head?_of_Memᴰ (Memᴰ.head {x} {xs} e) = (x, refl)
head?_of_Memᴰ (Memᴰ.tail {x} {xs} m) = (x, refl)

-- A signature that some own candidate is eligible at has a baseline.
pub selected_own_of_Memᴰ :
    (cs : List Candidate) (k : Text) {d : Candidate} {o : Priced}
    → Memᴰ d cs
    → own_eligible k d ≡ some o
    → (p : Priced) × (get k (selected_own (own_rows cs)) ≡ some p)
selected_own_of_Memᴰ cs k m e =
    let (p, h) =
      head?_of_Memᴰ (Memᴰ-sort compare_eligible _ (Memᴰ-filter_map_of (own_eligible k) m e)) in
    (p, get-selected_own k cs ∙ h)

IfSome-eq-some {ℓ κ} :
    {A : Type ℓ} (P : A → Type κ) {o : Option A} {a : A} → o ≡ some a → IfSome P o → P a
IfSome-eq-some P e h = subst (IfSome P) e h

-- No lower price is missed when the own catalog is complete: where a competitor's candidate is signed,
-- in stock and confirmed at a price, some own candidate is eligible at its signature, and each that is
-- costs more, the run raises the alert of that candidate against a cheapest own offer.
pub evaluate-lower :
    (cs : List Candidate) (c d : Candidate) (s : Signed) (q o : Priced)
    → Memᴰ c cs
    → c.source ≡ competitor
    → as_signed c ≡ some s
    → as_eligible s ≡ some q
    → Memᴰ d cs
    → own_eligible s.signature d ≡ some o
    → All (λ x. IfSome (λ (p : Priced). q.price < p.price) (own_eligible s.signature x)) cs
    → (p : Priced) × IsBaseline cs s.signature p
      × Memᴰ (alert_of s q.price p) (evaluate true cs).alerts
evaluate-lower cs c d s q o m h1 h2 h3 n h4 above =
    let (p, selected) =
      selected_own_of_Memᴰ (sort compare_candidate cs) s.signature
        (Memᴰ-sort compare_candidate cs n) h4 in
    let is_baseline =
      IsBaseline-of_sort cs s.signature p
        (get-selected_own-IsBaseline s.signature (sort compare_candidate cs) selected) in
    let (x, k, e, least) = is_baseline in
    let lower : q.price < p.price =
      IfSome-eq-some (λ (p : Priced). q.price < p.price) e (All-Memᴰ _ k above) in
    (p, is_baseline, evaluate-alert_of cs c s q p m h1 h2 h3 selected lower)

filter_map-none {ℓ κ} :
    {A : Type ℓ} {B : Type κ} (f : A → Option B) (xs : List A)
    → ((x : A) → f x ≡ none)
    → filter_map f xs ≡ []
filter_map-none f [] h = refl
filter_map-none f (x ∷ xs) h = rw (h x) (filter_map-none f xs h)

classify-incomplete :
    (ctx : Context) (c : Candidate)
    → ctx.catalog_complete ≡ false
    → ((classify ctx c).alert ≡ none) × ((classify ctx c).missing ≡ none)
unfolding classify classify_by classify_own_signed classify_competitor classify_priced
classify-incomplete ctx c h = ground arith

-- When the own catalog is not known to be complete, a run raises no alert and reports nothing missing.
pub evaluate-incomplete :
    (cs : List Candidate)
    → ((evaluate false cs).alerts ≡ []) × ((evaluate false cs).missing_groups ≡ [])
unfolding evaluate evaluate_sorted sort missing_groups entries_by_signature
evaluate-incomplete cs =
    let ctx = run_context false cs in
    let start : Entries = record { decisions = []; alerts = []; missing = [] } in
    (
      ap (sort compare_alert) (
          run_rounds-alerts ctx (sort compare_candidate cs) start
          ∙ filter_map-none _ (sort compare_candidate cs)
              (λ c. (classify-incomplete ctx c refl).0)),
      ap missing_groups (
          run_rounds-missing ctx (sort compare_candidate cs) start
          ∙ filter_map-none _ (sort compare_candidate cs)
              (λ c. (classify-incomplete ctx c refl).1)),
    )
