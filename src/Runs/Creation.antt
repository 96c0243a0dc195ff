-- ===== src/Runs/Creation.antt =====
-- collection-run-queue.service.ts: a new run is queued, or coalesced into the active run of its model.
use mathlib.Core.List.{Memᴰ}
use price_monitor.Prelude.{
  ℕ, ◌≤◌, ◌≡◌, ◌≢◌, refl, sym, ◌∙◌, subst, inl, inr, Bool, true, false, not, Option, none, some,
  List, [], ◌∷◌, arith, if◌then◌else◌, ==_iff, Bool-cases, some-ne-none, All, IfSome, Text,
  text_eq_iff, text_eq→eq, &&-left, find, head?, find-eq-some, find-eq-none, All-of_Memᴰ, All-Memᴰ,
  Memᴰ-filter, Memᴰ-filter_of, Memᴰ-head?, Memᴰ_of_sort, Memᴰ-sort, ok, ok-injective,
}
use price_monitor.Runs.{Status, Run, Table, is_unfinished, is_coalesced, absent, desktop_provider}
use price_monitor.Runs.Queue.{
  Model, Request, Defaults, Created, in_slot, compare_queue, is_active_of, active_run, id_of,
  initial_status, new_run, insert_run, create_unlocked, is_enabled_model, create_or_coalesce,
  returned_id,
}
use price_monitor.Runs.Invariant.{count, has_id, IsTarget, IsLinked, IsLeased, IsValid}

false-ne-true : false ≢ true
false-ne-true e = cc

-- A test that no row passes counts none.
count-eq-zero : (p : Run → Bool) (t : Table) → ((r : Run) → Memᴰ r t → p r ≡ false) → count p t ≡ 0
unfolding count
count-eq-zero p [] h = refl
count-eq-zero p (r ∷ t) h =
    let first = h r (Memᴰ.head refl) in
    let rest = count-eq-zero p t (λ s m. h s (Memᴰ.tail m)) in ground arith

pub head?-ne-none {ℓ} : {A : Type ℓ} {a : A} {xs : List A} → Memᴰ a xs → head? xs ≢ none
head?-ne-none (Memᴰ.head {x} {xs} m) e = some-ne-none e
head?-ne-none (Memᴰ.tail {x} {xs} m) e = some-ne-none e

pub active_run-eq-some :
    (model : Text) (t : Table) {a : Run}
    → active_run model t ≡ some a
    → Memᴰ a t × (is_active_of model a ≡ true)
unfolding active_run
active_run-eq-some model t e =
    Memᴰ-filter (is_active_of model) t (Memᴰ_of_sort compare_queue _ (Memᴰ-head? _ e))

active_run-eq-none :
    (model : Text) (t : Table) → active_run model t ≡ none → count (is_active_of model) t ≡ 0
unfolding active_run
active_run-eq-none model t e = count-eq-zero (is_active_of model) t λ r m.
    elim (Bool-cases (is_active_of model r)) [
      | inr idle ↦ idle
      | inl active ↦ absurd (
          head?-ne-none (Memᴰ-sort compare_queue _ (Memᴰ-filter_of (is_active_of model) m active))
            e)
    ]

-- Where a row is added that a test counts only if it counts no other.
count-cons_le :
    (p : Run → Bool) (r : Run) (t : Table)
    → (p r ≡ true → count p t ≡ 0)
    → count p t ≤ 1
    → count p (r ∷ t) ≤ 1
unfolding count
count-cons_le p r t h k = elim (Bool-cases (p r)) [
  | inl hit ↦ let none_else = h hit in rw (hit, none_else) (omega arith)
  | inr miss ↦ rw miss (omega arith)
]

pub in_slot-eq_true :
    (model provider : Text) (at : ℕ) (r : Run)
    → in_slot model provider at r ≡ true
    → (r.model ≡ model) × (r.provider ≡ provider) × (r.scheduled_for ≡ at)
unfolding in_slot
in_slot-eq_true model provider at r h = (
  ground (arith, text_eq_iff r.model model),
  ground (arith, text_eq_iff r.provider provider),
  ground (arith, ==_iff r.scheduled_for at),
)

is_active_of-eq_true :
    (model : Text) (r : Run)
    → is_active_of model r ≡ true
    → (is_unfinished r.status ≡ true) × (r.model ≡ model)
unfolding is_active_of
is_active_of-eq_true model r h = (&&-left _ _ h, ground (arith, text_eq_iff r.model model))

unfinished→not_coalesced : (s : Status) → is_unfinished s ≡ true → is_coalesced s ≡ false
unfinished→not_coalesced s h = ground arith

-- The run that a new run is coalesced into.
new_run-IsTarget :
    (request : Request) (defaults : Defaults) (t : Table) (o : Option Run)
    → active_run request.model t ≡ o
    → IfSome (IsTarget (new_run request defaults o ∷ t) request.model) (id_of o)
new_run-IsTarget request defaults t none e = tt
new_run-IsTarget request defaults t (some a) e =
    let (m, h) = active_run-eq-some request.model t e in
    let (live, same) = is_active_of-eq_true request.model a h in
    (a, Memᴰ.tail m, refl, same, unfinished→not_coalesced a.status live)

new_run-linked : (o : Option Run) → is_coalesced (initial_status o) ≡ not (absent (id_of o))
new_run-linked none = refl
new_run-linked (some a) = refl

IsTarget-cons :
    (r : Run) (t : Table) (model : Text) (o : Option Text)
    → IfSome (IsTarget t model) o
    → IfSome (IsTarget (r ∷ t) model) o
IsTarget-cons r t model none h = tt
IsTarget-cons r t model (some id) (s, m, e, f, g) = (s, Memᴰ.tail m, e, f, g)

new_run-active :
    (request : Request) (defaults : Defaults) (t : Table) (o : Option Run) (model : Text)
    → active_run request.model t ≡ o
    → is_active_of model (new_run request defaults o) ≡ true
    → count (is_active_of model) t ≡ 0
unfolding new_run
new_run-active request defaults t none model e h =
    let (live, same) = is_active_of-eq_true model (new_run request defaults none) h in
    subst (λ m. count (is_active_of m) t ≡ 0) same (active_run-eq-none request.model t e)
new_run-active request defaults t (some a) model e h =
    let (live, same) = is_active_of-eq_true model (new_run request defaults (some a)) h in
    absurd (false-ne-true live)

new_run-fresh :
    (request : Request) (defaults : Defaults) (t : Table) (o : Option Run) (id : Text)
    → has_id id (new_run request defaults o) ≡ true
    → count (has_id defaults.id) t ≡ 0
    → count (has_id id) t ≡ 0
unfolding new_run
new_run-fresh request defaults t o id h fresh =
    subst (λ i. count (has_id i) t ≡ 0) (text_eq→eq defaults.id id h) fresh

new_run-slot :
    (request : Request) (defaults : Defaults) (t : Table) (o : Option Run) (m p : Text) (s : ℕ)
    → in_slot m p s (new_run request defaults o) ≡ true
    → count (in_slot request.model desktop_provider request.scheduled_for) t ≡ 0
    → count (in_slot m p s) t ≡ 0
unfolding new_run
new_run-slot request defaults t o m p s h free =
    let (a, b, c) = in_slot-eq_true m p s (new_run request defaults o) h in
    rw (sym a, sym b, sym c) free

new_run-IsLeased :
    (request : Request) (defaults : Defaults) (o : Option Run)
    → IsLeased (new_run request defaults o)
unfolding new_run
new_run-IsLeased request defaults none = refl
new_run-IsLeased request defaults (some a) = refl

IsLinked-cons : (r : Run) (t : Table) → All (IsLinked t) t → All (IsLinked (r ∷ t)) t
IsLinked-cons r t h =
    All-of_Memᴰ (IsLinked (r ∷ t)) t
      λ s m. let (e, k) = All-Memᴰ _ m h in (e, IsTarget-cons r t s.model s.coalesced_into k)

new_run-IsLinked :
    (request : Request) (defaults : Defaults) (t : Table) (o : Option Run)
    → active_run request.model t ≡ o
    → IsLinked (new_run request defaults o ∷ t) (new_run request defaults o)
unfolding new_run
new_run-IsLinked request defaults t o e =
    (new_run-linked o, unfold new_run in new_run-IsTarget request defaults t o e)

insert_run-IsValid :
    (request : Request) (defaults : Defaults) (t : Table) (o : Option Run)
    → active_run request.model t ≡ o
    → count (has_id defaults.id) t ≡ 0
    → count (in_slot request.model desktop_provider request.scheduled_for) t ≡ 0
    → IsValid t
    → IsValid (insert_run request defaults t o).table
unfolding insert_run
insert_run-IsValid request defaults t o e fresh free v =
    let r : Run = new_run request defaults o in
    record {
      ids = λ id.
          count-cons_le (has_id id) r t (λ h. new_run-fresh request defaults t o id h fresh)
            (v.ids id);
      slots = λ m p s.
          count-cons_le (in_slot m p s) r t (λ h. new_run-slot request defaults t o m p s h free)
            (v.slots m p s);
      one_unfinished = λ m.
          count-cons_le (is_active_of m) r t (new_run-active request defaults t o m e)
            (v.one_unfinished m);
      linked = (new_run-IsLinked request defaults t o e, IsLinked-cons r t v.linked);
      leased = (new_run-IsLeased request defaults o, v.leased);
    }

pub create_unlocked-IsValid :
    (request : Request) (defaults : Defaults) (t : Table) (o : Option Run)
    → find (in_slot request.model desktop_provider request.scheduled_for) t ≡ o
    → count (has_id defaults.id) t ≡ 0
    → IsValid t
    → IsValid (create_unlocked request defaults t o).table
unfolding create_unlocked
create_unlocked-IsValid request defaults t (some r) e fresh v = v
create_unlocked-IsValid request defaults t none e fresh v =
    insert_run-IsValid request defaults t (active_run request.model t) refl fresh
      (count-eq-zero _ t (λ r m. find-eq-none _ e m)) v

pub create_or_coalesce-IsValid :
    (models : List Model) (request : Request) (defaults : Defaults) (t : Table) {c : Created}
    → create_or_coalesce models request defaults t ≡ ok c
    → count (has_id defaults.id) t ≡ 0
    → IsValid t
    → IsValid c.table
unfolding create_or_coalesce
create_or_coalesce-IsValid models request defaults t {c} h fresh v =
    elim (Bool-cases (is_enabled_model models request.model)) [
      | inr disabled ↦ cc (rw disabled at h)
      | inl enabled ↦
          subst (λ (d : Created). IsValid d.table) (ok-injective (rw enabled at h))
            (create_unlocked-IsValid request defaults t _ refl fresh v)
    ]

-- A table has a run that the caller may be told of: one of the model, and no coalesced one.
abbrev pub IsTold : Table → Text → Option Text → Type 0
IsTold t model o = (id : Text) × (o ≡ some id) × IsTarget t model id

linked-IsTold :
    (t : Table) (model : Text) (o : Option Text)
    → true ≡ not (absent o)
    → IfSome (IsTarget t model) o
    → IsTold t model o
linked-IsTold t model none e h = absurd (false-ne-true (sym e))
linked-IsTold t model (some id) e h = (id, refl, h)

pub same_slot-IsTold :
    (request : Request) (t : Table) (r : Run)
    → Memᴰ r t
    → r.model ≡ request.model
    → IsLinked t r
    → IsTold t request.model (if is_coalesced r.status then r.coalesced_into else some r.id)
same_slot-IsTold request t r m same (e, h) = elim (Bool-cases (is_coalesced r.status)) [
  | inl joined ↦ rw joined (
      linked-IsTold t request.model r.coalesced_into (sym joined ∙ e)
        (subst (λ k. IfSome (IsTarget t k) r.coalesced_into) same h))
  | inr alone ↦ rw alone (r.id, refl, (r, m, refl, same, alone))
]

insert_run-IsTold :
    (request : Request) (defaults : Defaults) (t : Table) (o : Option Run)
    → active_run request.model t ≡ o
    → IsTold
        (insert_run request defaults t o).table
        request.model
        (returned_id (insert_run request defaults t o))
unfolding insert_run new_run
insert_run-IsTold request defaults t none e =
    (defaults.id, refl, (new_run request defaults none, Memᴰ.head refl, refl, refl, refl))
insert_run-IsTold request defaults t (some a) e =
    (a.id, refl, unfold new_run in new_run-IsTarget request defaults t (some a) e)

pub create_unlocked-IsTold :
    (request : Request) (defaults : Defaults) (t : Table) (o : Option Run)
    → find (in_slot request.model desktop_provider request.scheduled_for) t ≡ o
    → IsValid t
    → IsTold
        (create_unlocked request defaults t o).table
        request.model
        (returned_id (create_unlocked request defaults t o))
unfolding create_unlocked
create_unlocked-IsTold request defaults t (some r) e v =
    let (m, h) = find-eq-some _ t e in
    same_slot-IsTold request t r m (in_slot-eq_true _ _ _ r h).0 (All-Memᴰ _ m v.linked)
create_unlocked-IsTold request defaults t none e v =
    insert_run-IsTold request defaults t (active_run request.model t) refl

create_unlocked-Memᴰ :
    (request : Request) (defaults : Defaults) (t : Table) (o : Option Run) {r : Run}
    → Memᴰ r t
    → Memᴰ r (create_unlocked request defaults t o).table
unfolding create_unlocked insert_run
create_unlocked-Memᴰ request defaults t (some q) m = m
create_unlocked-Memᴰ request defaults t none m = Memᴰ.tail m

-- A creation changes no row.
pub create_or_coalesce-Memᴰ :
    (models : List Model) (request : Request) (defaults : Defaults) (t : Table) {c : Created}
    {r : Run}
    → create_or_coalesce models request defaults t ≡ ok c
    → Memᴰ r t
    → Memᴰ r c.table
unfolding create_or_coalesce
create_or_coalesce-Memᴰ models request defaults t {c} {r} h m =
    elim (Bool-cases (is_enabled_model models request.model)) [
      | inr disabled ↦ cc (rw disabled at h)
      | inl enabled ↦
          subst (λ (d : Created). Memᴰ r d.table) (ok-injective (rw enabled at h))
            (create_unlocked-Memᴰ request defaults t _ m)
    ]
