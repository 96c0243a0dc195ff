-- ===== src/Runs/Invariant.antt =====
-- The invariant of the table of runs, and updates of its rows.
use mathlib.Core.List.{Memᴰ}
use price_monitor.Prelude.{
  ℕ, ◌+◌, ◌≤◌, ◌≡◌, refl, sym, ap, ◌∙◌, subst, inl, inr, Bool, true, false, not, ◌&&◌, ◌||◌, Option,
  none, some, [], ◌∷◌, arith, if◌then◌else◌, Bool-cases, All, IfSome, Text, text_eq,
}
use price_monitor.Runs.{Run, Table, is_unfinished, is_coalesced, is_running, absent, update_many}
use price_monitor.Runs.Queue.{in_slot, is_active_of}

abbrev pub bit : Bool → ℕ
bit true = 1
bit false = 0

-- How many rows pass a test.
unfoldable pub count : (Run → Bool) → Table → ℕ
count test [] = 0
count test (r ∷ t) = bit (test r) + count test t

abbrev pub has_id : Text → Run → Bool
has_id id r = text_eq r.id id

-- The row that a coalesced run points to: one of the same model that is itself no coalesced run.
abbrev pub IsTarget : Table → Text → Text → Type 0
IsTarget t model id =
    (s : Run) × Memᴰ s t × (s.id ≡ id) × (s.model ≡ model) × (is_coalesced s.status ≡ false)

-- A run points to another exactly when it is coalesced, and then to such a row.
abbrev pub IsLinked : Table → Run → Type 0
IsLinked t r =
    (is_coalesced r.status ≡ not (absent r.coalesced_into))
    × IfSome (IsTarget t r.model) r.coalesced_into

-- A running run has an agent and a heartbeat.
abbrev pub IsLeased : Run → Type 0
IsLeased r = (is_running r.status && (absent r.agent || absent r.heartbeat_at)) ≡ false

-- The invariant of the table.
pub record IsValid (t : Table) : Type 0 where
  pub ids : (id : Text) → count (has_id id) t ≤ 1
  pub slots :
      (model provider : Text) (scheduled_for : ℕ)
      → count (in_slot model provider scheduled_for) t ≤ 1
  pub one_unfinished : (model : Text) → count (is_active_of model) t ≤ 1
  pub linked : All (IsLinked t) t
  pub leased : All IsLeased t

pub empty-IsValid : IsValid []
unfolding count
empty-IsValid = record {
  ids = λ id. omega arith;
  slots = λ m p s. omega arith;
  one_unfinished = λ m. omega arith;
  linked = tt;
  leased = tt;
}

-- A change of one row that keeps what the invariant reads.
pub record Keeps (r s : Run) : Type 0 where
  pub id : s.id ≡ r.id
  pub model : s.model ≡ r.model
  pub provider : s.provider ≡ r.provider
  pub scheduled_for : s.scheduled_for ≡ r.scheduled_for
  pub coalesced_into : s.coalesced_into ≡ r.coalesced_into
  pub coalesced : is_coalesced s.status ≡ is_coalesced r.status
  pub unfinished : bit (is_unfinished s.status) ≤ bit (is_unfinished r.status)
  pub leased : IsLeased r → IsLeased s

pub Keeps-refl : (r : Run) → Keeps r r
Keeps-refl r = record {
  id = refl;
  model = refl;
  provider = refl;
  scheduled_for = refl;
  coalesced_into = refl;
  coalesced = refl;
  unfinished = omega arith;
  leased = λ h. h;
}

-- The row after an update.
abbrev pub updated : (Run → Bool) → (Run → Run) → Run → Run
updated test change r = if test r then change r else r

updated-Keeps :
    (test : Run → Bool) (change : Run → Run)
    → ((r : Run) → test r ≡ true → Keeps r (change r))
    → (r : Run) → Keeps r (updated test change r)
updated-Keeps test change h r = elim (Bool-cases (test r)) [
  | inl hit ↦ rw hit (h r hit)
  | inr miss ↦ rw miss (Keeps-refl r)
]

count-update_many :
    (p : Run → Bool) (test : Run → Bool) (change : Run → Run)
    → ((r : Run) → bit (p (updated test change r)) ≤ bit (p r))
    → (t : Table) → count p (update_many test change t) ≤ count p t
unfolding count update_many
count-update_many p test change h [] = omega arith
count-update_many p test change h (r ∷ t) =
    let head = h r in let tail = count-update_many p test change h t in omega arith

Memᴰ-update_many :
    (test : Run → Bool) (change : Run → Run) {s : Run} {t : Table}
    → Memᴰ s t
    → Memᴰ (updated test change s) (update_many test change t)
unfolding update_many
Memᴰ-update_many test change (Memᴰ.head {x} {xs} e) = Memᴰ.head (ap (updated test change) e)
Memᴰ-update_many test change (Memᴰ.tail {x} {xs} m) = Memᴰ.tail (Memᴰ-update_many test change m)

All-update_many {κ μ} :
    {P : Run → Type κ} (Q : Run → Type μ) (test : Run → Bool) (change : Run → Run)
    → ((r : Run) → P r → Q (updated test change r))
    → (t : Table) → All P t
    → All Q (update_many test change t)
unfolding update_many
All-update_many Q test change h [] k = tt
All-update_many Q test change h (r ∷ t) (p, k) = (h r p, All-update_many Q test change h t k)

IsTarget-update_many :
    (test : Run → Bool) (change : Run → Run) (t : Table) (model : Text)
    → ((r : Run) → Keeps r (updated test change r))
    → (o : Option Text) → IfSome (IsTarget t model) o
    → IfSome (IsTarget (update_many test change t) model) o
IsTarget-update_many test change t model h none k = tt
IsTarget-update_many test change t model h (some id) (s, m, e, f, g) =
    let k = h s in
    (updated test change s, Memᴰ-update_many test change m, k.id ∙ e, k.model ∙ f, k.coalesced ∙ g)

IsLinked-update_many :
    (test : Run → Bool) (change : Run → Run) (t : Table)
    → ((r : Run) → Keeps r (updated test change r))
    → (r : Run) → IsLinked t r
    → IsLinked (update_many test change t) (updated test change r)
IsLinked-update_many test change t h r (e, k) =
    let u = h r in
    (
      u.coalesced ∙ e ∙ ap (λ o. not (absent o)) (sym u.coalesced_into),
      IsTarget-update_many test change t _ h _ (
          subst (λ o. IfSome (IsTarget t (updated test change r).model) o) (sym u.coalesced_into)
            (subst (λ m. IfSome (IsTarget t m) r.coalesced_into) (sym u.model) k)),
    )

has_id-Keeps : (id : Text) (r s : Run) → Keeps r s → bit (has_id id s) ≤ bit (has_id id r)
has_id-Keeps id r s k = rw k.id (omega arith)

in_slot-Keeps :
    (model provider : Text) (at : ℕ) (r s : Run)
    → Keeps r s
    → bit (in_slot model provider at s) ≤ bit (in_slot model provider at r)
unfolding in_slot
in_slot-Keeps model provider at r s k = rw (k.model, k.provider, k.scheduled_for) (omega arith)

is_active_of-Keeps :
    (model : Text) (r s : Run) → Keeps r s → bit (is_active_of model s) ≤ bit (is_active_of model r)
unfolding is_active_of
is_active_of-Keeps model r s k = let h = k.unfinished in rw k.model (ground arith)

count-update_many_le :
    (p : Run → Bool) (test : Run → Bool) (change : Run → Run) (t : Table)
    → ((r : Run) → bit (p (updated test change r)) ≤ bit (p r))
    → count p t ≤ 1
    → count p (update_many test change t) ≤ 1
count-update_many_le p test change t h k =
    let m = count-update_many p test change h t in omega arith

-- An update by changes that keep their row keeps the table valid.
pub update_many-IsValid :
    (test : Run → Bool) (change : Run → Run) (t : Table)
    → ((r : Run) → test r ≡ true → Keeps r (change r))
    → IsValid t
    → IsValid (update_many test change t)
update_many-IsValid test change t keeps v =
    let h : ((r : Run) → Keeps r (updated test change r)) = updated-Keeps test change keeps in
    record {
      ids = λ id.
          count-update_many_le (has_id id) test change t (λ r. has_id-Keeps id r _ (h r))
            (v.ids id);
      slots = λ m p s.
          count-update_many_le (in_slot m p s) test change t (λ r. in_slot-Keeps m p s r _ (h r))
            (v.slots m p s);
      one_unfinished = λ m.
          count-update_many_le (is_active_of m) test change t (λ r. is_active_of-Keeps m r _ (h r))
            (v.one_unfinished m);
      linked =
          All-update_many (IsLinked (update_many test change t)) test change
            (IsLinked-update_many test change t h) t v.linked;
      leased = All-update_many IsLeased test change (λ r. (h r).leased) t v.leased;
    }
