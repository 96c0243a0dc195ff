-- ===== src/Checkpoint/Resolution.antt =====
-- The end of the loops over aliases.
use mathlib.Core.List.{Memᴰ}
use price_monitor.Prelude.{
  ℕ, zero, suc, ◌≤◌, ◌<◌, Bool, true, false, not, Option, none, some, List, [], ◌∷◌, ◌≡◌, refl, sym,
  ap, ◌∙◌, subst, inl, inr, all, filter, length, any, Bool-cases, Option-cases, Text, text_eq,
  text_eq→eq, text_eq_refl, Dict, get, none-ne-some, arith,
}
use price_monitor.OwnCatalog.{has}
use price_monitor.Checkpoint.Aliases.{
  ends, all_end, both, is_proper, keys_of, rounds, is_valid_aliases, canonical_from,
  canonical_identity,
}

-- The keys that a walk has not visited yet.
abbrev left : Dict Text → List Text → ℕ
left aliases visited = length (filter (λ (k : Text). not (has visited k)) (keys_of aliases))

keys_of-get : (k : Text) (m : Dict Text) {v : Text} → get k m ≡ some v → Memᴰ k (keys_of m)
unfolding get
keys_of-get k [] h = absurd (none-ne-some h)
keys_of-get k ((j, w) ∷ m) {v} h = elim (Bool-cases (text_eq j k)) [
  | inl hit ↦ Memᴰ.head (sym (text_eq→eq j k hit))
  | inr miss ↦ Memᴰ.tail (keys_of-get k m (let h' : get k m ≡ some v = rw miss at h in h'))
]

-- A further visit leaves no more keys, and fewer if the key is new.
filter-visit_le :
    (current : Text) (visited keys : List Text)
    → length (filter (λ (k : Text). not (has (current ∷ visited) k)) keys)
      ≤ length (filter (λ (k : Text). not (has visited k)) keys)
unfolding has
filter-visit_le current visited [] = omega arith
filter-visit_le current visited (k ∷ keys) = ground (arith, filter-visit_le current visited keys)

filter-visit_lt :
    {current : Text} (visited : List Text) {keys : List Text}
    → Memᴰ current keys
    → has visited current ≡ false
    → length (filter (λ (k : Text). not (has (current ∷ visited) k)) keys)
      < length (filter (λ (k : Text). not (has visited k)) keys)
unfolding has
filter-visit_lt {current} visited (Memᴰ.head {x} {xs} e) new =
    let same : text_eq x current ≡ true = rw e (text_eq_refl x) in
    let new' : any (text_eq x) visited ≡ false =
      subst (λ y. any (text_eq y) visited ≡ false) e new in
    let rest = filter-visit_le current visited xs in rw (same, new') (omega arith)
filter-visit_lt {current} visited (Memᴰ.tail {x} {xs} m) new =
    ground (arith, filter-visit_lt visited m new)

-- The walk of the validation ends within one round more than there are keys that it has not visited.
ends-total :
    (fuel : ℕ) (aliases : Dict Text) (visited : List Text) (current : Text)
    → left aliases visited < fuel
    → (b : Bool) × (ends fuel aliases visited current ≡ some b)
unfolding ends
ends-total zero aliases visited current h = absurd (omega arith)
ends-total (suc fuel) aliases visited current h = elim (Option-cases (get current aliases)) [
  | inl stop ↦ (true, rw stop refl)
  | inr (target, more) ↦ elim (Bool-cases (has visited current)) [
    | inl again ↦ (false, rw (more, again) refl)
    | inr new ↦
        (let fewer = filter-visit_lt visited (keys_of-get current aliases more) new in
          let (b, e) = ends-total fuel aliases (current ∷ visited) target (omega arith) in
          (b, rw (more, new) e))
  ]
]

left-nil : (m : Dict Text) → left m [] ≡ length m
unfolding has
left-nil [] = refl
left-nil ((k, v) ∷ m) = ap suc (left-nil m)

ends-rounds :
    (aliases : Dict Text) (k : Text) → (b : Bool) × (ends (rounds aliases) aliases [] k ≡ some b)
ends-rounds aliases k =
    let all_left = left-nil aliases in ends-total (rounds aliases) aliases [] k (omega arith)

all_end-total :
    (aliases : Dict Text) (keys : List Text)
    → (b : Bool) × (all_end (rounds aliases) aliases keys ≡ some b)
unfolding all_end
all_end-total aliases [] = (true, refl)
all_end-total aliases (k ∷ keys) =
    let (b, e) = ends-rounds aliases k in let (c, f) = all_end-total aliases keys in either b e c f
  where
    either :
        (b : Bool)
        → ends (rounds aliases) aliases [] k ≡ some b
        → (c : Bool) → all_end (rounds aliases) aliases keys ≡ some c
        → (d : Bool) × (all_end (rounds aliases) aliases (k ∷ keys) ≡ some d)
    either true e c f = (c, unfold all_end in rw e f)
    either false e c f = (false, unfold all_end in rw e refl)

-- The validation of the aliases ends: on every map, also one whose aliases run in a circle.
pub is_valid_aliases-total :
    (aliases : Dict Text) → (b : Bool) × (is_valid_aliases aliases ≡ some b)
unfolding is_valid_aliases
is_valid_aliases-total aliases = elim (Bool-cases (all is_proper aliases)) [
  | inl proper ↦ let (b, e) = all_end-total aliases (keys_of aliases) in (b, rw proper e)
  | inr improper ↦ (false, rw improper refl)
]

-- Where the validation's walk ends without a repetition, the identity's does too, at no alias.
ends-canonical :
    (fuel : ℕ) (aliases : Dict Text) (visited : List Text) (current : Text)
    → ends fuel aliases visited current ≡ some true
    → (r : Text) × (canonical_from fuel aliases current ≡ some r) × (get r aliases ≡ none)
unfolding ends canonical_from
ends-canonical zero aliases visited current h = absurd (none-ne-some h)
ends-canonical (suc fuel) aliases visited current h = elim (Option-cases (get current aliases)) [
  | inl stop ↦ (current, rw stop refl, stop)
  | inr (target, more) ↦ elim (Bool-cases (has visited current)) [
    | inl again ↦ (let h' : some false ≡ some true = rw (more, again) at h in cc h')
    | inr new ↦
        (let (r, e, at) =
            ends-canonical fuel aliases (current ∷ visited) target (rw (more, new) at h) in
          (r, rw more e, at))
  ]
]

both-first : (a b : Option Bool) → both a b ≡ some true → a ≡ some true
both-first none b h = absurd (none-ne-some h)
both-first (some false) b h = cc
both-first (some true) b h = refl

both-second : (a b : Option Bool) → both a b ≡ some true → b ≡ some true
both-second none b h = absurd (none-ne-some h)
both-second (some false) b h = cc
both-second (some true) b h = h

all_end-Memᴰ :
    (fuel : ℕ) (aliases : Dict Text) {k : Text} {keys : List Text}
    → all_end fuel aliases keys ≡ some true
    → Memᴰ k keys
    → ends fuel aliases [] k ≡ some true
unfolding all_end
all_end-Memᴰ fuel aliases h (Memᴰ.head {x} {xs} e) =
    ap (ends fuel aliases []) e ∙ both-first _ (all_end fuel aliases xs) h
all_end-Memᴰ fuel aliases h (Memᴰ.tail {x} {xs} m) =
    all_end-Memᴰ fuel aliases (both-second (ends fuel aliases [] x) _ h) m

is_valid_aliases-ends :
    (aliases : Dict Text)
    → is_valid_aliases aliases ≡ some true
    → all_end (rounds aliases) aliases (keys_of aliases) ≡ some true
unfolding is_valid_aliases
is_valid_aliases-ends aliases h = elim (Bool-cases (all is_proper aliases)) [
  | inl proper ↦ rw proper at h
  | inr improper ↦ (let h' : some false ≡ some true = rw improper at h in cc h')
]

-- On aliases that the checkpoint's validation accepts, the loop that resolves an identity ends, for every
-- identity, and it ends at one that is no alias.
pub canonical_identity-total :
    (aliases : Dict Text) (identity : Text)
    → is_valid_aliases aliases ≡ some true
    → (r : Text) × (canonical_identity aliases identity ≡ some r) × (get r aliases ≡ none)
unfolding canonical_identity canonical_from
canonical_identity-total aliases identity h = elim (Option-cases (get identity aliases)) [
  | inl stop ↦ (identity, rw stop refl, stop)
  | inr (target, more) ↦ ends-canonical (rounds aliases) aliases [] identity (
      all_end-Memᴰ (rounds aliases) aliases (is_valid_aliases-ends aliases h)
        (keys_of-get identity aliases more))
]
