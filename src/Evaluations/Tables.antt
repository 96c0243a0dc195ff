-- ===== src/Evaluations/Tables.antt =====
-- Updates and counts of a table whose rows have different ids.
use mathlib.Core.List.{Memᴰ}
use price_monitor.Prelude.{
  ℕ, suc, ◌+◌, ◌≤◌, map, Bool, true, false, [], ◌∷◌, ◌≡◌, refl, sym, ap, ◌∙◌, subst, inl, inr, All,
  All-Memᴰ, if◌then◌else◌, Bool-cases, Text, text_eq, text_eq_refl, arith,
}
use price_monitor.Evaluations.{Row, Table, update_where, count_where}

-- No two rows have one id.
abbrev pub IsUnique : Table → Type 0
IsUnique [] = Unit
IsUnique (r ∷ t) = All (λ (x : Row). text_eq x.id r.id ≡ false) t × IsUnique t

abbrev pub total_attempts : Table → ℕ
total_attempts [] = 0
total_attempts (r ∷ t) = r.attempts + total_attempts t

-- A change of rows that keeps their ids keeps them apart.
abbrev pub KeepsId : (Row → Row) → Type 0
KeepsId change = (r : Row) → (change r).id ≡ r.id

update-id :
    (p : Row → Bool) (change : Row → Row)
    → KeepsId change
    → KeepsId (λ r. if p r then change r else r)
update-id p change k r = elim (Bool-cases (p r)) [
  | inl hit ↦ rw hit (k r)
  | inr miss ↦ rw miss refl
]

update-All :
    (f : Row → Row) (id : Text) (t : Table)
    → KeepsId f
    → All (λ (x : Row). text_eq x.id id ≡ false) t
    → All (λ (x : Row). text_eq x.id id ≡ false) (map f t)
update-All f id [] k h = tt
update-All f id (r ∷ t) k (e, h) = (ap (λ i. text_eq i id) (k r) ∙ e, update-All f id t k h)

map-IsUnique : (f : Row → Row) (t : Table) → KeepsId f → IsUnique t → IsUnique (map f t)
map-IsUnique f [] k h = tt
map-IsUnique f (r ∷ t) k (apart, h) = (
  subst (λ i. All (λ (x : Row). text_eq x.id i ≡ false) (map f t)) (sym (k r))
      (update-All f r.id t k apart),
  map-IsUnique f t k h,
)

pub update_where-IsUnique :
    (p : Row → Bool) (change : Row → Row) (t : Table)
    → KeepsId change
    → IsUnique t
    → IsUnique (update_where p change t)
update_where-IsUnique p change t k h = map-IsUnique _ t (update-id p change k) h

pub unique-eq : {x y : Row} (t : Table) → IsUnique t → Memᴰ x t → Memᴰ y t → x.id ≡ y.id → x ≡ y
unique-eq [] u m n e = elim m [ ]
unique-eq (r ∷ t) u (Memᴰ.head a) (Memᴰ.head b) e = a ∙ sym b
unique-eq {x} {y} (r ∷ t) (apart, u) (Memᴰ.head a) (Memᴰ.tail n) e =
    let no : text_eq y.id r.id ≡ false = All-Memᴰ _ n apart in
    let same : y.id ≡ r.id = sym e ∙ ap Row.id a in
    let yes : text_eq y.id r.id ≡ true = rw same (text_eq_refl r.id) in
    let clash : true ≡ false = sym yes ∙ no in cc clash
unique-eq {x} {y} (r ∷ t) (apart, u) (Memᴰ.tail m) (Memᴰ.head b) e =
    let no : text_eq x.id r.id ≡ false = All-Memᴰ _ m apart in
    let same : x.id ≡ r.id = e ∙ ap Row.id b in
    let yes : text_eq x.id r.id ≡ true = rw same (text_eq_refl r.id) in
    let clash : true ≡ false = sym yes ∙ no in cc clash
unique-eq (r ∷ t) (apart, u) (Memᴰ.tail m) (Memᴰ.tail n) e = unique-eq t u m n e

count-other :
    (p : Row → Bool) (id : Text) (t : Table)
    → All (λ (x : Row). text_eq x.id id ≡ false) t
    → ((x : Row) → p x ≡ true → x.id ≡ id)
    → count_where p t ≡ 0
count-other p id [] apart only = refl
count-other p id (x ∷ t) (e, apart) only = elim (Bool-cases (p x)) [
  | inl hit ↦
      (let yes : text_eq x.id id ≡ true = rw (only x hit) (text_eq_refl id) in
        let clash : true ≡ false = sym yes ∙ e in cc clash)
  | inr miss ↦ rw miss (count-other p id t apart only)
]

-- A test that a row passes, and that asks for the row's id, passes that row alone.
pub count_where-one :
    (p : Row → Bool) {r : Row} (t : Table)
    → IsUnique t
    → Memᴰ r t
    → p r ≡ true
    → ((x : Row) → p x ≡ true → x.id ≡ r.id)
    → count_where p t ≡ 1
count_where-one p [] u m h only = elim m [ ]
count_where-one p {r} (x ∷ t) (apart, u) (Memᴰ.head e) h only =
    let hit : p x ≡ true = ap p (sym e) ∙ h in
    rw hit (ap suc (count-other p x.id t apart (λ y k. only y k ∙ ap Row.id e)))
count_where-one p {r} (x ∷ t) (apart, u) (Memᴰ.tail m) h only = elim (Bool-cases (p x)) [
  | inl hit ↦
      (let no : text_eq r.id x.id ≡ false = All-Memᴰ _ m apart in
        let yes : text_eq r.id x.id ≡ true = rw⁻¹ (only x hit) (text_eq_refl x.id) in
        let clash : true ≡ false = sym yes ∙ no in cc clash)
  | inr miss ↦ rw miss (count_where-one p t u m h only)
]

-- At most one row passes a test that asks for an id.
pub count_where_le :
    (p : Row → Bool) (id : Text) (t : Table)
    → IsUnique t
    → ((x : Row) → p x ≡ true → x.id ≡ id)
    → count_where p t ≤ 1
count_where_le p id [] u only = omega arith
count_where_le p id (x ∷ t) (apart, u) only = elim (Bool-cases (p x)) [
  | inl hit ↦
      (let rest = count-other p x.id t apart (λ y k. only y k ∙ sym (only x hit)) in
        rw hit (omega arith))
  | inr miss ↦ rw miss (count_where_le p id t u only)
]

-- The attempts of a table rise with each row that an update counts up.
pub update_where-attempts :
    (p : Row → Bool) (change : Row → Row) (t : Table)
    → ((r : Row) → (change r).attempts ≡ suc r.attempts)
    → total_attempts (update_where p change t) ≡ total_attempts t + count_where p t
update_where-attempts p change [] k = omega arith
update_where-attempts p change (r ∷ t) k =
    let ih = update_where-attempts p change t k in
    let step = k r in
    elim (Bool-cases (p r)) [ inl hit ↦ rw hit (omega arith) | inr miss ↦ rw miss (omega arith) ]

pub update_where-same_attempts :
    (p : Row → Bool) (change : Row → Row) (t : Table)
    → ((r : Row) → (change r).attempts ≡ r.attempts)
    → total_attempts (update_where p change t) ≡ total_attempts t
update_where-same_attempts p change [] k = refl
update_where-same_attempts p change (r ∷ t) k =
    let ih = update_where-same_attempts p change t k in
    let step = k r in
    elim (Bool-cases (p r)) [ inl hit ↦ rw hit (omega arith) | inr miss ↦ rw miss (omega arith) ]

-- An update that takes the rows it counts out of a set.
pub update_where-leaves :
    (q p : Row → Bool) (change : Row → Row) (t : Table)
    → ((x : Row) → Memᴰ x t → p x ≡ true → (q x ≡ true) × (q (change x) ≡ false))
    → count_where q (update_where p change t) + count_where p t ≡ count_where q t
update_where-leaves q p change [] h = refl
update_where-leaves q p change (r ∷ t) h =
    let ih = update_where-leaves q p change t (λ x m e. h x (Memᴰ.tail m) e) in
    elim (Bool-cases (p r)) [
      | inl hit ↦ let (here, gone) = h r (Memᴰ.head refl) hit in rw (hit, here, gone) (omega arith)
      | inr miss ↦ elim (Bool-cases (q r)) [
        | inl inside ↦ rw (miss, inside) (omega arith)
        | inr outside ↦ rw (miss, outside) ih
      ]
    ]

pub update_where-stays :
    (q p : Row → Bool) (change : Row → Row) (t : Table)
    → ((x : Row) → Memᴰ x t → p x ≡ true → q (change x) ≡ q x)
    → count_where q (update_where p change t) ≡ count_where q t
update_where-stays q p change [] h = refl
update_where-stays q p change (r ∷ t) h =
    let ih = update_where-stays q p change t (λ x m e. h x (Memᴰ.tail m) e) in
    elim (Bool-cases (p r)) [
      | inl hit ↦
          let same = h r (Memᴰ.head refl) hit in
          elim (Bool-cases (q r)) [
            | inl inside ↦ rw (hit, inside, same ∙ inside) (ap suc ih)
            | inr outside ↦ rw (hit, outside, same ∙ outside) ih
          ]
      | inr miss ↦ elim (Bool-cases (q r)) [
        | inl inside ↦ rw (miss, inside) (ap suc ih)
        | inr outside ↦ rw (miss, outside) ih
      ]
    ]
