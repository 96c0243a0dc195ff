-- ===== src/Checkpoint/Aliases.antt =====
-- checkpoint-store.ts `isValidIdentityAliases` and checkpoint-semantics.ts
-- `canonicalCheckpointIdentity`. Both follow the aliases in a `while` loop, whose rounds the fuel
-- bounds: none is a loop that has not ended. The names that a JavaScript object inherits are no aliases.
use price_monitor.Prelude.{
  ℕ, zero, suc, Bool, true, false, not, ◌&&◌, Option, none, some, List, [], ◌∷◌, all, is_empty,
  length, if◌then◌else◌, Text, text_eq, Dict, get,
}
use price_monitor.OwnCatalog.{has}

abbrev pub step_or {ℓ} : {A : Type ℓ} → A → Option Text → (Text → A) → A
step_or done none next = done
step_or done (some target) next = next target

-- The `while (true)` of the validation: whether the aliases from one on end without a repetition.
unfoldable pub ends : ℕ → Dict Text → List Text → Text → Option Bool
ends zero aliases visited current = none
ends (suc fuel) aliases visited current = step_or (some true) (get current aliases) (λ target.
    let rest = ends fuel aliases (current ∷ visited) target in
    if has visited current then some false else rest)

-- The second loop: over the keys, up to the first that does not end well.
abbrev pub both : Option Bool → Option Bool → Option Bool
both none rest = none
both (some false) rest = some false
both (some true) rest = rest

unfoldable pub all_end : ℕ → Dict Text → List Text → Option Bool
all_end fuel aliases [] = some true
all_end fuel aliases (k ∷ keys) = both (ends fuel aliases [] k) (all_end fuel aliases keys)

-- The test of the first loop on one entry.
abbrev pub is_proper : Text × Text → Bool
is_proper (alias, target) =
    not (is_empty alias) && not (is_empty target) && not (text_eq alias target)

abbrev pub keys_of {ℓ} : {A : Type ℓ} → Dict A → List Text
keys_of [] = []
keys_of ((k, v) ∷ m) = k ∷ keys_of m

-- One round more than there are aliases.
abbrev pub rounds : Dict Text → ℕ
rounds aliases = suc (length aliases)

unfoldable pub is_valid_aliases : Dict Text → Option Bool
is_valid_aliases aliases =
    if all is_proper aliases then all_end (rounds aliases) aliases (keys_of aliases) else some false

-- `canonicalCheckpointIdentity`.
unfoldable pub canonical_from : ℕ → Dict Text → Text → Option Text
canonical_from zero aliases current = none
canonical_from (suc fuel) aliases current =
    step_or (some current) (get current aliases) (canonical_from fuel aliases)

unfoldable pub canonical_identity : Dict Text → Text → Option Text
canonical_identity aliases identity = canonical_from (rounds aliases) aliases identity
