-- ===== src/GoMap.antt =====
-- Go's `map[string]V`, as an association list. A `range` loop visits the entries in the order of
-- the list, which stands for any order that the runtime may choose.
pub mod Laws
use enclout.Prelude.{String, Bool, Option, none, some, List, [], ◌∷◌, ◌==◌, if◌then◌else◌}

abbrev pub GoMap {ℓ} : Type ℓ → Type ℓ
GoMap V = List (String × V)

module _ {ℓ} {V : Type ℓ} where
  -- v, ok := m[key]
  unfoldable pub lookup : String → GoMap V → Option V
  lookup key [] = none
  lookup key ((i, held) ∷ entries) = if i == key then some held else lookup key entries

  -- m[key] = v
  unfoldable pub insert : String → V → GoMap V → GoMap V
  insert key v [] = (key, v) ∷ []
  insert key v ((i, held) ∷ entries) =
      let new = insert key v entries in if i == key then (i, v) ∷ entries else (i, held) ∷ new

  -- delete(m, k)
  unfoldable pub delete : String → GoMap V → GoMap V
  delete k [] = []
  delete k ((j, v) ∷ m) = let rest = delete k m in if j == k then rest else (j, v) ∷ rest

  -- for k, v := range m { if p(v) { delete(m, k) } }
  unfoldable pub delete_where : (V → Bool) → GoMap V → GoMap V
  delete_where p [] = []
  delete_where p ((j, v) ∷ m) =
      let rest = delete_where p m in if p v then delete j rest else (j, v) ∷ rest

  -- for k, v := range m { m[k] = f(k, v) }
  unfoldable pub map_values : (String → V → V) → GoMap V → GoMap V
  map_values f [] = []
  map_values f ((j, v) ∷ m) = (j, f j v) ∷ map_values f m
