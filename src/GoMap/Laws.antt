-- ===== src/GoMap/Laws.antt =====
-- What a look-up finds after each operation on a map.
use mathlib.Core.Option
use enclout.Prelude.{
  String, Bool, Option, none, some, [], ◌∷◌, ◌≡◌, refl, arith, ◌==◌, eq_iff, eq_refl, if◌then◌else◌,
}
use enclout.GoMap.{GoMap, lookup, insert, delete, delete_where, map_values}

-- What a deletion by value leaves of the value at a key.
abbrev pub keep_unless {ℓ} : {V : Type ℓ} → (V → Bool) → Option V → Option V
keep_unless p none = none
keep_unless p (some v) = if p v then none else some v

module _ {ℓ} {V : Type ℓ} where
  pub lookup-insert :
      (key j : String) (v : V) (m : GoMap V)
      → lookup j (insert key v m) ≡ (if key == j then some v else lookup j m)
  unfolding insert lookup
  lookup-insert key j v [] = refl
  lookup-insert key j v ((i, held) ∷ entries) =
      ground (arith, lookup-insert key j v entries, eq_iff i key, eq_iff i j, eq_iff key j)

  pub lookup-insert_self : (k : String) (v : V) (m : GoMap V) → lookup k (insert k v m) ≡ some v
  lookup-insert_self k v m = simp (lookup-insert, eq_refl)

  pub lookup-delete :
      (k j : String) (m : GoMap V) → lookup j (delete k m) ≡ (if k == j then none else lookup j m)
  unfolding lookup delete
  lookup-delete k j [] = ground arith
  lookup-delete k j ((i, w) ∷ m) =
      ground (arith, eq_iff i k, eq_iff k j, eq_iff i j, lookup-delete k j m)

  pub lookup-delete_where :
      (p : V → Bool) (j : String) (m : GoMap V)
      → lookup j (delete_where p m) ≡ keep_unless p (lookup j m)
  unfolding lookup delete_where
  lookup-delete_where p j [] = refl
  lookup-delete_where p j ((i, w) ∷ m) =
      ground (arith, lookup-delete i j (delete_where p m), lookup-delete_where p j m)

  pub lookup-map_values :
      (f : String → V → V) (j : String) (m : GoMap V)
      → lookup j (map_values f m) ≡ Option.map (f j) (lookup j m)
  unfolding lookup map_values
  lookup-map_values f j [] = refl
  lookup-map_values f j ((i, w) ∷ m) = ground (arith, eq_iff i j, lookup-map_values f j m)

pub ruleset map_laws = (lookup-insert, lookup-delete, lookup-delete_where, lookup-map_values)
