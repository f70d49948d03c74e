-- ===== src/Maps.antt =====
-- A map with byte strings for keys, as an association list.
use ds4_rs.Base.{
  ◌≡◌, refl, List, [], ◌∷◌, Option, none, some, if◌then◌else◌, list_eq, list_eq_iff, list_eq_refl,
  arith,
}
use ds4_rs.Bytes.{Bytes}

module _ {ℓ} {V : Type ℓ} where
  -- `map.get(key)`
  unfoldable pub lookup : Bytes → List (Bytes × V) → Option V
  lookup k [] = none
  lookup k ((j, v) ∷ m) = if list_eq j k then some v else lookup k m

  -- `map.insert(key, value)`
  unfoldable pub insert : Bytes → V → List (Bytes × V) → List (Bytes × V)
  insert k v [] = (k, v) ∷ []
  insert k v ((j, w) ∷ m) = if list_eq j k then (k, v) ∷ m else (j, w) ∷ insert k v m

  pub lookup-insert :
      (k j : Bytes) (v : V) (m : List (Bytes × V))
      → lookup j (insert k v m) ≡ (if list_eq k j then some v else lookup j m)
  unfolding lookup insert
  lookup-insert k j v [] = refl
  lookup-insert k j v ((i, w) ∷ m) =
      ground (arith, list_eq_iff k j, list_eq_iff i k, list_eq_iff i j, lookup-insert k j v m)

  pub lookup-insert_self :
      (k : Bytes) (v : V) (m : List (Bytes × V)) → lookup k (insert k v m) ≡ some v
  lookup-insert_self k v m = rw (lookup-insert k k v m, list_eq_refl k)
