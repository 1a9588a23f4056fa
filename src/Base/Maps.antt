-- ===== src/Base/Maps.antt =====
-- `BTreeMap` with text keys: its entries in the order of the keys.
use Prim.Native.Nat.{Ordering}
use Prim.Native.String.{String, compare}
use mathlib.Core.Option.{Option, none, some}
use mathlib.Core.List.{List, [], ◌∷◌}

abbrev pub BTreeMap {ℓ} : Type ℓ → Type ℓ
BTreeMap A = List (String × A)

module _ {ℓ} {A : Type ℓ} where
  -- `insert`: a new value for a key that is there already.
  abbrev pub insert_entry : String → A → BTreeMap A → BTreeMap A
  insert_entry key value [] = (key, value) ∷ []
  insert_entry key value ((k, v) ∷ rest) =
      let inserted = insert_entry key value rest in
      elim (compare key k) [
        | Ordering.lt ↦ (key, value) ∷ (k, v) ∷ rest
        | Ordering.eq ↦ (key, value) ∷ rest
        | Ordering.gt ↦ (k, v) ∷ inserted
      ]

  -- `BTreeMap::from`, which inserts the entries one after the other.
  abbrev pub extend : BTreeMap A → List (String × A) → BTreeMap A
  extend entries [] = entries
  extend entries ((key, value) ∷ rest) = extend (insert_entry key value entries) rest

  abbrev pub btree_map : List (String × A) → BTreeMap A
  btree_map = extend []

  -- `get`.
  abbrev pub get : String → BTreeMap A → Option A
  get key [] = none
  get key ((k, v) ∷ rest) =
      let further = get key rest in
      elim (compare key k) [ Ordering.lt ↦ none | Ordering.eq ↦ some v | Ordering.gt ↦ further ]
