-- ===== src/Base/OrderedMap.antt =====
-- The standard library's `BTreeMap` with keys u64, as the list of its entries in order, with the
-- operations that the code calls.
pub mod Laws
use mouse_without_borders.Base.Tests.{ltb, ◌==◌, if◌then◌else◌}
use Prim.Native.Nat.{ℕ, suc, ◌≤◌}
use mathlib.Core.Option.{Option, none, some}
use mathlib.Core.Bool.{Bool, true, false, ◌||◌}
use mathlib.Core.List.{List, [], ◌∷◌}

module _ {V : Type 0} where
  unfoldable pub insert : ℕ → V → List (ℕ × V) → List (ℕ × V)
  insert k v [] = (k, v) ∷ []
  insert k v ((j, w) ∷ rest) =
      let later = insert k v rest in
      if ltb k j then (k, v) ∷ ((j, w) ∷ rest) else if k == j then (k, v) ∷ rest else (j, w) ∷ later

  unfoldable pub get : ℕ → List (ℕ × V) → Option V
  get k [] = none
  get k ((j, w) ∷ rest) = if j == k then some w else get k rest

  unfoldable pub remove : ℕ → List (ℕ × V) → List (ℕ × V)
  remove k [] = []
  remove k ((j, w) ∷ rest) = let later = remove k rest in if j == k then rest else (j, w) ∷ later

  abbrev pub first_key : List (ℕ × V) → Option ℕ
  first_key [] = none
  first_key ((j, w) ∷ rest) = some j

  abbrev pub last_key : List (ℕ × V) → Option ℕ
  last_key [] = none
  last_key ((j, w) ∷ []) = some j
  last_key ((j, w) ∷ (e ∷ rest)) = last_key (e ∷ rest)

  -- The keys rise from `lo` on, and `P` holds of every entry.
  abbrev pub IsSortedFrom : (ℕ → V → Type 0) → ℕ → List (ℕ × V) → Type 0
  IsSortedFrom P lo [] = Unit
  IsSortedFrom P lo ((j, w) ∷ rest) = (lo ≤ j) × P j w × IsSortedFrom P (suc j) rest
