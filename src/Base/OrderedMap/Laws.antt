-- ===== src/Base/OrderedMap/Laws.antt =====
-- The laws of ordered maps: order is kept, and a lookup sees the last insertion or removal.
use mouse_without_borders.Base.Tests.{◌==◌, ==_iff, Bool-cases}
use Prim.Native.Nat.{ℕ, suc, ◌≤◌, ◌<◌}
use mathlib.Core.Path.{◌≡◌, subst}
use mathlib.Core.Logic.{inl, inr}
use mathlib.Core.Option.{some}
use mathlib.Core.List.{List, [], ◌∷◌}
use native.Mathlib.Omega.{arith}
use mouse_without_borders.Base.OrderedMap.{insert, get, remove, IsSortedFrom, last_key}

module _ {V : Type 0} (P : ℕ → V → Type 0) where
  pub IsSortedFrom-mono :
      (lo lo' : ℕ) (m : List (ℕ × V)) → lo' ≤ lo → IsSortedFrom P lo m → IsSortedFrom P lo' m
  IsSortedFrom-mono lo lo' [] h s = tt
  IsSortedFrom-mono lo lo' ((j, w) ∷ rest) h s = (omega arith, s.1, s.2)

  pub insert-IsSortedFrom :
      (lo k : ℕ) (v : V) (m : List (ℕ × V))
      → lo ≤ k
      → P k v
      → IsSortedFrom P lo m
      → IsSortedFrom P lo (insert k v m)
  unfolding insert
  insert-IsSortedFrom lo k v [] h p s = (h, p, tt)
  insert-IsSortedFrom lo k v ((j, w) ∷ rest) h p s =
      ground (arith, insert-IsSortedFrom (suc j) k v rest)

  pub remove-IsSortedFrom :
      (lo k : ℕ) (m : List (ℕ × V)) → IsSortedFrom P lo m → IsSortedFrom P lo (remove k m)
  unfolding remove
  remove-IsSortedFrom lo k [] s = tt
  remove-IsSortedFrom lo k ((j, w) ∷ rest) s =
      ground (arith, remove-IsSortedFrom (suc j) k rest, IsSortedFrom-mono (suc j) lo rest)

module _ {V : Type 0} (P : ℕ → V → Type 0) where
  -- What is found lies at or above the start, and satisfies the map's predicate.
  pub get_sound :
      (lo k : ℕ) (m : List (ℕ × V)) {v : V}
      → IsSortedFrom P lo m
      → get k m ≡ some v
      → (lo ≤ k) × P k v
  unfolding get
  get_sound lo k [] s h = cc
  get_sound lo k ((j, w) ∷ rest) {v} s h = elim (Bool-cases (j == k)) [
    | inl e ↦
        let at : j ≡ k = (==_iff j k).0 e in
        let same : w ≡ v = ground arith in
        (omega arith, subst (λ i. P i v) at (subst (P j) same s.1))
    | inr e ↦
        let found = get_sound (suc j) k rest {v = v} s.2 (ground arith) in
        (ground (arith, found), found.1)
  ]

  -- Without the first key, the map lies above it.
  pub remove-above :
      (lo k : ℕ) (m : List (ℕ × V))
      → IsSortedFrom P lo m
      → k ≤ lo
      → IsSortedFrom P (suc k) (remove k m)
  unfolding remove
  remove-above lo k [] s h = tt
  remove-above lo k ((j, w) ∷ rest) s h = elim (Bool-cases (j == k)) [
    | inl e ↦ rw e (IsSortedFrom-mono P (suc j) (suc k) rest (ground arith) s.2)
    | inr e ↦ rw e (ground arith, s.1, remove_absent j k rest s.2 (ground arith))
  ]
    where
      remove_absent :
          (j k : ℕ) (m : List (ℕ × V))
          → IsSortedFrom P (suc j) m
          → k < j
          → IsSortedFrom P (suc j) (remove k m)
      remove_absent j k m s h = remove-IsSortedFrom P (suc j) k m s

  -- The last key lies at or above the start, and so does its entry.
  pub last_key_sound :
      (lo : ℕ) (m : List (ℕ × V)) {k : ℕ}
      → IsSortedFrom P lo m
      → last_key m ≡ some k
      → (lo ≤ k) × ((v : V) × P k v)
  last_key_sound lo [] s h = cc
  last_key_sound lo ((j, w) ∷ []) {k} s h =
      let at : j ≡ k = ground arith in (omega arith, (w, subst (λ i. P i w) at s.1))
  last_key_sound lo ((j, w) ∷ (e ∷ rest)) {k} s h =
      let found = last_key_sound (suc j) (e ∷ rest) {k = k} s.2 h in
      (ground (arith, found, s.0), found.1)
