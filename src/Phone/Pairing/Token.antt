-- ===== src/Phone/Pairing/Token.antt =====
-- The comparison in constant time is equality of bytes.
use Prim.Native.Nat.{bit_or, bit_xor}
use mouse_without_borders.Base.{
  ℕ, ◌<◌, ltb, ◌==◌, zero, suc, ◌≡◌, refl, Bool, true, ◌&&◌, ◌↔◌, not, List, [], ◌∷◌, length,
  if◌then◌else◌, arith, Bool-cases, inl, inr,
}
use mouse_without_borders.Phone.Pairing.{difference, constant_time_eq}

all_below : ℕ → (ℕ → Bool) → Bool
all_below zero p = true
all_below (suc n) p = p n && all_below n p

abbrev xor_ok : ℕ → ℕ → Bool
xor_ok a b = ltb (bit_xor a b) 256 && (if bit_xor a b == 0 then a == b else not (a == b))

abbrev or_ok : ℕ → ℕ → Bool
or_ok a b =
    ltb (bit_or a b) 256 && (if bit_or a b == 0 then a == 0 && b == 0 else not (a == 0 && b == 0))

-- Every pair of bytes, by evaluation.
xor_table : all_below 256 (λ a. all_below 256 (xor_ok a)) ≡ true
unfolding all_below
xor_table = refl

or_table : all_below 256 (λ a. all_below 256 (or_ok a)) ≡ true
unfolding all_below
or_table = refl

all_below_sound : (n : ℕ) (p : ℕ → Bool) (x : ℕ) → all_below n p ≡ true → x < n → p x ≡ true
unfolding all_below
all_below_sound zero p x h k = absurd (omega arith)
all_below_sound (suc n) p x h k = ground (arith, all_below_sound n p x)

xor_entry : (a b : ℕ) → a < 256 → b < 256 → xor_ok a b ≡ true
xor_entry a b h k =
    all_below_sound 256 (xor_ok a) b
      (all_below_sound 256 (λ x. all_below 256 (xor_ok x)) a xor_table h) k

or_entry : (a b : ℕ) → a < 256 → b < 256 → or_ok a b ≡ true
or_entry a b h k =
    all_below_sound 256 (or_ok a) b
      (all_below_sound 256 (λ x. all_below 256 (or_ok x)) a or_table h) k

abbrev pub AreBytes : List ℕ → Type 0
AreBytes [] = Unit {0}
AreBytes (x ∷ xs) = (x < 256) × AreBytes xs

bit_xor_zero : (a b : ℕ) → a < 256 → b < 256 → (bit_xor a b < 256) × ((bit_xor a b ≡ 0) ↔ (a ≡ b))
bit_xor_zero a b h k = ground (arith, xor_entry a b h k)

bit_or_zero :
    (a b : ℕ) → a < 256 → b < 256 → (bit_or a b < 256) × ((bit_or a b ≡ 0) ↔ ((a ≡ 0) × (b ≡ 0)))
bit_or_zero a b h k = ground (arith, or_entry a b h k)

difference_zero :
    (d : ℕ) (xs ys : List ℕ)
    → d < 256
    → AreBytes xs
    → AreBytes ys
    → length xs ≡ length ys
    → (difference d xs ys ≡ 0) ↔ ((d ≡ 0) × (xs ≡ ys))
unfolding difference
difference_zero d [] [] h a b l = ground arith
difference_zero d [] (y ∷ ys) h a b l = absurd (omega arith)
difference_zero d (x ∷ xs) [] h a b l = absurd (omega arith)
difference_zero d (x ∷ xs) (y ∷ ys) h a b l =
    let p = bit_xor_zero x y a.0 b.0 in
    let q = bit_or_zero d (bit_xor x y) h p.0 in
    let r = difference_zero (bit_or d (bit_xor x y)) xs ys q.0 a.1 b.1 (omega arith) in
    ground (arith, p, q, r)

-- The comparison in constant time answers as equality, on bytes.
pub constant_time_eq_iff :
    (xs ys : List ℕ) → AreBytes xs → AreBytes ys → (constant_time_eq xs ys ≡ true) ↔ (xs ≡ ys)
unfolding constant_time_eq
constant_time_eq_iff xs ys a b = elim (Bool-cases (length xs == length ys)) [
  | inl l ↦ ground (arith, difference_zero 0 xs ys (omega arith) a b)
  | inr l ↦ ground arith
]
