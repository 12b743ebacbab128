-- ===== src/Keymap/RoundTrip.antt =====
-- The two key maps are inverse to each other.
use mouse_without_borders.Base.{
  ℕ, zero, suc, ◌+◌, ◌≤◌, ◌<◌, ◌≡◌, refl, leb, ◌==◌, not, ◌||◌, ◌&&◌, Bool, true, false, Option,
  none, some, List, [], ◌∷◌, arith, Bool-cases, inl, inr, bool_ne,
}
use mouse_without_borders.Keymap.{
  WindowsScanCode, windows_scancode_to_evdev, evdev_to_windows_scancode, first_range, first_arm,
  windows_arms, evdev_arms, RangeArm, Arm,
}

-- A check of `count` consecutive codes, by evaluation.
every_from : ℕ → ℕ → (ℕ → Bool) → Bool
every_from first zero check = true
every_from first (suc count) check = check first && every_from (first + 1) count check

every_from_sound :
    (count first : ℕ) (check : ℕ → Bool) (code : ℕ)
    → every_from first count check ≡ true
    → first ≤ code
    → code < first + count
    → check code ≡ true
unfolding every_from
every_from_sound zero first check code h lo hi = absurd (omega arith)
every_from_sound (suc count) first check code h lo hi = elim (Bool-cases (first == code)) [
  | inl here ↦ ground arith
  | inr later ↦
      every_from_sound count (first + 1) check code (ground arith) (ground arith) (omega arith)
]

-- Above the last code of every range nothing is found.
abbrev all_last_below : ℕ → List RangeArm → Bool
all_last_below n [] = true
all_last_below n (a ∷ arms) = leb (suc a.last) n && all_last_below n arms

first_range_above :
    (n : ℕ) (arms : List RangeArm) (code : ℕ)
    → all_last_below n arms ≡ true
    → n ≤ code
    → first_range arms code ≡ none
unfolding first_range
first_range_above n [] code h le = refl
first_range_above n (a ∷ arms) code h le = ground (arith, first_range_above n arms code)

-- The comparison of a second translation with a code, and with a key.
abbrev is_code : Option ℕ → ℕ → Bool
is_code none code = false
is_code (some k) code = k == code

abbrev is_key : Option WindowsScanCode → ℕ → Bool → Bool
is_key none code extended = false
is_key (some key) code extended = key.scan_code == code && not (bool_ne key.extended extended)

abbrev translates_back : Option WindowsScanCode → ℕ → Bool
translates_back none code = true
translates_back (some key) code = is_code (windows_scancode_to_evdev key) code

evdev_table :
    every_from 0 128 (λ code. translates_back (evdev_to_windows_scancode code) code) ≡ true
unfolding every_from windows_scancode_to_evdev evdev_to_windows_scancode
evdev_table = refl

is_code→eq : (o : Option ℕ) (code : ℕ) → is_code o code ≡ true → o ≡ some code
is_code→eq none code h = cc
is_code→eq (some k) code h = ground arith

is_key→eq :
    (o : Option WindowsScanCode) (code : ℕ) (extended : Bool)
    → is_key o code extended ≡ true
    → o ≡ some (record { scan_code = code; extended = extended })
is_key→eq none code extended h = cc
is_key→eq (some key) code extended h = ground arith

no_key_above : (code : ℕ) → 128 ≤ code → evdev_to_windows_scancode code ≡ none
unfolding evdev_to_windows_scancode
no_key_above code h = first_range_above 128 evdev_arms code refl h

-- A key that is sent for an evdev code is injected as that code.
pub windows_scancode_to_evdev-evdev_to_windows_scancode :
    (code : ℕ) (key : WindowsScanCode)
    → evdev_to_windows_scancode code ≡ some key
    → windows_scancode_to_evdev key ≡ some code
windows_scancode_to_evdev-evdev_to_windows_scancode code key h = elim (Bool-cases (leb 128 code)) [
  | inl high ↦ absurd (ground (arith, no_key_above code))
  | inr low ↦ is_code→eq (windows_scancode_to_evdev key) code (
      rw h at (
        every_from_sound 128 0 (λ c. translates_back (evdev_to_windows_scancode c) c) code
          evdev_table (omega arith) (ground arith)))
]

all_arms : (ℕ → Bool → ℕ → Bool) → List Arm → Bool
all_arms p [] = true
all_arms p ((c, e, k) ∷ arms) = p c e k && all_arms p arms

all_arms_sound :
    (p : ℕ → Bool → ℕ → Bool) (arms : List Arm) (code : ℕ) (extended : Bool) (k : ℕ)
    → all_arms p arms ≡ true
    → first_arm arms code extended ≡ some k
    → p code extended k ≡ true
unfolding all_arms first_arm
all_arms_sound p [] code extended k h f = cc
all_arms_sound p ((c, e, j) ∷ arms) code extended k h f =
    ground (arith, all_arms_sound p arms code extended k)

-- The keypad's Enter, which is injected as the main Enter.
abbrev pub is_keypad_enter : ℕ → Bool → Bool
is_keypad_enter code extended = code == 0x1c && extended

windows_table :
    all_arms
      (λ code extended k.
        is_keypad_enter code extended || is_key (evdev_to_windows_scancode k) code extended)
      windows_arms
    ≡ true
unfolding all_arms evdev_to_windows_scancode
windows_table = refl

-- Every Windows key that has an evdev code is found again from that code, but for the keypad's
-- Enter, which shares the code of the main Enter.
pub evdev_to_windows_scancode-windows_scancode_to_evdev :
    (key : WindowsScanCode) (code : ℕ)
    → windows_scancode_to_evdev key ≡ some code
    → is_keypad_enter key.scan_code key.extended ≡ false
    → evdev_to_windows_scancode code ≡ some key
unfolding windows_scancode_to_evdev
evdev_to_windows_scancode-windows_scancode_to_evdev key code h other =
    is_key→eq (evdev_to_windows_scancode code) key.scan_code key.extended (
      rw other at (
        all_arms_sound (λ c e k. is_keypad_enter c e || is_key (evdev_to_windows_scancode k) c e)
          windows_arms key.scan_code key.extended code windows_table h))
