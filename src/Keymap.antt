-- ===== src/Keymap.antt =====
-- Key codes of the two systems (crates/edge-keymap/src/lib.rs). Each `match` is the list of its
-- arms, the first that fits being taken: an arm of `windows_scancode_to_evdev` names a scan code
-- and the extended flag, an arm of `evdev_to_windows_scancode` a range of codes that is shifted.
pub mod RoundTrip
use mouse_without_borders.Base.{
  ℕ, ◌+◌, ◌-◌, leb, ◌==◌, bool_ne, not, ◌&&◌, Bool, true, false, Option, none, some, List, [], ◌∷◌,
  if◌then◌else◌,
}

pub record WindowsScanCode : Type 0 where
  pub scan_code : ℕ  -- u16
  pub extended : Bool

-- scan code, extended, evdev code.
abbrev pub Arm : Type 0
Arm = ℕ × Bool × ℕ

unfoldable pub first_arm : List Arm → ℕ → Bool → Option ℕ
first_arm [] code extended = none
first_arm ((c, e, k) ∷ arms) code extended =
    if c == code && not (bool_ne e extended) then some k else first_arm arms code extended

abbrev pub windows_arms : List Arm
windows_arms =
    (0x02, false, 2)
    ∷ (0x03, false, 3)
    ∷ (0x04, false, 4)
    ∷ (0x05, false, 5)
    ∷ (0x06, false, 6)
    ∷ (0x07, false, 7)
    ∷ (0x08, false, 8)
    ∷ (0x09, false, 9)
    ∷ (0x0a, false, 10)
    ∷ (0x0b, false, 11)
    ∷ (0x10, false, 16)
    ∷ (0x11, false, 17)
    ∷ (0x12, false, 18)
    ∷ (0x13, false, 19)
    ∷ (0x14, false, 20)
    ∷ (0x15, false, 21)
    ∷ (0x16, false, 22)
    ∷ (0x17, false, 23)
    ∷ (0x18, false, 24)
    ∷ (0x19, false, 25)
    ∷ (0x1e, false, 30)
    ∷ (0x1f, false, 31)
    ∷ (0x20, false, 32)
    ∷ (0x21, false, 33)
    ∷ (0x22, false, 34)
    ∷ (0x23, false, 35)
    ∷ (0x24, false, 36)
    ∷ (0x25, false, 37)
    ∷ (0x26, false, 38)
    ∷ (0x2c, false, 44)
    ∷ (0x2d, false, 45)
    ∷ (0x2e, false, 46)
    ∷ (0x2f, false, 47)
    ∷ (0x30, false, 48)
    ∷ (0x31, false, 49)
    ∷ (0x32, false, 50)
    ∷ (0x01, false, 1)
    ∷ (0x0e, false, 14)
    ∷ (0x0f, false, 15)
    ∷ (0x1c, false, 28)
    ∷ (0x39, false, 57)
    ∷ (0x1c, true, 28)
    ∷ (0x3a, false, 58)
    ∷ (0x2a, false, 42)
    ∷ (0x36, false, 54)
    ∷ (0x1d, false, 29)
    ∷ (0x1d, true, 97)
    ∷ (0x38, false, 56)
    ∷ (0x38, true, 100)
    ∷ (0x5b, true, 125)
    ∷ (0x5c, true, 126)
    ∷ (0x48, true, 103)
    ∷ (0x50, true, 108)
    ∷ (0x4b, true, 105)
    ∷ (0x4d, true, 106)
    ∷ (0x52, true, 110)
    ∷ (0x53, true, 111)
    ∷ (0x47, true, 102)
    ∷ (0x4f, true, 107)
    ∷ (0x49, true, 104)
    ∷ (0x51, true, 109)
    ∷ (0x3b, false, 59)
    ∷ (0x3c, false, 60)
    ∷ (0x3d, false, 61)
    ∷ (0x3e, false, 62)
    ∷ (0x3f, false, 63)
    ∷ (0x40, false, 64)
    ∷ (0x41, false, 65)
    ∷ (0x42, false, 66)
    ∷ (0x43, false, 67)
    ∷ (0x44, false, 68)
    ∷ (0x57, false, 87)
    ∷ (0x58, false, 88)
    ∷ (0x0c, false, 12)
    ∷ (0x0d, false, 13)
    ∷ (0x1a, false, 26)
    ∷ (0x1b, false, 27)
    ∷ (0x27, false, 39)
    ∷ (0x28, false, 40)
    ∷ (0x29, false, 41)
    ∷ (0x2b, false, 43)
    ∷ (0x33, false, 51)
    ∷ (0x34, false, 52)
    ∷ (0x35, false, 53)
    ∷ []

unfoldable pub windows_scancode_to_evdev : WindowsScanCode → Option ℕ
unfolding first_arm
windows_scancode_to_evdev key = first_arm windows_arms key.scan_code key.extended

-- first code, last code, scan code of the first, extended.
pub record RangeArm : Type 0 where
  pub first : ℕ
  pub last : ℕ
  pub base : ℕ
  pub extended : Bool

abbrev pub range_arm : ℕ → ℕ → ℕ → Bool → RangeArm
range_arm first last base extended = record {
  first = first;
  last = last;
  base = base;
  extended = extended;
}

unfoldable pub first_range : List RangeArm → ℕ → Option WindowsScanCode
first_range [] code = none
first_range (a ∷ arms) code =
    if leb a.first code && leb code a.last
    then some (record { scan_code = code - a.first + a.base; extended = a.extended })
    else first_range arms code

abbrev pub evdev_arms : List RangeArm
evdev_arms =
    range_arm 2 11 0x02 false
    ∷ range_arm 16 25 0x10 false
    ∷ range_arm 30 38 0x1e false
    ∷ range_arm 44 50 0x2c false
    ∷ range_arm 1 1 0x01 false
    ∷ range_arm 14 14 0x0e false
    ∷ range_arm 15 15 0x0f false
    ∷ range_arm 28 28 0x1c false
    ∷ range_arm 57 57 0x39 false
    ∷ range_arm 58 58 0x3a false
    ∷ range_arm 42 42 0x2a false
    ∷ range_arm 54 54 0x36 false
    ∷ range_arm 29 29 0x1d false
    ∷ range_arm 97 97 0x1d true
    ∷ range_arm 56 56 0x38 false
    ∷ range_arm 100 100 0x38 true
    ∷ range_arm 125 125 0x5b true
    ∷ range_arm 126 126 0x5c true
    ∷ range_arm 103 103 0x48 true
    ∷ range_arm 108 108 0x50 true
    ∷ range_arm 105 105 0x4b true
    ∷ range_arm 106 106 0x4d true
    ∷ range_arm 110 110 0x52 true
    ∷ range_arm 111 111 0x53 true
    ∷ range_arm 102 102 0x47 true
    ∷ range_arm 107 107 0x4f true
    ∷ range_arm 104 104 0x49 true
    ∷ range_arm 109 109 0x51 true
    ∷ range_arm 59 68 0x3b false
    ∷ range_arm 87 87 0x57 false
    ∷ range_arm 88 88 0x58 false
    ∷ range_arm 12 12 0x0c false
    ∷ range_arm 13 13 0x0d false
    ∷ range_arm 26 26 0x1a false
    ∷ range_arm 27 27 0x1b false
    ∷ range_arm 39 39 0x27 false
    ∷ range_arm 40 40 0x28 false
    ∷ range_arm 41 41 0x29 false
    ∷ range_arm 43 43 0x2b false
    ∷ range_arm 51 51 0x33 false
    ∷ range_arm 52 52 0x34 false
    ∷ range_arm 53 53 0x35 false
    ∷ []

unfoldable pub evdev_to_windows_scancode : ℕ → Option WindowsScanCode
unfolding first_range
evdev_to_windows_scancode code = first_range evdev_arms code
