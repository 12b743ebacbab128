-- ===== src/Phone/Pairing.antt =====
-- The window in which a phone can pair (apps/edge-receiver-linux/src/phone_pairing.rs). A token is
-- the list of its bytes, an instant a number of nanoseconds; the random bytes are an argument.
pub mod Token
pub mod Guessing
pub mod Honest
use Prim.Native.Nat.{bit_or, bit_xor}
use mouse_without_borders.Base.{
  ℕ, ◌+◌, ◌-◌, ◌/◌, ◌%◌, leb, ltb, ◌==◌, Bool, true, false, ◌&&◌, ◌||◌, not, Option, none, some,
  List, [], ◌∷◌, ◌++◌, length, if◌then◌else◌, Result, ok, err, String,
}

-- `std::net::IpAddr`, by the number of the address.
pub data IpAddr : Type 0 where
  v4 v6 : ℕ → IpAddr

abbrev pub ip_eq : IpAddr → IpAddr → Bool
ip_eq (v4 a) (v4 b) = a == b
ip_eq (v6 a) (v6 b) = a == b
ip_eq _ _ = false

abbrev pub is_ipv6 : IpAddr → Bool
is_ipv6 (v4 a) = false
is_ipv6 (v6 a) = true

abbrev pub second : ℕ
second = 1000000000

abbrev pub pairing_window : ℕ
pairing_window = 300000000000

abbrev pub free_failures : ℕ
free_failures = 3

abbrev pub failure_spacing : ℕ
failure_spacing = 1000000000

pub data PairingRefusal : Type 0 where
  closed wrong_token rate_limited pin_failed : PairingRefusal

-- `PairingRefusal::code`.
abbrev pub refusal_code : PairingRefusal → String
refusal_code closed = "pairing_closed"
refusal_code wrong_token = "pairing_wrong_token"
refusal_code rate_limited = "pairing_rate_limited"
refusal_code pin_failed = "pairing_failed"

pub record Failures : Type 0 where
  pub count : ℕ  -- u32
  pub last : ℕ

pub record PairingWindow : Type 0 where
  pub token : List ℕ
  pub expires : ℕ
  pub failures : IpAddr → Option Failures

-- A lower-case hexadecimal digit, and `{byte:02x}`.
abbrev pub hex_digit : ℕ → ℕ
hex_digit n = if ltb n 10 then 48 + n else 87 + n

unfoldable pub hex : List ℕ → List ℕ
hex [] = []
hex (b ∷ bs) = hex_digit (b / 16) ∷ (hex_digit (b % 16) ∷ hex bs)

-- `PairingWindow::open`.
unfoldable pub open_window : List ℕ → ℕ → PairingWindow
unfolding hex
open_window random now = record {
  token = hex random;
  expires = now + pairing_window;
  failures = λ ip. none;
}

unfoldable pub is_open : PairingWindow → ℕ → Bool
is_open w now = ltb now w.expires

-- `zip` and `fold` of `constant_time_eq`.
unfoldable pub difference : ℕ → List ℕ → List ℕ → ℕ
difference d [] _ = d
difference d (x ∷ xs) [] = d
difference d (x ∷ xs) (y ∷ ys) = difference (bit_or d (bit_xor x y)) xs ys

unfoldable pub constant_time_eq : List ℕ → List ℕ → Bool
unfolding difference
constant_time_eq left right = length left == length right && difference 0 left right == 0

abbrev pub is_limited : Option Failures → ℕ → Bool
is_limited none now = false
is_limited (some f) now = leb free_failures f.count && ltb (now - f.last) failure_spacing

abbrev pub failed_once : Option Failures → ℕ → Failures
failed_once none now = record { count = 1; last = now }
failed_once (some f) now = record { count = (f.count + 1) % 4294967296; last = now }

-- `entry(ip).or_insert(..)` and the two writes.
unfoldable pub note_failure : PairingWindow → IpAddr → ℕ → PairingWindow
note_failure w ip now = record w {
  failures = λ j. if ip_eq ip j then some (failed_once (w.failures ip) now) else w.failures j;
}

unfoldable pub check_token :
    PairingWindow → List ℕ → IpAddr → ℕ → PairingWindow × Result PairingRefusal (Unit {0})
unfolding is_open constant_time_eq note_failure
check_token w token ip now =
    if not (is_open w now)
    then (w, err closed)
    else if is_limited (w.failures ip) now
    then (w, err rate_limited)
    else if constant_time_eq token w.token
    then (w, ok tt)
    else (note_failure w ip now, err wrong_token)
