-- ===== src/Phone/Pairing/Honest.antt =====
-- What other addresses can do to an honest phone: nothing.
use mouse_without_borders.Base.{
  ℕ, ◌+◌, ◌/◌, ◌%◌, ◌<◌, ◌≡◌, refl, sym, subst, ◌∙◌, true, false, ◌↔◌, none, List, [], ◌∷◌, arith,
  ok,
}
use mouse_without_borders.Phone.Pairing.{
  IpAddr, ip_eq, pairing_window, PairingWindow, hex, hex_digit, open_window, is_open,
  constant_time_eq, check_token,
}
use mouse_without_borders.Phone.Pairing.Token.{AreBytes, constant_time_eq_iff}
use mouse_without_borders.Phone.Pairing.Guessing.{
  Attempt, attempts, left_alone, noted, check_token-Checked, note_failure-other,
  note_failure-expires,
}

abbrev pub AreFromOthers : IpAddr → List Attempt → Type 0
AreFromOthers ip [] = Unit {0}
AreFromOthers ip (a ∷ rest) = (ip_eq a.ip ip ≡ false) × AreFromOthers ip rest

-- The window looks the same to one address.
abbrev LooksAlike : IpAddr → PairingWindow → PairingWindow → Type 0
LooksAlike ip w w' =
    (w'.token ≡ w.token) × (w'.expires ≡ w.expires) × (w'.failures ip ≡ w.failures ip)

check_token-LooksAlike :
    (ip : IpAddr) (w : PairingWindow) (a : Attempt)
    → ip_eq a.ip ip ≡ false
    → LooksAlike ip w (check_token w a.token a.ip a.at).0
check_token-LooksAlike ip w a e = elim (check_token-Checked w a) [
  | left_alone same k ↦ subst (LooksAlike ip w) (sym same) (refl, refl, refl)
  | noted new k before l ↦ subst (LooksAlike ip w) (sym new) (
    (note_failure-expires w a.ip a.at).1,
    (note_failure-expires w a.ip a.at).0,
    note_failure-other w a.ip ip a.at e,
  )
]

attempts-LooksAlike :
    (rest : List Attempt) (ip : IpAddr) (w : PairingWindow)
    → AreFromOthers ip rest
    → LooksAlike ip w (attempts w rest)
attempts-LooksAlike [] ip w o = (refl, refl, refl)
attempts-LooksAlike (a ∷ rest) ip w o =
    let x = check_token-LooksAlike ip w a o.0 in
    let y = attempts-LooksAlike rest ip (check_token w a.token a.ip a.at).0 o.1 in
    (y.0 ∙ x.0, y.1 ∙ x.1, y.2 ∙ x.2)

hex_digit-byte : (n : ℕ) → n < 16 → hex_digit n < 256
hex_digit-byte n h = ground arith

hex-AreBytes : (bs : List ℕ) → AreBytes bs → AreBytes (hex bs)
unfolding hex
hex-AreBytes [] a = tt
hex-AreBytes (b ∷ bs) a = (
  hex_digit-byte (b / 16) (omega (arith, a.0)),
  (hex_digit-byte (b % 16) (omega arith), hex-AreBytes bs a.1),
)

check_token_iff :
    (w : PairingWindow) (token : List ℕ) (ip : IpAddr) (now : ℕ)
    → w.failures ip ≡ none
    → ((check_token w token ip now).1 ≡ ok tt)
      ↔ ((now < w.expires) × (constant_time_eq token w.token ≡ true))
unfolding check_token is_open
check_token_iff w token ip now f = ground arith

-- Whatever other addresses have tried, an address that has not failed is accepted exactly if it
-- presents the token of the window within its five minutes.
pub attempts-check_token :
    (rest : List Attempt) (random token : List ℕ) (opened now : ℕ) (ip : IpAddr)
    → AreBytes random
    → AreBytes token
    → AreFromOthers ip rest
    → ((check_token (attempts (open_window random opened) rest) token ip now).1 ≡ ok tt)
      ↔ ((token ≡ hex random) × (now < opened + pairing_window))
unfolding open_window
attempts-check_token rest random token opened now ip b t o =
    let w = attempts (open_window random opened) rest in
    let same = attempts-LooksAlike rest ip (open_window random opened) o in
    let p = check_token_iff w token ip now same.2 in
    let q = constant_time_eq_iff token (hex random) t (hex-AreBytes random b) in
    (
      λ h.
          let r = p.0 h in
          (
            q.0 (subst (λ x. constant_time_eq token x ≡ true) same.0 r.1),
            omega (arith, r.0, same.1),
          ),
      λ h. p.1 (
        omega (arith, h.1, same.1),
        subst (λ x. constant_time_eq token x ≡ true) (sym same.0) (q.1 h.0),
      ),
    )
