-- ===== src/Phone/Pairing/Guessing.antt =====
-- How often the token can be guessed, and what other addresses can do to an honest phone.
use mouse_without_borders.Base.{
  ℕ, ◌+◌, ◌-◌, ◌*◌, ◌≤◌, ◌<◌, ltb, ◌≡◌, refl, ap, sym, subst, ◌∙◌, Bool, true, false, ◌&&◌, ◌↔◌,
  Option, none, some, List, [], ◌∷◌, if◌then◌else◌, arith, Bool-cases, inl, inr, Result, err,
}
use mouse_without_borders.Phone.Pairing.{
  IpAddr, v4, v6, ip_eq, pairing_window, PairingRefusal, wrong_token, Failures, PairingWindow,
  open_window, is_open, constant_time_eq, is_limited, failed_once, note_failure, check_token,
}

-- An attempt to pair, and a sequence of them.
pub record Attempt : Type 0 where
  pub token : List ℕ
  pub ip : IpAddr
  pub at : ℕ

abbrev pub attempts : PairingWindow → List Attempt → PairingWindow
attempts w [] = w
attempts w (a ∷ rest) = attempts (check_token w a.token a.ip a.at).0 rest

-- The clock does not go back.
abbrev pub AreTimed : ℕ → List Attempt → Type 0
AreTimed now [] = Unit {0}
AreTimed now (a ∷ rest) = (now ≤ a.at) × AreTimed a.at rest

abbrev pub is_wrong : Result PairingRefusal (Unit {0}) → Bool
is_wrong (err wrong_token) = true
is_wrong _ = false

-- How many tokens of one address are compared and found wrong.
unfoldable pub wrong_answers : IpAddr → PairingWindow → List Attempt → ℕ
wrong_answers ip w [] = 0
wrong_answers ip w (a ∷ rest) =
    (if ip_eq a.ip ip && is_wrong (check_token w a.token a.ip a.at).1 then 1 else 0)
    + wrong_answers ip (check_token w a.token a.ip a.at).0 rest

ip_eq_iff : (a b : IpAddr) → (ip_eq a b ≡ true) ↔ (a ≡ b)
ip_eq_iff (v4 a) (v4 b) = ground arith
ip_eq_iff (v6 a) (v6 b) = ground arith
ip_eq_iff (v4 a) (v6 b) = ground arith
ip_eq_iff (v6 a) (v4 b) = ground arith

-- What the window knows of an address after `n` wrong answers.
abbrev IsTracked : ℕ → ℕ → ℕ → ℕ → Option Failures → Type 0
IsTracked opened expires now n none = n ≡ 0
IsTracked opened expires now n (some f) =
    (f.count ≡ n)
    × (opened ≤ f.last)
    × (f.last ≤ now)
    × (f.last < expires)
    × (n * 1000000000 ≤ 3000000000 + (f.last - opened))

IsTracked-few :
    (opened now n : ℕ) (f : Option Failures)
    → IsTracked opened (opened + pairing_window) now n f
    → n ≤ 302
IsTracked-few opened now n none t = omega arith
IsTracked-few opened now n (some f) t = omega arith

IsTracked-later :
    (opened expires now later n : ℕ) (f : Option Failures)
    → now ≤ later
    → IsTracked opened expires now n f
    → IsTracked opened expires later n f
IsTracked-later opened expires now later n none h t = t
IsTracked-later opened expires now later n (some f) h t = (t.0, t.1, omega arith, t.3, t.4)

-- A wrong answer to an address that is not limited.
IsTracked-failed :
    (opened now later n : ℕ) (f : Option Failures)
    → opened ≤ now
    → now ≤ later
    → later < opened + pairing_window
    → is_limited f later ≡ false
    → IsTracked opened (opened + pairing_window) now n f
    → IsTracked opened (opened + pairing_window) later (n + 1) (some (failed_once f later))
IsTracked-failed opened now later n none o h e l t = ground arith
IsTracked-failed opened now later n (some f) o h e l t =
    let few = IsTracked-few opened now n (some f) t in ground (arith, few)

-- An attempt leaves the window as it was, or it is found wrong and noted.
pub data Checked (w : PairingWindow) (a : Attempt) : Type 0 where
  left_alone :
      (check_token w a.token a.ip a.at).0 ≡ w
      → is_wrong (check_token w a.token a.ip a.at).1 ≡ false
      → Checked w a
  noted :
      (check_token w a.token a.ip a.at).0 ≡ note_failure w a.ip a.at
      → is_wrong (check_token w a.token a.ip a.at).1 ≡ true
      → a.at < w.expires
      → is_limited (w.failures a.ip) a.at ≡ false
      → Checked w a

pub check_token-Checked : (w : PairingWindow) (a : Attempt) → Checked w a
unfolding check_token is_open
check_token-Checked w a = elim (Bool-cases (ltb a.at w.expires)) [
  | inr o ↦ left_alone (rw (o, check_token) refl) (rw (o, check_token) refl)
  | inl o ↦ elim (Bool-cases (is_limited (w.failures a.ip) a.at)) [
    | inl l ↦ left_alone (rw (o, l, check_token) refl) (rw (o, l, check_token) refl)
    | inr l ↦ elim (Bool-cases (constant_time_eq a.token w.token)) [
      | inl e ↦ left_alone (rw (o, l, e, check_token) refl) (rw (o, l, e, check_token) refl)
      | inr e ↦
          noted (rw (o, l, e, check_token) refl) (rw (o, l, e, check_token) refl) (ground arith) l
    ]
  ]
]

pub note_failure-other :
    (w : PairingWindow) (ip j : IpAddr) (now : ℕ)
    → ip_eq ip j ≡ false
    → (note_failure w ip now).failures j ≡ w.failures j
unfolding note_failure
note_failure-other w ip j now e = rw e refl

note_failure-own :
    (w : PairingWindow) (ip j : IpAddr) (now : ℕ)
    → ip_eq ip j ≡ true
    → (note_failure w ip now).failures j ≡ some (failed_once (w.failures j) now)
unfolding note_failure
note_failure-own w ip j now e = rw e (rw ((ip_eq_iff ip j).0 e) refl)

pub note_failure-expires :
    (w : PairingWindow) (ip : IpAddr) (now : ℕ)
    → ((note_failure w ip now).expires ≡ w.expires) × ((note_failure w ip now).token ≡ w.token)
unfolding note_failure
note_failure-expires w ip now = (refl, refl)

-- One attempt counts for its own address only, when it is found wrong.
counted : (ip : IpAddr) (w : PairingWindow) (a : Attempt) → ℕ
counted ip w a = if ip_eq a.ip ip && is_wrong (check_token w a.token a.ip a.at).1 then 1 else 0

wrong_answers-step :
    (rest : List Attempt) (w w' : PairingWindow) (a : Attempt) (ip : IpAddr) (n m : ℕ)
    → (check_token w a.token a.ip a.at).0 ≡ w'
    → counted ip w a ≡ m
    → (n + m) + wrong_answers ip w' rest ≤ 302
    → n + wrong_answers ip w (a ∷ rest) ≤ 302
unfolding wrong_answers counted
wrong_answers-step rest w w' a ip n m e c h =
    omega (arith, h, c, ap (λ x. wrong_answers ip x rest) e)

counted_right :
    (ip : IpAddr) (w : PairingWindow) (a : Attempt)
    → is_wrong (check_token w a.token a.ip a.at).1 ≡ false
    → counted ip w a ≡ 0
unfolding counted
counted_right ip w a k = ground arith

counted_wrong :
    (ip : IpAddr) (w : PairingWindow) (a : Attempt)
    → is_wrong (check_token w a.token a.ip a.at).1 ≡ true
    → counted ip w a ≡ (if ip_eq a.ip ip then 1 else 0)
unfolding counted
counted_wrong ip w a k = ground arith

-- From any point of the window on.
wrong_answers-tracked :
    (rest : List Attempt) (w : PairingWindow) (ip : IpAddr) (opened now n : ℕ)
    → w.expires ≡ opened + pairing_window
    → opened ≤ now
    → AreTimed now rest
    → IsTracked opened (opened + pairing_window) now n (w.failures ip)
    → n + wrong_answers ip w rest ≤ 302
unfolding wrong_answers
wrong_answers-tracked [] w ip opened now n e o s t =
    omega (arith, IsTracked-few opened now n (w.failures ip) t)
wrong_answers-tracked (a ∷ rest) w ip opened now n e o s t =
    let end = opened + pairing_window in
    let later = IsTracked-later opened end now a.at n (w.failures ip) s.0 t in
    elim (check_token-Checked w a) [
      | left_alone same k ↦
          wrong_answers-step rest w w a ip n 0 same (counted_right ip w a k)
            (omega (arith, wrong_answers-tracked rest w ip opened a.at n e (omega arith) s.1 later))
      | noted new k before l ↦
          let w' = note_failure w a.ip a.at in
          let e' : w'.expires ≡ end = (note_failure-expires w a.ip a.at).0 ∙ e in
          elim (Bool-cases (ip_eq a.ip ip)) [
            | inl i ↦
                let failed =
                  subst (IsTracked opened end a.at (n + 1))
                    (sym (note_failure-own w a.ip ip a.at i))
                    (IsTracked-failed opened now a.at n (w.failures ip) o s.0
                      (omega (arith, before, e))
                      (subst (λ j. is_limited (w.failures j) a.at ≡ false) ((ip_eq_iff a.ip ip).0 i)
                        l)
                      t) in
                wrong_answers-step rest w w' a ip n 1 new (counted_wrong ip w a k ∙ rw i refl)
                  (wrong_answers-tracked rest w' ip opened a.at (n + 1) e' (omega arith) s.1 failed)
            | inr i ↦
                let kept =
                  subst (IsTracked opened end a.at n) (sym (note_failure-other w a.ip ip a.at i))
                    later in
                wrong_answers-step rest w w' a ip n 0 new (counted_wrong ip w a k ∙ rw i refl) (
                  omega (
                    arith,
                    wrong_answers-tracked rest w' ip opened a.at n e' (omega arith) s.1 kept,
                  ))
          ]
    ]

-- However often and from wherever phones try while a window lasts, at most 302 tokens of one
-- address are compared and found wrong: 3 freely, and then one a second for five minutes.
pub wrong_answers_bounded :
    (rest : List Attempt) (random : List ℕ) (opened : ℕ) (ip : IpAddr)
    → AreTimed opened rest
    → wrong_answers ip (open_window random opened) rest ≤ 302
unfolding open_window
wrong_answers_bounded rest random opened ip s = omega (
  arith,
  wrong_answers-tracked rest (open_window random opened) ip opened opened 0 refl (omega arith) s
      refl,
)
