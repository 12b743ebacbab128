-- ===== src/Clipboard/Tracker/Offers.antt =====
-- Which contents are offered, and under which sequence numbers.
use mouse_without_borders.Base.{
  subst, ℕ, ◌+◌, ◌≤◌, ◌≡◌, refl, true, Option, none, some, List, [], ◌∷◌, arith, length, Bool-cases,
  inl, inr,
}
use mouse_without_borders.Base.Bytes.{bytes_eq_refl, u64_max}
use mouse_without_borders.Clipboard.Image.{ClipboardContentId, text_id, image_id}
use mouse_without_borders.Clipboard.Tracker.{
  ClipboardChangeTracker, option_id_eq, is_observed, mark_observed, offer_current, offer_if_changed,
}

option_id_eq_refl : (c : Option ClipboardContentId) → option_id_eq c c ≡ true
option_id_eq_refl none = refl
option_id_eq_refl (some (text_id a)) = bytes_eq_refl a
option_id_eq_refl (some (image_id a)) = bytes_eq_refl a

-- An item that was received from the peer and put on the clipboard (`mark_observed`) is not
-- offered back, and neither is a content that has just been offered: the tracker stays as it is.
pub no_echo :
    (t : ClipboardChangeTracker) (current : Option ClipboardContentId)
    → (offer_if_changed (mark_observed t current) current ≡ (mark_observed t current, none))
      × (offer_if_changed (offer_current t current).0 current ≡ ((offer_current t current).0, none))
unfolding offer_if_changed mark_observed
no_echo t none = (refl, refl)
no_echo t (some id) = (rw (option_id_eq_refl (some id)), rw (option_id_eq_refl (some id)))

-- The calls of a session, and the sequence numbers that they offer.
pub data Call : Type 0 where
  marks offers_changed offers_now : Option ClipboardContentId → Call

abbrev step : ClipboardChangeTracker → Call → ClipboardChangeTracker × Option ℕ
step t (marks c) = (mark_observed t c, none)
step t (offers_changed c) = offer_if_changed t c
step t (offers_now c) = offer_current t c

abbrev prepend : Option ℕ → List ℕ → List ℕ
prepend none xs = xs
prepend (some n) xs = n ∷ xs

unfoldable pub offered : ClipboardChangeTracker → List Call → List ℕ
offered t [] = []
offered t (c ∷ cs) = let (t', o) = step t c in prepend o (offered t' cs)

-- Each number is one more than the one before.
abbrev pub AreConsecutive : ℕ → List ℕ → Type 0
AreConsecutive n [] = Unit {0}
AreConsecutive n (x ∷ xs) = (x ≡ n + 1) × AreConsecutive x xs

abbrev Advances : ClipboardChangeTracker → ClipboardChangeTracker × Option ℕ → Type 0
Advances t (t', none) = t'.sequence ≡ t.sequence
Advances t (t', some n) = (n ≡ t.sequence + 1) × (t'.sequence ≡ n)

offer_current-Advances :
    (t : ClipboardChangeTracker) (c : Option ClipboardContentId)
    → t.sequence + 1 ≤ u64_max
    → Advances t (offer_current t c)
unfolding offer_current
offer_current-Advances t none h = refl
offer_current-Advances t (some id) h = (omega arith, refl)

step-Advances :
    (t : ClipboardChangeTracker) (c : Call) → t.sequence + 1 ≤ u64_max → Advances t (step t c)
unfolding offer_if_changed mark_observed
step-Advances t (marks c) h = refl
step-Advances t (offers_changed c) h = elim (Bool-cases (is_observed t c)) [
  | inl e ↦ rw e refl
  | inr e ↦ rw e (offer_current-Advances t c h)
]
step-Advances t (offers_now c) h = offer_current-Advances t c h

AreConsecutive-prepend :
    (t : ClipboardChangeTracker) (r : ClipboardChangeTracker × Option ℕ) (xs : List ℕ)
    → Advances t r
    → AreConsecutive r.0.sequence xs
    → AreConsecutive t.sequence (prepend r.1 xs)
AreConsecutive-prepend t (t', none) xs a h = subst (λ n. AreConsecutive n xs) a h
AreConsecutive-prepend t (t', some n) xs a h = (a.0, subst (λ m. AreConsecutive m xs) a.1 h)

Advances-le :
    (t : ClipboardChangeTracker) (r : ClipboardChangeTracker × Option ℕ)
    → Advances t r
    → r.0.sequence ≤ t.sequence + 1
Advances-le t (t', none) a = omega arith
Advances-le t (t', some n) a = omega arith

-- Over any calls, the numbers offered count up from the tracker's own without a gap, as long as
-- the calls cannot exhaust the 64-bit sequence.
pub offered-AreConsecutive :
    (t : ClipboardChangeTracker) (cs : List Call)
    → t.sequence + length cs ≤ u64_max
    → AreConsecutive t.sequence (offered t cs)
unfolding offered
offered-AreConsecutive t [] h = tt
offered-AreConsecutive t (c ∷ cs) h =
    let a = step-Advances t c (omega arith) in
    let bound = Advances-le t (step t c) a in
    AreConsecutive-prepend t (step t c) (offered (step t c).0 cs) a
      (offered-AreConsecutive (step t c).0 cs (omega arith))
