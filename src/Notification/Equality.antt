-- ===== src/Notification/Equality.antt =====
-- The derived equality of keys, contents and records (crates/edge-protocol/src/lib.rs).
use mouse_without_borders.Base.{
  ℕ, str_eq, Bool, true, false, ◌≡◌, ◌↔◌, ◌==◌, ◌&&◌, refl, Option, none, some, List, [], ◌∷◌,
  arith, eq_iff, eq_refl,
}
use mouse_without_borders.Base.Bytes.{bytes_eq, bytes_eq_refl, bytes_eq→eq}
use mouse_without_borders.Protocol.Phone.{NotificationKey, SharedNotification, NotificationRecord}

unfoldable pub key_eq : NotificationKey → NotificationKey → Bool
key_eq a b = str_eq a.origin b.origin && str_eq a.instance_id b.instance_id

abbrev pub icon_eq : Option (List ℕ) → Option (List ℕ) → Bool
icon_eq none none = true
icon_eq (some a) (some b) = bytes_eq a b
icon_eq _ _ = false

unfoldable pub content_eq : SharedNotification → SharedNotification → Bool
content_eq a b =
    str_eq a.app_name b.app_name
    && str_eq a.title b.title
    && str_eq a.body b.body
    && str_eq a.icon b.icon
    && icon_eq a.icon_png b.icon_png
    && a.posted_ms == b.posted_ms
    && a.urgency == b.urgency

unfoldable pub option_content_eq : Option SharedNotification → Option SharedNotification → Bool
option_content_eq none none = true
option_content_eq (some a) (some b) = content_eq a b
option_content_eq _ _ = false

unfoldable pub record_eq : NotificationRecord → NotificationRecord → Bool
record_eq a b =
    key_eq a.key b.key
    && a.source_sequence == b.source_sequence
    && option_content_eq a.content b.content

unfoldable pub records_eq : List NotificationRecord → List NotificationRecord → Bool
records_eq [] [] = true
records_eq (a ∷ xs) (b ∷ ys) = record_eq a b && records_eq xs ys
records_eq _ _ = false

pub key_eq_iff : (a b : NotificationKey) → (key_eq a b ≡ true) ↔ (a ≡ b)
unfolding key_eq
key_eq_iff a b = ground (arith, eq_iff a.origin b.origin, eq_iff a.instance_id b.instance_id)

pub key_eq_refl : (a : NotificationKey) → key_eq a a ≡ true
unfolding key_eq
key_eq_refl a = ground (arith, eq_refl a.origin, eq_refl a.instance_id)

icon_eq_sound : (a b : Option (List ℕ)) → icon_eq a b ≡ true → a ≡ b
icon_eq_sound none none h = refl
icon_eq_sound (some a) (some b) h = ground (arith, bytes_eq→eq a b)
icon_eq_sound none (some b) h = cc
icon_eq_sound (some a) none h = cc

pub content_eq_sound : (a b : SharedNotification) → content_eq a b ≡ true → a ≡ b
unfolding content_eq
content_eq_sound a b h = ground (
  arith,
  eq_iff a.app_name b.app_name,
  eq_iff a.title b.title,
  eq_iff a.body b.body,
  eq_iff a.icon b.icon,
  icon_eq_sound a.icon_png b.icon_png,
)

pub option_content_eq_sound :
    (a b : Option SharedNotification) → option_content_eq a b ≡ true → a ≡ b
unfolding option_content_eq
option_content_eq_sound none none h = refl
option_content_eq_sound (some a) (some b) h = ground (arith, content_eq_sound a b)
option_content_eq_sound none (some b) h = cc
option_content_eq_sound (some a) none h = cc

pub record_eq_sound : (a b : NotificationRecord) → record_eq a b ≡ true → a ≡ b
unfolding record_eq
record_eq_sound a b h =
    ground (arith, key_eq_iff a.key b.key, option_content_eq_sound a.content b.content)

pub records_eq_sound : (xs ys : List NotificationRecord) → records_eq xs ys ≡ true → xs ≡ ys
unfolding records_eq
records_eq_sound [] [] h = refl
records_eq_sound (a ∷ xs) (b ∷ ys) h = ground (arith, record_eq_sound a b, records_eq_sound xs ys)
records_eq_sound [] (b ∷ ys) h = cc
records_eq_sound (a ∷ xs) [] h = cc

icon_eq_refl : (a : Option (List ℕ)) → icon_eq a a ≡ true
icon_eq_refl none = refl
icon_eq_refl (some a) = bytes_eq_refl a

pub option_content_eq_refl : (a : Option SharedNotification) → option_content_eq a a ≡ true
unfolding option_content_eq content_eq
option_content_eq_refl none = refl
option_content_eq_refl (some a) = ground (
  arith,
  eq_refl a.app_name,
  eq_refl a.title,
  eq_refl a.body,
  eq_refl a.icon,
  icon_eq_refl a.icon_png,
)
