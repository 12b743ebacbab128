-- ===== src/Clipboard/Tracker.antt =====
-- Which clipboard content was seen last, so that a peer's item is not offered back to it
-- (crates/edge-clipboard/src/lib.rs: `ClipboardChangeTracker`).
pub mod Offers
use mouse_without_borders.Base.{
  ℕ, ◌+◌, min, ◌==◌, Bool, true, false, ◌&&◌, Option, none, some, List, [], ◌∷◌, if◌then◌else◌,
}
use mouse_without_borders.Base.Bytes.{bytes_eq, u64_max}
use mouse_without_borders.Clipboard.Image.{ClipboardContentId, text_id, image_id}

pub record ClipboardChangeTracker : Type 0 where
  pub sequence : ℕ  -- u64
  pub last_observed : Option ClipboardContentId

unfoldable pub new : Option ClipboardContentId → ClipboardChangeTracker
new last_observed = record { sequence = 0; last_observed = last_observed }

-- The derived `PartialEq`.
abbrev pub id_eq : ClipboardContentId → ClipboardContentId → Bool
id_eq (text_id a) (text_id b) = bytes_eq a b
id_eq (image_id a) (image_id b) = bytes_eq a b
id_eq _ _ = false

abbrev pub option_id_eq : Option ClipboardContentId → Option ClipboardContentId → Bool
option_id_eq none none = true
option_id_eq (some a) (some b) = id_eq a b
option_id_eq _ _ = false

unfoldable pub is_observed : ClipboardChangeTracker → Option ClipboardContentId → Bool
is_observed t current = option_id_eq t.last_observed current

unfoldable pub mark_observed :
    ClipboardChangeTracker → Option ClipboardContentId → ClipboardChangeTracker
mark_observed t current = record t { last_observed = current }

-- `self.last_observed?` returns early on `None`; the addition saturates.
unfoldable pub offer_current :
    ClipboardChangeTracker → Option ClipboardContentId → ClipboardChangeTracker × Option ℕ
offer_current t none = (record t { last_observed = none }, none)
offer_current t (some id) =
    let next = min u64_max (t.sequence + 1) in
    (record { sequence = next; last_observed = some id }, some next)

unfoldable pub offer_if_changed :
    ClipboardChangeTracker → Option ClipboardContentId → ClipboardChangeTracker × Option ℕ
unfolding is_observed offer_current
offer_if_changed t current = if is_observed t current then (t, none) else offer_current t current
