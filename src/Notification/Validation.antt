-- ===== src/Notification/Validation.antt =====
-- The checks of keys and contents (apps/edge-receiver-linux/src/notification_hub.rs:
-- `validate_key`, `validate_content`). Each message of `ensure!` and `bail!` is a constructor.
use mouse_without_borders.Base.{
  ℕ, leb, ◌==◌, not, ◌&&◌, ◌||◌, Bool, true, Option, none, some, List, [], ◌∷◌, length, Result,
  ◌>>◌, fail_if,
}
use mouse_without_borders.Base.Texts.{
  codes, byte_len, all, split, is_ascii_hexdigit, is_ascii_alphanumeric,
}
use mouse_without_borders.Protocol.Phone.{NotificationKey, SharedNotification}

pub data HubError : Type 0 where
  invalid_origin invalid_instance content_too_large icon_not_a_name : HubError
  invalid_urgency icon_too_large : HubError
  zero_sequence source_impersonation state_full sequence_exhausted : HubError
  invalid_local_origin outbox_full store_not_written : HubError
  owner_differs owner_not_confirmed output_queue_full invalid_epoch : HubError
  coordinator_reset nested_snapshot record_outside_snapshot : HubError
  snapshot_capacity end_without_start incorrect_authority : HubError
  snapshot_too_large control_interrupted_snapshot buffer_full : HubError
  worker_queue_full worker_stopped phone_snapshot_full : HubError

-- `ensure!`.
abbrev pub ensure : Bool → HubError → Result HubError (Unit {0})
ensure test e = fail_if (not test) e

-- `PhoneNotification::MAX_ICON_BYTES`.
abbrev pub max_icon_bytes : ℕ
max_icon_bytes = 24576

unfoldable pub all_parts : List (List ℕ) → Bool
all_parts [] = true
all_parts (part ∷ parts) = byte_len part == 8 && all is_ascii_hexdigit part && all_parts parts

-- `b"-_/".contains(&c)`, `b"-_.".contains(&c)`.
abbrev pub is_instance_byte : ℕ → Bool
is_instance_byte c = is_ascii_alphanumeric c || c == 45 || c == 95 || c == 47

abbrev pub is_icon_byte : ℕ → Bool
is_icon_byte c = is_ascii_alphanumeric c || c == 45 || c == 95 || c == 46

unfoldable pub validate_key : NotificationKey → Result HubError (Unit {0})
validate_key key = do
  let origin = codes key.origin
  let instance_codes = codes key.instance_id
  ensure (byte_len origin == 35 && length (split 58 origin) == 4 && all_parts (split 58 origin))
      invalid_origin
  ensure
      (not (byte_len instance_codes == 0)
        && leb (byte_len instance_codes) 160
        && all is_instance_byte instance_codes)
      invalid_instance

abbrev pub icon_fits : Option (List ℕ) → Bool
icon_fits none = true
icon_fits (some png) = leb (length png) max_icon_bytes

unfoldable pub validate_content : SharedNotification → Result HubError (Unit {0})
validate_content content = do
  ensure
      (leb (length (codes content.app_name)) 64
        && leb (length (codes content.title)) 256
        && leb (byte_len (codes content.body)) 4096)
      content_too_large
  ensure (leb (byte_len (codes content.icon)) 128 && all is_icon_byte (codes content.icon))
      icon_not_a_name
  ensure (leb content.urgency 2) invalid_urgency
  ensure (icon_fits content.icon_png) icon_too_large
