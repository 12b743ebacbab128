-- ===== src/Protocol/Clipboard.antt =====
-- The clipboard messages (crates/edge-protocol/src/lib.rs, `ClipboardEvent`). Bytes and hashes are
-- lists of numbers; the width of each integer is noted beside it.
use mouse_without_borders.Base.{ℕ, String, Bool, true, false, Option, none, some, List}

pub data ClipboardCancelReason : Type 0 where
  replaced rejected timed_out invalid : ClipboardCancelReason

pub data ClipboardEvent : Type 0 where
  -- sequence : u64, text
  text_offer : ℕ → String → ClipboardEvent
  text_request : ClipboardEvent
  content_request : ClipboardEvent
  -- transfer_id : u64, sequence : u64, width : u32, height : u32, total_bytes : u32, content_sha256
  image_start : ℕ → ℕ → ℕ → ℕ → ℕ → List ℕ → ClipboardEvent
  -- transfer_id : u64, offset : u32, bytes
  image_chunk : ℕ → ℕ → List ℕ → ClipboardEvent
  image_end : ℕ → ClipboardEvent
  image_cancel : ℕ → ClipboardCancelReason → ClipboardEvent
  -- transfer_id : u64, sequence : u64, total_bytes : u32, content_sha256
  text_start : ℕ → ℕ → ℕ → List ℕ → ClipboardEvent
  text_chunk : ℕ → ℕ → List ℕ → ClipboardEvent
  text_end : ℕ → ClipboardEvent

unfoldable pub image_transfer_id : ClipboardEvent → Option ℕ
image_transfer_id (image_start id sequence width height total sha) = some id
image_transfer_id (image_chunk id offset bytes) = some id
image_transfer_id (image_end id) = some id
image_transfer_id (image_cancel id reason) = some id
image_transfer_id _ = none

unfoldable pub transfer_id : ClipboardEvent → Option ℕ
unfolding image_transfer_id
transfer_id (text_start id sequence total sha) = some id
transfer_id (text_chunk id offset bytes) = some id
transfer_id (text_end id) = some id
transfer_id event = image_transfer_id event

unfoldable pub is_text_transfer : ClipboardEvent → Bool
is_text_transfer (text_start id sequence total sha) = true
is_text_transfer (text_chunk id offset bytes) = true
is_text_transfer (text_end id) = true
is_text_transfer _ = false
