-- ===== src/Clipboard/Schedule.antt =====
-- When an outgoing transfer may send its next chunk (crates/edge-clipboard/src/lib.rs:
-- `ImageTransferSchedule`, `ClipboardPeerFeatures`).
pub mod Budget
use mouse_without_borders.Base.{
  ℕ, ◌+◌, min, String, str_eq, leb, if◌then◌else◌, Bool, true, false, ◌||◌, List, [], ◌∷◌,
}
use mouse_without_borders.Base.Bytes.{u8_max}
use mouse_without_borders.Protocol.Clipboard.{ClipboardEvent, image_chunk, text_chunk}
use mouse_without_borders.Protocol.Frame.{Frame, clipboard}

abbrev pub max_high_priority_frames : ℕ
max_high_priority_frames = 64

pub record ImageTransferSchedule : Type 0 where
  pub high_priority_frames_since_chunk : ℕ  -- u8

unfoldable pub new : ImageTransferSchedule
new = record { high_priority_frames_since_chunk = 0 }

-- `saturating_add(1)` on a u8.
unfoldable pub record_high_priority_frame : ImageTransferSchedule → ImageTransferSchedule
record_high_priority_frame s = record {
  high_priority_frames_since_chunk = min u8_max (s.high_priority_frames_since_chunk + 1);
}

unfoldable pub record_image_chunk : ImageTransferSchedule → ImageTransferSchedule
record_image_chunk s = record { high_priority_frames_since_chunk = 0 }

unfoldable pub image_chunk_is_due : ImageTransferSchedule → Bool
image_chunk_is_due s = leb max_high_priority_frames s.high_priority_frames_since_chunk

-- The pattern `Frame::Clipboard(ImageChunk | TextChunk)`.
abbrev pub is_chunk : Frame → Bool
is_chunk (clipboard (image_chunk id offset bytes)) = true
is_chunk (clipboard (text_chunk id offset bytes)) = true
is_chunk _ = false

-- The pattern `Frame::Clipboard(_)`.
abbrev pub is_clipboard : Frame → Bool
is_clipboard (clipboard event) = true
is_clipboard _ = false

unfoldable pub record_sent_frame : ImageTransferSchedule → Frame → ImageTransferSchedule
unfolding record_image_chunk record_high_priority_frame
record_sent_frame s frame =
    if is_chunk frame then record_image_chunk s else record_high_priority_frame s

unfoldable pub record_received_frame : ImageTransferSchedule → Frame → ImageTransferSchedule
unfolding record_high_priority_frame
record_received_frame s frame = if is_clipboard frame then s else record_high_priority_frame s

pub record ClipboardPeerFeatures : Type 0 where
  pub images : Bool
  pub text_chunks : Bool

unfoldable pub has_extension : String → List String → Bool
has_extension name [] = false
has_extension name (e ∷ es) = str_eq e name || has_extension name es

unfoldable pub from_extensions : List String → ClipboardPeerFeatures
unfolding has_extension
from_extensions extensions = record {
  images = has_extension "clipboard-image-v1" extensions;
  text_chunks = has_extension "clipboard-text-chunks-v1" extensions;
}
