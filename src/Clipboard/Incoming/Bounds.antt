-- ===== src/Clipboard/Incoming/Bounds.antt =====
-- What the receiver of a transfer guarantees about its buffer.
use mouse_without_borders.Base.{
  ℕ, ◌≤◌, ◌<◌, ◌≡◌, refl, Bool, true, false, none, some, List, length, length-append, arith,
}
use mouse_without_borders.Base.Bytes.{u32_mod}
use mouse_without_borders.Protocol.Clipboard.{
  ClipboardEvent, image_start, image_chunk, image_end, image_cancel, text_start, text_chunk,
  text_end,
}
use mouse_without_borders.Clipboard.Image.{Libraries}
use mouse_without_borders.Clipboard.Incoming.{
  IncomingTransfer, IncomingKind, image_kind, text_kind, TransferLimits, handle, chunk, finish,
  start, cancel, image_begin,
}

abbrev pub limit_of : IncomingKind → TransferLimits → ℕ
limit_of (image_kind width height) limits = limits.max_image_bytes
limit_of text_kind limits = limits.max_text_bytes

-- The buffer never holds more than was announced, and no more than the limit was announced.
abbrev pub IsBounded : TransferLimits → IncomingTransfer → Type 0
IsBounded limits none = Unit {0}
IsBounded limits (some s) =
    (0 < s.total_bytes)
    × (s.total_bytes < u32_mod)
    × (s.total_bytes ≤ limit_of s.kind limits)
    × (length s.bytes ≤ s.total_bytes)

-- The width of the announced size on the wire.
abbrev pub IsWire : ClipboardEvent → Type 0
IsWire (image_start id sequence width height total sha) = total < u32_mod
IsWire (text_start id sequence total sha) = total < u32_mod
IsWire _ = Unit {0}

module _ (lib : Libraries) (limits : TransferLimits) where
  start-IsBounded :
      (active : IncomingTransfer) (id : ℕ) (kind : IncomingKind) (total : ℕ) (sha : List ℕ)
      (now : ℕ)
      → total < u32_mod
      → IsBounded limits active
      → IsBounded limits (start lib active id kind total (limit_of kind limits) sha now).0
  unfolding start
  start-IsBounded active id kind total sha now w b = ground arith

  image_begin-IsBounded :
      (active : IncomingTransfer) (id width height total : ℕ) (sha : List ℕ) (now : ℕ)
      → total < u32_mod
      → IsBounded limits active
      → IsBounded limits (image_begin lib active id width height total sha limits now).0
  unfolding image_begin
  image_begin-IsBounded active id width height total sha now w b =
      ground (arith, start-IsBounded active id (image_kind width height) total sha now w b)

  chunk-IsBounded :
      (active : IncomingTransfer) (id : ℕ) (is_text : Bool) (offset : ℕ) (bytes : List ℕ) (now : ℕ)
      → IsBounded limits active
      → IsBounded limits (chunk lib active id is_text offset bytes now).0
  unfolding chunk
  chunk-IsBounded none id is_text offset bytes now b = tt
  chunk-IsBounded (some s) id is_text offset bytes now b =
      ground (arith, length-append s.bytes bytes)

  finish-none :
      (active : IncomingTransfer) (id : ℕ) (is_text : Bool)
      → (finish lib active id is_text limits).0 ≡ none
  unfolding finish
  finish-none none id is_text = refl
  finish-none (some s) id is_text = ground arith

  cancel-IsBounded :
      (active : IncomingTransfer) (id : ℕ)
      → IsBounded limits active
      → IsBounded limits (cancel active id)
  unfolding cancel
  cancel-IsBounded none id b = tt
  cancel-IsBounded (some s) id b = ground arith

  -- Every event that the wire can carry keeps the buffer bounded, whether it is accepted or refused:
  -- it holds no more bytes than were announced, and those are within the receiver's limit.
  pub handle-IsBounded :
      (active : IncomingTransfer) (event : ClipboardEvent) (now : ℕ)
      → IsWire event
      → IsBounded limits active
      → IsBounded limits (handle lib active event limits now).0
  unfolding handle
  handle-IsBounded active (image_start id sequence width height total sha) now w b =
      image_begin-IsBounded active id width height total sha now w b
  handle-IsBounded active (text_start id sequence total sha) now w b =
      start-IsBounded active id text_kind total sha now w b
  handle-IsBounded active (image_chunk id offset bytes) now w b =
      chunk-IsBounded active id false offset bytes now b
  handle-IsBounded active (text_chunk id offset bytes) now w b =
      chunk-IsBounded active id true offset bytes now b
  handle-IsBounded active (image_end id) now w b = rw (finish-none active id false) tt
  handle-IsBounded active (text_end id) now w b = rw (finish-none active id true) tt
  handle-IsBounded active (image_cancel id reason) now w b = cancel-IsBounded active id b
  handle-IsBounded active _ now w b = b
