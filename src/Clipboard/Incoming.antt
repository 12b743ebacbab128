-- ===== src/Clipboard/Incoming.antt =====
-- The receiving side of a chunked transfer (crates/edge-clipboard/src/lib.rs:
-- `IncomingClipboardTransfer`). `Instant::now()` is the argument `now`, in nanoseconds; each method
-- returns the new state and its result. usize is 64 bits wide.
pub mod Bounds
pub mod Accepts
pub mod Refusals
use mouse_without_borders.Base.{
  ℕ, ◌+◌, ◌-◌, ◌*◌, ◌%◌, min, ltb, ◌==◌, not, ◌||◌, bool_ne, Bool, true, false, Option, none, some,
  List, [], ◌++◌, length, is_empty, if◌then◌else◌, Result, ok, err, ◌>>=◌, ◌>>◌, fail_if, ok_or,
  is_some,
}
use mouse_without_borders.Base.Bytes.{bytes_eq, u32_mod, usize_max, checked_u64}
use mouse_without_borders.Protocol.Clipboard.{
  ClipboardEvent, image_start, image_chunk, image_end, image_cancel, text_start, text_chunk,
  text_end,
}
use mouse_without_borders.Clipboard.Image.{
  Libraries, ClipboardItem, ClipboardError, text, image, invalid_dimensions, encoded_too_large,
  invalid_transfer, offset_mismatch, hash_mismatch, transfer_expired, invalid_text, hash_bytes,
  from_encoded, validate_dimensions, transfer_chunk_bytes, image_transfer_timeout,
}

pub record TransferLimits : Type 0 where
  pub max_image_bytes : ℕ  -- usize
  pub max_text_bytes : ℕ  -- usize

pub data IncomingKind : Type 0 where
  image_kind : ℕ → ℕ → IncomingKind
  text_kind : IncomingKind

abbrev pub is_text_kind : IncomingKind → Bool
is_text_kind (image_kind width height) = false
is_text_kind text_kind = true

pub record IncomingState : Type 0 where
  pub transfer_id : ℕ  -- u64
  pub kind : IncomingKind
  pub total_bytes : ℕ  -- usize
  pub content_sha256 : List ℕ
  pub bytes : List ℕ
  pub last_progress : ℕ

-- `IncomingClipboardTransfer`: its only field is `active`.
abbrev pub IncomingTransfer : Type 0
IncomingTransfer = Option IncomingState

-- `Result<Option<ClipboardItem>>`.
abbrev pub Reply : Libraries → Type 0
Reply lib = Result (ClipboardError lib.ImageError) (Option ClipboardItem)

unfoldable pub cancel : IncomingTransfer → ℕ → IncomingTransfer
cancel none transfer_id = none
cancel (some state) transfer_id = if state.transfer_id == transfer_id then none else some state

unfoldable pub expire_transfer_id : IncomingTransfer → ℕ → IncomingTransfer × Option ℕ
expire_transfer_id none now = (none, none)
expire_transfer_id (some state) now =
    if ltb image_transfer_timeout (now - state.last_progress)
    then (none, some state.transfer_id)
    else (some state, none)

module _ (lib : Libraries) where
  unfoldable pub start :
      IncomingTransfer → ℕ → IncomingKind → ℕ → ℕ → List ℕ → ℕ → IncomingTransfer × Reply lib
  start active transfer_id kind total_bytes max_bytes content_sha256 now =
      if total_bytes == 0 || ltb max_bytes total_bytes
      then (active, err (encoded_too_large total_bytes max_bytes))
      else (
        some (record {
          transfer_id = transfer_id;
          kind = kind;
          total_bytes = total_bytes;
          content_sha256 = content_sha256;
          bytes = [];
          last_progress = now;
        }),
        ok none,
      )

  unfoldable pub image_begin :
      IncomingTransfer → ℕ → ℕ → ℕ → ℕ → List ℕ → TransferLimits → ℕ → IncomingTransfer × Reply lib
  unfolding start
  image_begin active transfer_id width height total_bytes sha limits now =
      elim (do
        pixels ← ok_or (checked_u64 (width * height)) invalid_dimensions
        rgba_len ← ok_or (checked_u64 (pixels * 4)) invalid_dimensions
        validate_dimensions {E = lib.ImageError} width height rgba_len) [
          | ok _ ↦
              start active transfer_id (image_kind width height) total_bytes limits.max_image_bytes
                sha now
          | err e ↦ (active, err e)
        ]

  unfoldable pub chunk : IncomingTransfer → ℕ → Bool → ℕ → List ℕ → ℕ → IncomingTransfer × Reply lib
  chunk none transfer_id is_text offset bytes now = (none, err invalid_transfer)
  chunk (some state) transfer_id is_text offset bytes now =
      if not (state.transfer_id == transfer_id) || bool_ne (is_text_kind state.kind) is_text
      then (some state, err invalid_transfer)
      else let expected = length state.bytes % u32_mod in
        if not (offset == expected)
        then (some state, err (offset_mismatch expected offset))
        else if is_empty bytes
            || ltb transfer_chunk_bytes (length bytes)
            || ltb state.total_bytes (min usize_max (length state.bytes + length bytes))
        then (some state, err invalid_transfer)
        else (some (record state { bytes = state.bytes ++ bytes; last_progress = now }), ok none)

  finish_image : IncomingState → ℕ → ℕ → TransferLimits → Reply lib
  finish_image state width height limits = do
    decoded ← from_encoded lib state.bytes "image/png" limits.max_image_bytes
    fail_if
        (not (decoded.width == width)
          || not (decoded.height == height)
          || not (bytes_eq decoded.content_sha256 state.content_sha256))
        hash_mismatch
    ok (some (image decoded))

  finish_text : IncomingState → Reply lib
  finish_text state = do
    fail_if (not (bytes_eq (hash_bytes lib state.bytes) state.content_sha256)) hash_mismatch
    decoded ← ok_or (lib.from_utf8 state.bytes) invalid_text
    ok (some (text decoded))

  unfoldable pub finish_kind : IncomingKind → IncomingState → TransferLimits → Reply lib
  unfolding finish_image finish_text
  finish_kind (image_kind width height) state limits = finish_image state width height limits
  finish_kind text_kind state limits = finish_text state

  -- `self.active.take()`: the transfer is gone whatever follows.
  unfoldable pub finish :
      IncomingTransfer → ℕ → Bool → TransferLimits → IncomingTransfer × Reply lib
  finish none transfer_id is_text limits = (none, err invalid_transfer)
  finish (some state) transfer_id is_text limits =
      if not (state.transfer_id == transfer_id)
        || bool_ne (is_text_kind state.kind) is_text
        || not (length state.bytes == state.total_bytes)
      then (none, err invalid_transfer)
      else (none, finish_kind state.kind state limits)

  unfoldable pub handle :
      IncomingTransfer → ClipboardEvent → TransferLimits → ℕ → IncomingTransfer × Reply lib
  unfolding image_begin start chunk finish cancel
  handle active (image_start id sequence width height total sha) limits now =
      image_begin active id width height total sha limits now
  handle active (text_start id sequence total sha) limits now =
      start active id text_kind total limits.max_text_bytes sha now
  handle active (image_chunk id offset bytes) limits now = chunk active id false offset bytes now
  handle active (text_chunk id offset bytes) limits now = chunk active id true offset bytes now
  handle active (image_end id) limits now = finish active id false limits
  handle active (text_end id) limits now = finish active id true limits
  handle active (image_cancel id reason) limits now = (cancel active id, ok none)
  handle active _ limits now = (active, err invalid_transfer)

  unfoldable pub expire :
      IncomingTransfer → ℕ → IncomingTransfer × Result (ClipboardError lib.ImageError) (Unit {0})
  unfolding expire_transfer_id
  expire active now =
      let (active', expired) = expire_transfer_id active now in
      if is_some expired then (active', err transfer_expired) else (active', ok tt)

unfoldable pub clear : IncomingTransfer → IncomingTransfer
clear active = none
