-- ===== src/Clipboard/Incoming/Refusals.antt =====
-- What a refused event does to the transfer under way.
use mouse_without_borders.Base.{
  ℕ, ◌≡◌, refl, Bool, true, false, none, some, List, err, arith, ◌⊎◌, inl, inr,
}
use mouse_without_borders.Protocol.Clipboard.{
  ClipboardEvent, image_start, image_chunk, image_end, image_cancel, text_start, text_chunk,
  text_end, text_offer, text_request, content_request,
}
use mouse_without_borders.Clipboard.Image.{Libraries, ClipboardError}
use mouse_without_borders.Clipboard.Incoming.{
  IncomingTransfer, IncomingKind, image_kind, text_kind, TransferLimits, handle, chunk, finish,
  start, image_begin,
}
use mouse_without_borders.Clipboard.Incoming.Accepts.{IsEnd}

module _ (lib : Libraries) (limits : TransferLimits) where
  start_refused :
      (active : IncomingTransfer) (id : ℕ) (kind : IncomingKind) (total bound : ℕ) (sha : List ℕ)
      (now : ℕ) {after : IncomingTransfer} {e : ClipboardError lib.ImageError}
      → start lib active id kind total bound sha now ≡ (after, err e)
      → after ≡ active
  unfolding start
  start_refused active id kind total bound sha now h = ground arith

  image_begin_refused :
      (active : IncomingTransfer) (id width height total : ℕ) (sha : List ℕ) (now : ℕ)
      {after : IncomingTransfer} {e : ClipboardError lib.ImageError}
      → image_begin lib active id width height total sha limits now ≡ (after, err e)
      → after ≡ active
  unfolding image_begin
  image_begin_refused active id width height total sha now {after} {e} h = ground (
    arith,
    start_refused active id (image_kind width height) total limits.max_image_bytes sha now
        {after = after} {e = e},
  )

  chunk_refused :
      (active : IncomingTransfer) (id : ℕ) (is_text : Bool) (offset : ℕ) (bytes : List ℕ) (now : ℕ)
      {after : IncomingTransfer} {e : ClipboardError lib.ImageError}
      → chunk lib active id is_text offset bytes now ≡ (after, err e)
      → after ≡ active
  unfolding chunk
  chunk_refused none id is_text offset bytes now h = cc
  chunk_refused (some s) id is_text offset bytes now h = ground arith

  finish_clears :
      (active : IncomingTransfer) (id : ℕ) (is_text : Bool)
      → (finish lib active id is_text limits).0 ≡ none
  unfolding finish
  finish_clears none id is_text = refl
  finish_clears (some s) id is_text = ground arith

  finish_refused :
      (active : IncomingTransfer) (id : ℕ) (is_text : Bool) {after : IncomingTransfer}
      {e : ClipboardError lib.ImageError}
      → finish lib active id is_text limits ≡ (after, err e)
      → after ≡ none
  finish_refused active id is_text h = cc (finish_clears active id is_text)

  -- An event that is refused with an error leaves the transfer as it was, except for an end event,
  -- which gives the transfer up whichever id it names.
  pub handle_refused :
      (active : IncomingTransfer) (event : ClipboardEvent) (now : ℕ) {after : IncomingTransfer}
      {e : ClipboardError lib.ImageError}
      → handle lib active event limits now ≡ (after, err e)
      → (after ≡ active) ⊎ ((id : ℕ) × IsEnd event id × (after ≡ none))
  unfolding handle
  handle_refused active (image_end id) now h = inr (id, inl refl, finish_refused active id false h)
  handle_refused active (text_end id) now h = inr (id, inr refl, finish_refused active id true h)
  handle_refused active (image_start id sequence width height total sha) now h =
      inl (image_begin_refused active id width height total sha now h)
  handle_refused active (text_start id sequence total sha) now h =
      inl (start_refused active id text_kind total limits.max_text_bytes sha now h)
  handle_refused active (image_chunk id offset bytes) now h =
      inl (chunk_refused active id false offset bytes now h)
  handle_refused active (text_chunk id offset bytes) now h =
      inl (chunk_refused active id true offset bytes now h)
  handle_refused active (image_cancel id reason) now h = cc
  handle_refused active (text_offer n t) now h = inl cc
  handle_refused active text_request now h = inl cc
  handle_refused active content_request now h = inl cc
