-- ===== src/Clipboard/Incoming/Accepts.antt =====
-- What the receiver of a transfer accepts.
use mouse_without_borders.Base.{
  ℕ, ◌≡◌, ◌≢◌, refl, Bool, true, false, none, some, List, length, ok, arith, ◌⊎◌, inl, inr,
}
use mouse_without_borders.Protocol.Clipboard.{
  ClipboardEvent, image_start, image_chunk, image_end, image_cancel, text_start, text_chunk,
  text_end, text_offer, text_request, content_request,
}
use mouse_without_borders.Clipboard.Image.{
  Libraries, ClipboardItem, text, image, hash_bytes, from_encoded,
}
use mouse_without_borders.Base.Bytes.{bytes_eq→eq}
use mouse_without_borders.Clipboard.Incoming.{
  IncomingTransfer, IncomingState, IncomingKind, image_kind, text_kind, TransferLimits, handle,
  chunk, finish, start, finish_kind, image_begin,
}

-- The event that may complete a transfer, with its id.
abbrev pub IsEnd : ClipboardEvent → ℕ → Type 0
IsEnd event id = (event ≡ image_end id) ⊎ (event ≡ text_end id)

module _ (lib : Libraries) (limits : TransferLimits) where
  -- What an accepted item says of the transfer it ends: it is complete, and the item is what its
  -- bytes decode to, under the hash that the sender announced.
  abbrev pub Certifies : IncomingState → ClipboardItem → Type 0
  Certifies s (text t) =
      (s.kind ≡ text_kind)
      × (length s.bytes ≡ s.total_bytes)
      × (hash_bytes lib s.bytes ≡ s.content_sha256)
      × (lib.from_utf8 s.bytes ≡ some t)
  Certifies s (image i) =
      (s.kind ≡ image_kind i.width i.height)
      × (length s.bytes ≡ s.total_bytes)
      × (i.content_sha256 ≡ s.content_sha256)
      × (from_encoded lib s.bytes "image/png" limits.max_image_bytes ≡ ok i)

  finish_text-Certifies :
      (s : IncomingState) (item : ClipboardItem)
      → s.kind ≡ text_kind
      → length s.bytes ≡ s.total_bytes
      → finish_kind lib text_kind s limits ≡ ok (some item)
      → Certifies s item
  unfolding finish_kind
  finish_text-Certifies s (text t) k full h =
      ground (arith, bytes_eq→eq (hash_bytes lib s.bytes) s.content_sha256)
  finish_text-Certifies s (image i) k full h = ground arith

  finish_image-Certifies :
      (s : IncomingState) (width height : ℕ) (item : ClipboardItem)
      → s.kind ≡ image_kind width height
      → length s.bytes ≡ s.total_bytes
      → finish_kind lib (image_kind width height) s limits ≡ ok (some item)
      → Certifies s item
  unfolding finish_kind
  finish_image-Certifies s width height (text t) k full h = ground arith
  finish_image-Certifies s width height (image i) k full h =
      ground (arith, bytes_eq→eq i.content_sha256 s.content_sha256)

  finish_kind-Certifies :
      (s : IncomingState) (kind : IncomingKind) (item : ClipboardItem)
      → s.kind ≡ kind
      → length s.bytes ≡ s.total_bytes
      → finish_kind lib kind s limits ≡ ok (some item)
      → Certifies s item
  finish_kind-Certifies s (image_kind width height) item k full h =
      finish_image-Certifies s width height item k full h
  finish_kind-Certifies s text_kind item k full h = finish_text-Certifies s item k full h

  -- The transfer that an accepted item ends.
  abbrev pub Ends : IncomingTransfer → ℕ → IncomingTransfer → ClipboardItem → Type 0
  Ends active id after item =
      (s : IncomingState) × (active ≡ some s)
      × (after ≡ none)
      × (s.transfer_id ≡ id)
      × Certifies s item

  finish-Ends :
      (active : IncomingTransfer) (id : ℕ) (is_text : Bool) (after : IncomingTransfer)
      (item : ClipboardItem)
      → finish lib active id is_text limits ≡ (after, ok (some item))
      → Ends active id after item
  unfolding finish
  finish-Ends none id is_text after item h = cc
  finish-Ends (some s) id is_text after item h = (
    s,
    refl,
    ground arith,
    ground arith,
    finish_kind-Certifies s s.kind item refl (ground arith) (ground arith),
  )

  start_no_item :
      (active : IncomingTransfer) (id : ℕ) (kind : IncomingKind) (total bound : ℕ) (sha : List ℕ)
      (now : ℕ) (after : IncomingTransfer) (item : ClipboardItem)
      → start lib active id kind total bound sha now ≢ (after, ok (some item))
  unfolding start
  start_no_item active id kind total bound sha now after item h = ground arith

  image_begin_no_item :
      (active : IncomingTransfer) (id width height total : ℕ) (sha : List ℕ) (now : ℕ)
      (after : IncomingTransfer) (item : ClipboardItem)
      → image_begin lib active id width height total sha limits now ≢ (after, ok (some item))
  unfolding image_begin
  image_begin_no_item active id width height total sha now after item h = ground (
    arith,
    start_no_item active id (image_kind width height) total limits.max_image_bytes sha now after
        item,
  )

  chunk_no_item :
      (active : IncomingTransfer) (id : ℕ) (is_text : Bool) (offset : ℕ) (bytes : List ℕ) (now : ℕ)
      (after : IncomingTransfer) (item : ClipboardItem)
      → chunk lib active id is_text offset bytes now ≢ (after, ok (some item))
  unfolding chunk
  chunk_no_item none id is_text offset bytes now after item h = cc
  chunk_no_item (some s) id is_text offset bytes now after item h = ground arith

  -- An item is accepted only at the end event of the transfer under way, which is over then: all
  -- the announced bytes are there, they decode to the item, and the announced hash is right.
  pub handle-Certifies :
      (active : IncomingTransfer) (event : ClipboardEvent) (now : ℕ) (after : IncomingTransfer)
      (item : ClipboardItem)
      → handle lib active event limits now ≡ (after, ok (some item))
      → (id : ℕ) × IsEnd event id × Ends active id after item
  unfolding handle
  handle-Certifies active (image_end id) now after item h =
      (id, inl refl, finish-Ends active id false after item h)
  handle-Certifies active (text_end id) now after item h =
      (id, inr refl, finish-Ends active id true after item h)
  handle-Certifies active (image_start id sequence width height total sha) now after item h =
      absurd (image_begin_no_item active id width height total sha now after item h)
  handle-Certifies active (text_start id sequence total sha) now after item h =
      absurd (start_no_item active id text_kind total limits.max_text_bytes sha now after item h)
  handle-Certifies active (image_chunk id offset bytes) now after item h =
      absurd (chunk_no_item active id false offset bytes now after item h)
  handle-Certifies active (text_chunk id offset bytes) now after item h =
      absurd (chunk_no_item active id true offset bytes now after item h)
  handle-Certifies active (image_cancel id reason) now after item h = cc
  handle-Certifies active (text_offer n t) now after item h = cc
  handle-Certifies active text_request now after item h = cc
  handle-Certifies active content_request now after item h = cc
