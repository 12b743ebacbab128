-- ===== src/Clipboard/Transfer/RoundTrip.antt =====
-- A transfer delivers the item that was sent.
use mouse_without_borders.Base.{
  ℕ, zero, suc, ◌+◌, ◌*◌, ◌≤◌, ◌<◌, ◌≡◌, refl, ◌∙◌, true, String, none, some, ok, length, arith,
  List, [],
}
use mouse_without_borders.Base.Bytes.{u32_mod}
use mouse_without_borders.Clipboard.Image.{
  Libraries, CanonicalImage, ClipboardItem, text, image, hash_bytes, transfer_chunk_bytes,
}
use mouse_without_borders.Clipboard.Image.Canonical.{
  PngLaws, IsCanonical, from_encoded-png, validate_dimensions_accepts,
}
use mouse_without_borders.Base.Bytes.{bytes_eq_refl}
use mouse_without_borders.Clipboard.Outgoing.{
  OutgoingTransfer, image_payload, text_payload, image_transfer, text_transfer, next_event, is_done,
  OutgoingPayload, is_text, start_event, with_payload, payload_bytes,
}
use mouse_without_borders.Clipboard.Incoming.{
  IncomingTransfer, IncomingState, image_kind, text_kind, TransferLimits, handle, finish_kind,
  IncomingKind, is_text_kind,
}
use mouse_without_borders.Clipboard.Transfer.{transfer}
use mouse_without_borders.Clipboard.Transfer.Steps.{transfer_step, transfer_chunks}

-- All the bytes in chunks of 16 KiB, with the start, the end and the round that finds no event.
abbrev pub IsEnough : ℕ → ℕ → Type 0
IsEnough fuel size = size + 49152 ≤ fuel * transfer_chunk_bytes

-- The receiver's state after `bytes`.
abbrev held : ℕ → IncomingKind → ℕ → List ℕ → List ℕ → ℕ → IncomingState
held id kind total sha bytes last = record {
  transfer_id = id;
  kind = kind;
  total_bytes = total;
  content_sha256 = sha;
  bytes = bytes;
  last_progress = last;
}

module _ (lib : Libraries) (limits : TransferLimits) (clock : ℕ → ℕ) where
  -- The transfer ends with this item, with nothing left open on either side.
  abbrev pub Delivers : ℕ → OutgoingTransfer → IncomingTransfer → ClipboardItem → Type 0
  Delivers fuel out incoming item =
      (out' : OutgoingTransfer) × (transfer lib limits clock fuel out incoming none
        ≡ some (out', none, ok (some item)))
      × (is_done out' ≡ true)

  -- What both kinds share: the receiver opens the transfer, and accepts the whole payload.
  payload-Delivers :
      (fuel id sequence : ℕ) (payload : OutgoingPayload) (kind : IncomingKind) (sha : List ℕ)
      (item : ClipboardItem) (before : IncomingTransfer)
      → is_text_kind kind ≡ is_text payload
      → ((now : ℕ)
          → handle lib before (start_event (with_payload id sequence payload) payload) limits now
            ≡ (some (held id kind (length (payload_bytes payload)) sha [] now), ok none))
      → ((last : ℕ)
          → finish_kind lib kind
              (held id kind (length (payload_bytes payload)) sha (payload_bytes payload) last)
              limits
            ≡ ok (some item))
      → IsEnough fuel (length (payload_bytes payload))
      → Delivers fuel (with_payload id sequence payload) before item
  unfolding with_payload next_event is_done
  payload-Delivers zero id sequence payload kind sha item before same begins ends enough =
      absurd (omega arith)
  payload-Delivers (suc fuel) id sequence payload kind sha item before same begins ends enough = (
    _,
    transfer_step lib limits clock fuel (with_payload id sequence payload) before none refl
          (begins (clock fuel))
        ∙ transfer_chunks lib limits clock id sequence payload kind sha item same ends fuel 0
            (clock fuel) (omega arith) (omega arith),
    refl,
  )

  -- A text that is not empty, fits the receiver's limit and 32 bits, and survives UTF-8, arrives
  -- whole with enough fuel, whatever transfer was under way at the receiver before, at any instants;
  -- nothing is left open on either side.
  pub text_transfer-Delivers :
      (fuel id sequence : ℕ) (t : String) (before : IncomingTransfer)
      → lib.from_utf8 (lib.into_bytes t) ≡ some t
      → 0 < length (lib.into_bytes t)
      → length (lib.into_bytes t) ≤ limits.max_text_bytes
      → length (lib.into_bytes t) < u32_mod
      → IsEnough fuel (length (lib.into_bytes t))
      → Delivers fuel (text_transfer lib id sequence t) before (text t)
  unfolding text_transfer with_payload handle finish_kind
  text_transfer-Delivers fuel id sequence t before utf8 pos small word enough =
      let bytes = lib.into_bytes t in
      let sha = hash_bytes lib bytes in
      payload-Delivers fuel id sequence (text_payload bytes sha) text_kind sha (text t) before refl
        (λ now. ground arith) (λ last. ground (arith, bytes_eq_refl sha)) enough

  -- A canonical image whose PNG is not empty and fits the receiver's limit and 32 bits arrives whole
  -- with enough fuel, whatever transfer was under way at the receiver before, at any instants;
  -- nothing is left open on either side. PNG is taken to be lossless.
  pub image_transfer-Delivers :
      (fuel id sequence : ℕ) (i : CanonicalImage) (before : IncomingTransfer)
      → PngLaws lib
      → IsCanonical lib limits.max_image_bytes i
      → 0 < length i.png_bytes
      → length i.png_bytes < u32_mod
      → IsEnough fuel (length i.png_bytes)
      → Delivers fuel (image_transfer id sequence i) before (image i)
  unfolding image_transfer with_payload handle finish_kind
  image_transfer-Delivers fuel id sequence i before laws canonical pos word enough =
      payload-Delivers fuel id sequence (image_payload i) (image_kind i.width i.height)
        i.content_sha256 (image i) before refl
        (λ now. ground (
          arith,
          validate_dimensions_accepts {E = lib.ImageError} i.width i.height (i.width * i.height * 4)
              (record {
                wide = canonical.size.wide;
                high = canonical.size.high;
                pixels = canonical.size.pixels;
                exact = refl;
              }),
        ))
        (λ last. ground (
          arith,
          bytes_eq_refl i.content_sha256,
          from_encoded-png lib laws limits.max_image_bytes i canonical,
        ))
        enough
