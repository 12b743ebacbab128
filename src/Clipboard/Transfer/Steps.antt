-- ===== src/Clipboard/Transfer/Steps.antt =====
-- Single rounds of a transfer, and the run of its chunks.
use mouse_without_borders.Base.{
  ℕ, zero, suc, ◌+◌, ◌-◌, ◌*◌, ◌%◌, ◌≤◌, ◌<◌, ◌≡◌, min, refl, ap, ◌∙◌, Bool, false, Option, none,
  some, or_else, ok, List, ◌++◌, length, take, drop, is_empty, is_empty_of_pos, length-take,
  length-drop, take_all, take-append-slice, arith, leb, Bool-cases, inl, inr,
}
use mouse_without_borders.Base.Bytes.{u32_mod}
use mouse_without_borders.Protocol.Clipboard.{ClipboardEvent}
use mouse_without_borders.Clipboard.Image.{Libraries, ClipboardItem, transfer_chunk_bytes}
use mouse_without_borders.Clipboard.Outgoing.{
  OutgoingTransfer, OutgoingPayload, image_payload, text_payload, payload_bytes, is_text, starting,
  chunks, ending, done, next_event, chunk_event, end_event,
}
use mouse_without_borders.Clipboard.Outgoing
use mouse_without_borders.Clipboard.Incoming.{
  IncomingTransfer, IncomingState, IncomingKind, is_text_kind, TransferLimits, handle, chunk,
  finish, finish_kind,
}
use mouse_without_borders.Clipboard.Transfer.{transfer}

module _ (lib : Libraries) (limits : TransferLimits) (clock : ℕ → ℕ) where
  -- One round in which the receiver accepts the event.
  pub transfer_step :
      (fuel : ℕ) (out : OutgoingTransfer) (incoming : IncomingTransfer)
      (completed : Option ClipboardItem) {out' : OutgoingTransfer} {event : ClipboardEvent}
      {incoming' : IncomingTransfer} {item : Option ClipboardItem}
      → next_event out ≡ (out', some event)
      → handle lib incoming event limits (clock fuel) ≡ (incoming', ok item)
      → transfer lib limits clock (suc fuel) out incoming completed
        ≡ transfer lib limits clock fuel out' incoming' (or_else item completed)
  unfolding transfer
  transfer_step fuel out incoming completed e h = rw (e, transfer) (rw (h, transfer) (rw (e, h)))

  -- The round after the last event.
  pub transfer_done :
      (fuel : ℕ) (out : OutgoingTransfer) (incoming : IncomingTransfer)
      (completed : Option ClipboardItem)
      → next_event out ≡ (out, none)
      → transfer lib limits clock (suc fuel) out incoming completed
        ≡ some (out, incoming, ok completed)
  unfolding transfer
  transfer_done fuel out incoming completed e = rw (e, transfer) (rw e)

  chunk_ok :
      (state : IncomingState) (is_text : Bool) (offset : ℕ) (bytes : List ℕ) (now : ℕ)
      → is_text_kind state.kind ≡ is_text
      → length state.bytes ≡ offset
      → is_empty bytes ≡ false
      → length bytes ≤ transfer_chunk_bytes
      → length state.bytes + length bytes ≤ state.total_bytes
      → chunk lib (some state) state.transfer_id is_text (offset % u32_mod) bytes now
        ≡ (some (record state { bytes = state.bytes ++ bytes; last_progress = now }), ok none)
  unfolding chunk
  chunk_ok state is_text offset bytes now kind at ne small fits = ground arith

  handle-chunk :
      (incoming : IncomingTransfer) (payload : OutgoingPayload) (id offset : ℕ) (bytes : List ℕ)
      (now : ℕ)
      → handle lib incoming (chunk_event id payload offset bytes) limits now
        ≡ chunk lib incoming id (is_text payload) offset bytes now
  unfolding handle
  handle-chunk incoming (image_payload i) id offset bytes now = refl
  handle-chunk incoming (text_payload all sha) id offset bytes now = refl

  handle_end :
      (incoming : IncomingTransfer) (payload : OutgoingPayload) (id now : ℕ)
      → handle lib incoming (end_event id payload) limits now
        ≡ finish lib incoming id (is_text payload) limits
  unfolding handle
  handle_end incoming (image_payload i) id now = refl
  handle_end incoming (text_payload all sha) id now = refl

  -- The two ends in the middle of a transfer: the receiver holds the first `offset` bytes.
  module _ (id sequence : ℕ) (payload : OutgoingPayload) (kind : IncomingKind) (sha : List ℕ)
      (item : ClipboardItem) (same_kind : is_text_kind kind ≡ is_text payload)
      (complete : (last : ℕ)
        → finish_kind lib kind
            (record {
              transfer_id = id;
              kind = kind;
              total_bytes = length (payload_bytes payload);
              content_sha256 = sha;
              bytes = payload_bytes payload;
              last_progress = last;
            })
            limits
          ≡ ok (some item)) where
    abbrev sending : ℕ → Outgoing.OutgoingStage → OutgoingTransfer
    sending offset stage = record {
      transfer_id = id;
      sequence = sequence;
      payload = payload;
      offset = offset;
      stage = stage;
    }

    abbrev receiving : ℕ → ℕ → IncomingState
    receiving offset last = record {
      transfer_id = id;
      kind = kind;
      total_bytes = length (payload_bytes payload);
      content_sha256 = sha;
      bytes = take offset (payload_bytes payload);
      last_progress = last;
    }

    finish_all :
        (last now : ℕ)
        → handle lib
            (some (receiving (length (payload_bytes payload)) last))
            (end_event id payload)
            limits
            now
          ≡ (none, ok (some item))
    unfolding finish
    finish_all last now =
        rw
          (
            handle_end (some (receiving (length (payload_bytes payload)) last)) payload id now,
            take_all (length (payload_bytes payload)) (payload_bytes payload) (omega arith),
          )
          (ground (arith, complete last))

    transfer_end :
        (fuel last : ℕ)
        → transfer lib limits clock
            (suc (suc fuel))
            (sending (length (payload_bytes payload)) chunks)
            (some (receiving (length (payload_bytes payload)) last))
            none
          ≡ some (sending (length (payload_bytes payload)) done, none, ok (some item))
    unfolding next_event
    transfer_end fuel last =
        transfer_step (suc fuel) (sending (length (payload_bytes payload)) chunks)
          (some (receiving (length (payload_bytes payload)) last)) none (ground arith)
          (finish_all last (clock (suc fuel)))
        ∙ transfer_done fuel (sending (length (payload_bytes payload)) done) none (some item) refl

    next_slice :
        (offset : ℕ)
        → offset < length (payload_bytes payload)
        → next_event (sending offset chunks) ≡ (
          sending (min (offset + transfer_chunk_bytes) (length (payload_bytes payload))) chunks,
          some (
              chunk_event id payload (offset % u32_mod) (
                take
                  (min (offset + transfer_chunk_bytes) (length (payload_bytes payload)) - offset)
                  (drop offset (payload_bytes payload)))),
        )
    unfolding next_event
    next_slice offset h = ground arith

    receive_slice :
        (offset end last now : ℕ)
        → offset < end
        → end ≤ length (payload_bytes payload)
        → end ≤ offset + transfer_chunk_bytes
        → handle lib
            (some (receiving offset last))
            (chunk_event id payload
              (offset % u32_mod)
              (take (end - offset) (drop offset (payload_bytes payload))))
            limits
            now
          ≡ (some (receiving end now), ok none)
    receive_slice offset end last now lo hi small =
        let slice = take (end - offset) (drop offset (payload_bytes payload)) in
        let held : length (take offset (payload_bytes payload)) ≡ offset =
          omega (arith, length-take offset (payload_bytes payload)) in
        let size : length slice ≡ end - offset = omega (
          arith,
          length-take (end - offset) (drop offset (payload_bytes payload)),
          length-drop offset (payload_bytes payload),
        ) in
        handle-chunk (some (receiving offset last)) payload id (offset % u32_mod) slice now
        ∙ chunk_ok (receiving offset last) (is_text payload) offset slice now same_kind held
            (is_empty_of_pos slice (omega arith)) (omega arith) (omega arith)
        ∙ ap (λ bytes. (some (record (receiving offset now) { bytes = bytes }), ok none))
            (take-append-slice offset end (payload_bytes payload) (omega arith))

    pub transfer_chunks :
        (fuel offset last : ℕ)
        → offset ≤ length (payload_bytes payload)
        → length (payload_bytes payload) - offset + 32768 ≤ fuel * transfer_chunk_bytes
        → transfer lib limits clock fuel (sending offset chunks) (some (receiving offset last)) none
          ≡ some (sending (length (payload_bytes payload)) done, none, ok (some item))
    transfer_chunks zero offset last h enough = absurd (omega arith)
    transfer_chunks (suc zero) offset last h enough = absurd (omega arith)
    transfer_chunks (suc (suc fuel)) offset last h enough =
        elim (Bool-cases (leb (length (payload_bytes payload)) offset)) [
          | inl past ↦
              let at_end : offset ≡ length (payload_bytes payload) = ground arith in
              rw at_end (transfer_end fuel last)
          | inr more ↦
              let end = min (offset + transfer_chunk_bytes) (length (payload_bytes payload)) in
              let before : offset < length (payload_bytes payload) = ground arith in
              transfer_step (suc fuel) (sending offset chunks) (some (receiving offset last)) none
                (next_slice offset before)
                (receive_slice offset end last (clock (suc fuel)) (omega arith) (omega arith)
                  (omega arith))
              ∙ transfer_chunks (suc fuel) end (clock (suc fuel)) (omega arith) (omega arith)
        ]
