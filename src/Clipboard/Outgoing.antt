-- ===== src/Clipboard/Outgoing.antt =====
-- The sending side of a chunked transfer (crates/edge-clipboard/src/lib.rs:
-- `OutgoingClipboardTransfer`). The integers on the wire are truncated by `as u32`.
use mouse_without_borders.Base.{
  ℕ, ◌+◌, ◌-◌, ◌%◌, min, leb, Bool, true, false, Option, none, some, List, String, length, take,
  drop, if◌then◌else◌,
}
use mouse_without_borders.Base.Bytes.{u32_mod}
use mouse_without_borders.Protocol.Clipboard.{
  ClipboardEvent, ClipboardCancelReason, image_start, image_chunk, image_end, image_cancel,
  text_start, text_chunk, text_end,
}
use mouse_without_borders.Clipboard.Image.{
  Libraries, CanonicalImage, hash_bytes, transfer_chunk_bytes,
}

pub data OutgoingPayload : Type 0 where
  image_payload : CanonicalImage → OutgoingPayload
  -- bytes, content_sha256
  text_payload : List ℕ → List ℕ → OutgoingPayload

abbrev pub payload_bytes : OutgoingPayload → List ℕ
payload_bytes (image_payload i) = i.png_bytes
payload_bytes (text_payload bytes sha) = bytes

pub data OutgoingStage : Type 0 where
  starting chunks ending done : OutgoingStage

pub record OutgoingTransfer : Type 0 where
  pub transfer_id : ℕ  -- u64
  pub sequence : ℕ  -- u64
  pub payload : OutgoingPayload
  pub offset : ℕ  -- usize
  pub stage : OutgoingStage

unfoldable pub with_payload : ℕ → ℕ → OutgoingPayload → OutgoingTransfer
with_payload transfer_id sequence payload = record {
  transfer_id = transfer_id;
  sequence = sequence;
  payload = payload;
  offset = 0;
  stage = starting;
}

unfoldable pub image_transfer : ℕ → ℕ → CanonicalImage → OutgoingTransfer
unfolding with_payload
image_transfer transfer_id sequence i = with_payload transfer_id sequence (image_payload i)

unfoldable pub text_transfer : Libraries → ℕ → ℕ → String → OutgoingTransfer
unfolding with_payload
text_transfer lib transfer_id sequence text =
    let bytes = lib.into_bytes text in
    with_payload transfer_id sequence (text_payload bytes (hash_bytes lib bytes))

abbrev pub is_text : OutgoingPayload → Bool
is_text (image_payload i) = false
is_text (text_payload bytes sha) = true

abbrev pub is_done_stage : OutgoingStage → Bool
is_done_stage done = true
is_done_stage _ = false

unfoldable pub is_done : OutgoingTransfer → Bool
is_done t = is_done_stage t.stage

unfoldable pub cancel_event : OutgoingTransfer → ClipboardCancelReason → ClipboardEvent
cancel_event t reason = image_cancel t.transfer_id reason

-- The events of the three stages.
abbrev pub start_event : OutgoingTransfer → OutgoingPayload → ClipboardEvent
start_event t (image_payload i) =
    image_start t.transfer_id t.sequence i.width i.height (length i.png_bytes % u32_mod)
      i.content_sha256
start_event t (text_payload bytes sha) =
    text_start t.transfer_id t.sequence (length bytes % u32_mod) sha

abbrev pub chunk_event : ℕ → OutgoingPayload → ℕ → List ℕ → ClipboardEvent
chunk_event id (image_payload i) offset bytes = image_chunk id offset bytes
chunk_event id (text_payload all sha) offset bytes = text_chunk id offset bytes

abbrev pub end_event : ℕ → OutgoingPayload → ClipboardEvent
end_event id (image_payload i) = image_end id
end_event id (text_payload bytes sha) = text_end id

unfoldable pub next_end : OutgoingTransfer → OutgoingTransfer × Option ClipboardEvent
next_end t = (record t { stage = done }, some (end_event t.transfer_id t.payload))

-- With nothing left, the stage becomes `End` and `next_event` calls itself.
unfoldable pub next_chunk : OutgoingTransfer → OutgoingTransfer × Option ClipboardEvent
unfolding next_end
next_chunk t =
    let payload = payload_bytes t.payload in
    if leb (length payload) t.offset
    then next_end (record t { stage = ending })
    else let end = min (t.offset + transfer_chunk_bytes) (length payload) in
      let bytes = take (end - t.offset) (drop t.offset payload) in
      (
        record t { offset = end },
        some (chunk_event t.transfer_id t.payload (t.offset % u32_mod) bytes),
      )

unfoldable pub next_start : OutgoingTransfer → OutgoingTransfer × Option ClipboardEvent
next_start t = (record t { stage = chunks }, some (start_event t t.payload))

at_stage : OutgoingStage → OutgoingTransfer → OutgoingTransfer × Option ClipboardEvent
unfolding next_start next_chunk next_end
at_stage starting t = next_start t
at_stage chunks t = next_chunk t
at_stage ending t = next_end t
at_stage done t = (t, none)

unfoldable pub next_event : OutgoingTransfer → OutgoingTransfer × Option ClipboardEvent
unfolding at_stage
next_event t = at_stage t.stage t
