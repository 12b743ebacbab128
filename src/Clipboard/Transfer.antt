-- ===== src/Clipboard/Transfer.antt =====
-- A whole transfer: every event that the sender produces is handled by the receiver, in order
-- (crates/edge-clipboard/src/lib.rs, `next_event` and `handle` driven as a session drives them).
pub mod Steps
pub mod RoundTrip
use mouse_without_borders.Base.{ℕ, zero, suc, Option, none, some, or_else, ok, err}
use mouse_without_borders.Clipboard.Image.{Libraries, ClipboardItem}
use mouse_without_borders.Clipboard.Outgoing.{OutgoingTransfer, next_event}
use mouse_without_borders.Clipboard.Incoming.{IncomingTransfer, TransferLimits, Reply, handle}

-- The two ends and the item received, or the receiver's first error.
abbrev pub Outcome : Libraries → Type 0
Outcome lib = OutgoingTransfer × IncomingTransfer × Reply lib

module _ (lib : Libraries) (limits : TransferLimits) (clock : ℕ → ℕ) where
  -- `none` means that the fuel ran out. An event is handled at the instant `clock fuel`.
  unfoldable pub transfer :
      ℕ → OutgoingTransfer → IncomingTransfer → Option ClipboardItem → Option (Outcome lib)
  transfer zero out incoming completed = none
  transfer (suc fuel) out incoming completed =
      let (out', event) = next_event out in
      elim event [
        | none ↦ some (out', incoming, ok completed)
        | some e ↦
            let (incoming', reply) = handle lib incoming e limits (clock fuel) in
            elim reply [
              | ok item ↦ transfer fuel out' incoming' (or_else item completed)
              | err error ↦ some (out', incoming', err error)
            ]
      ]
