-- ===== src/Notification/Session.antt =====
-- The front of a session (apps/edge-receiver-linux/src/notification_hub.rs: `ByteBudget`,
-- `SessionLink`, `receive`): it collects a snapshot in bounded memory and hands whole requests to
-- the worker's queue of 32, which is part of the state, as is whether the worker still runs.
pub mod Budget
pub mod Sizes
pub mod Counter
pub mod Delivery
use mouse_without_borders.Base.{
  ℕ, ◌+◌, ◌-◌, ◌%◌, leb, ltb, String, ◌==◌, Bool, Option, none, some, is_some, List, [], ◌∷◌, ◌++◌,
  length, if◌then◌else◌, not, Result, ok, err, ◌>>=◌, ok_or,
}
use mouse_without_borders.Base.Bytes.{u64_mod, checked_u64}
use mouse_without_borders.Base.Texts.{codes, byte_len}
use mouse_without_borders.Protocol.Phone.{
  NotificationKey, SharedNotification, NotificationRecord, NotificationSync, submit, ack,
  snapshot_start, entry, snapshot_end, settings,
}
use mouse_without_borders.Notification.Validation.{
  HubError, nested_snapshot, invalid_epoch, record_outside_snapshot, snapshot_too_large,
  buffer_full, end_without_start, control_interrupted_snapshot, worker_queue_full, worker_stopped,
  ensure,
}
use mouse_without_borders.Notification.Store.{Store, max_records}
use mouse_without_borders.Notification.Hub.{Hub, record_error}
use mouse_without_borders.Notification.Link.{NotificationLink, Received, receive, receive_snapshot}

abbrev pub max_store_bytes : ℕ
max_store_bytes = 33554432

abbrev pub queue_capacity : ℕ
queue_capacity = 32

pub record IncomingSnapshot : Type 0 where
  pub epoch : String
  pub records : List NotificationRecord
  pub bytes : ℕ  -- `budget.bytes`

pub data IncomingNotification : Type 0 where
  incoming_event : NotificationSync → IncomingNotification
  incoming_snapshot : IncomingSnapshot → IncomingNotification

pub record SessionLink : Type 0 where
  pub incoming : List IncomingNotification
  pub working : Option IncomingNotification  -- the request that the worker has in hand
  pub is_open : Bool
  pub staged : Option IncomingSnapshot
  pub buffered_bytes : ℕ

-- `ByteBudget::reserve`: the new total.
unfoldable pub reserve : ℕ → ℕ → Result HubError ℕ
reserve used bytes = do
  total ← ok_or (checked_u64 (used + bytes)) buffer_full
  if leb total max_store_bytes then ok total else err buffer_full

-- The drop of a `ByteBudget`.
unfoldable pub release : ℕ → SessionLink → SessionLink
release bytes s = record s { buffered_bytes = (s.buffered_bytes + (u64_mod - bytes)) % u64_mod }

-- `icon_png.as_ref().map_or(0, Vec::len)`.
abbrev pub icon_bytes : Option (List ℕ) → ℕ
icon_bytes none = 0
icon_bytes (some png) = length png

abbrev pub content_bytes : Option SharedNotification → ℕ
content_bytes none = 0
content_bytes (some c) =
    byte_len (codes c.app_name)
    + byte_len (codes c.title)
    + byte_len (codes c.body)
    + byte_len (codes c.icon)
    + icon_bytes c.icon_png

unfoldable pub record_bytes : NotificationRecord → ℕ
record_bytes r =
    byte_len (codes r.key.origin)
    + byte_len (codes r.key.instance_id)
    + 256
    + content_bytes r.content

-- A request that is refused is dropped, and its budget with it.
unfoldable pub drop_request : IncomingNotification → SessionLink → SessionLink
unfolding release
drop_request (incoming_event e) s = s
drop_request (incoming_snapshot i) s = release i.bytes s

abbrev pub Enqueued : Type 0
Enqueued = SessionLink × Result HubError (Unit {0})

-- `try_send`.
unfoldable pub send : SessionLink → IncomingNotification → Enqueued
unfolding drop_request
send s request =
    if not s.is_open
    then (drop_request request s, err worker_stopped)
    else if ltb (length s.incoming) queue_capacity
    then (record s { incoming = s.incoming ++ request ∷ [] }, ok tt)
    else (drop_request request s, err worker_queue_full)

unfoldable pub begin_snapshot : SessionLink → String → Option IncomingSnapshot → Enqueued
begin_snapshot s epoch (some i) = (s, err nested_snapshot)
begin_snapshot s epoch none =
    if byte_len (codes epoch) == 32
    then (record s { staged = some (record { epoch = epoch; records = []; bytes = 0 }) }, ok tt)
    else (s, err invalid_epoch)

-- What a reserved record becomes.
unfoldable pub push_record :
    SessionLink → NotificationRecord → IncomingSnapshot → Result HubError ℕ → Enqueued
push_record s r i (err e) = (s, err e)
push_record s r i (ok total) = (
  record s {
    buffered_bytes = total;
    staged = some (record i { records = i.records ++ r ∷ []; bytes = i.bytes + record_bytes r });
  },
  ok tt,
)

unfoldable pub add_record : SessionLink → NotificationRecord → Option IncomingSnapshot → Enqueued
unfolding push_record reserve
add_record s r none = (s, err record_outside_snapshot)
add_record s r (some i) =
    if ltb (length i.records) max_records
    then push_record s r i (reserve s.buffered_bytes (record_bytes r))
    else (s, err snapshot_too_large)

unfoldable pub end_snapshot : SessionLink → Option IncomingSnapshot → Enqueued
unfolding send
end_snapshot s none = (s, err end_without_start)
end_snapshot s (some i) = send (record s { staged = none }) (incoming_snapshot i)

unfoldable pub send_event : SessionLink → NotificationSync → Option IncomingSnapshot → Enqueued
unfolding send
send_event s e (some i) = (s, err control_interrupted_snapshot)
send_event s e none = send s (incoming_event e)

unfoldable pub enqueue : SessionLink → NotificationSync → Enqueued
unfolding begin_snapshot add_record end_snapshot send_event
enqueue s (snapshot_start epoch) = begin_snapshot s epoch s.staged
enqueue s (entry r) = add_record s r s.staged
enqueue s snapshot_end = end_snapshot s s.staged
enqueue s (submit op) = send_event s (submit op) s.staged
enqueue s (ack n) = send_event s (ack n) s.staged
enqueue s (settings c) = send_event s (settings c) s.staged

-- The free function `receive`: a failure ends the session's notifications and stays in the status.
unfoldable pub receive_from_peer :
    Hub → Option SessionLink → NotificationSync → Hub × Option SessionLink
unfolding enqueue record_error
receive_from_peer h none e = (h, none)
receive_from_peer h (some s) e = elim (enqueue s e).1 [
  | ok _ ↦ (h, some (enqueue s e).0)
  | err x ↦ (record_error h x, none)
]

-- The worker's answer to a request.
unfoldable pub work : (Store → Bool) → Hub → NotificationLink → IncomingNotification → Received
unfolding receive receive_snapshot
work writes h l (incoming_event e) = receive writes h l e
work writes h l (incoming_snapshot i) = receive_snapshot writes h l i.epoch i.records

-- The worker takes the first request once it has none in hand.
unfoldable pub take_request : SessionLink → SessionLink
take_request s = elim s.working [
  | some request ↦ s
  | none ↦ elim s.incoming [
    | [] ↦ s
    | request ∷ rest ↦ record s { incoming = rest; working = some request }
  ]
]

-- The request in hand is done with, and its budget goes.
unfoldable pub finish_request : SessionLink → SessionLink
unfolding drop_request
finish_request s = elim s.working [
  | none ↦ s
  | some request ↦ drop_request request (record s { working = none })
]
