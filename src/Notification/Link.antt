-- ===== src/Notification/Link.antt =====
-- One session's exchange with its peer (apps/edge-receiver-linux/src/notification_hub.rs:
-- `NotificationHub::link`, `NotificationLink`). Pacing is left out; `changed` of the watch channel
-- compares the generation seen last with the hub's.
pub mod Snapshot
pub mod Frame
pub mod Fields
pub mod Sending
pub mod Resending
pub mod Answer
pub mod Transition
use mouse_without_borders.Base.{
  ℕ, ◌+◌, ◌-◌, ◌%◌, ◌==◌, max, ltb, String, str_eq, Bool, true, false, ◌||◌, ◌&&◌, not, Option,
  none, some, is_some, List, [], ◌∷◌, ◌++◌, map, length, if◌then◌else◌, Result, ok, err, ◌>>=◌,
  ◌>>◌, ok_or,
}
use mouse_without_borders.Base.Bytes.{u64_mod}
use mouse_without_borders.Base.Texts.{codes, byte_len, all, is_ascii_hexdigit}
use mouse_without_borders.Protocol.Phone.{
  NotificationKey, SharedNotification, NotificationOperation, NotificationRecord, NotificationSync,
  submit, ack, snapshot_start, entry, snapshot_end, settings,
}
use mouse_without_borders.Notification.Equality.{records_eq}
use mouse_without_borders.Notification.Validation.{
  HubError, ensure, validate_key, validate_content, owner_differs, owner_not_confirmed,
  output_queue_full, invalid_epoch, coordinator_reset, nested_snapshot, record_outside_snapshot,
  snapshot_capacity, end_without_start, incorrect_authority,
}
use mouse_without_borders.Notification.Store.{Store, apply, find_record, max_records, max_pending}
use mouse_without_borders.Notification.Hub.{
  Hub, is_coordinator, enrolled, publish, clear_error, commit_store,
}

pub record NotificationLink : Type 0 where
  pub is_active : Bool  -- `_activity.is_some()`
  pub sent_through : ℕ  -- u64
  pub peer : String
  pub seen : Option ℕ  -- the generation that `changes` has seen; none after `mark_changed`
  pub outgoing : List NotificationSync
  pub staged : Option (String × List NotificationRecord)
  pub dirty : Bool

-- `NotificationHub::link`: the hub forgets its error, and the link opens with the owner's name.
unfoldable pub open_link : Hub → String → Bool → Hub × Option NotificationLink
unfolding enrolled is_coordinator clear_error
open_link h peer supported =
    if not supported
      || not (enrolled h peer)
      || not (is_coordinator h) && not (str_eq peer h.coordinator_fingerprint)
    then (h, none)
    else (
      clear_error h,
      some (record {
        is_active = false;
        sent_through = 0;
        peer = peer;
        seen = none;
        outgoing = settings h.coordinator_fingerprint ∷ [];
        staged = none;
        dirty = false;
      }),
    )

-- The drop of a link: `Activity` gives its count back (`fetch_sub` wraps).
unfoldable pub end_link : Hub → NotificationLink → Hub
end_link h l = if l.is_active then record h { links = (h.links + (u64_mod - 1)) % u64_mod } else h

-- The operations above `sent_through`, and the highest number in the outbox.
unfoldable pub submits : ℕ → List NotificationOperation → List NotificationSync
submits through [] = []
submits through (op ∷ ops) =
    let rest = submits through ops in if ltb through op.sequence then submit op ∷ rest else rest

unfoldable pub latest : ℕ → List NotificationOperation → ℕ
latest through [] = through
latest through (op ∷ ops) = max op.sequence (latest through ops)

unfoldable pub snapshot : Store → List NotificationSync
snapshot s = snapshot_start s.epoch ∷ (map entry s.records ++ snapshot_end ∷ [])

-- The end of the loop's body in `next`, under the lock of the history.
unfoldable pub fill : Hub → NotificationLink → NotificationLink
unfolding is_coordinator snapshot submits latest
fill h l =
    if is_coordinator h
    then record l { dirty = false; outgoing = l.outgoing ++ snapshot h.state }
    else record l {
      dirty = false;
      outgoing = l.outgoing ++ submits l.sent_through h.state.pending;
      sent_through = latest l.sent_through h.state.pending;
    }

abbrev pub is_seen : Option ℕ → ℕ → Bool
is_seen none generation = false
is_seen (some n) generation = n == generation

abbrev pub pop_event :
    List NotificationSync → NotificationLink → NotificationLink × Option NotificationSync
pop_event [] l = (l, none)
pop_event (e ∷ rest) l = (record l { outgoing = rest }, some e)

refill : Hub → NotificationLink → NotificationLink
unfolding fill
refill h l = if l.dirty then fill h l else fill h (record l { seen = some h.generation })

-- `next`: `none` means that it waits. After a refill that brings nothing the loop finds nothing
-- new either.
unfoldable pub next_event : Hub → NotificationLink → NotificationLink × Option NotificationSync
unfolding refill
next_event h l = elim l.outgoing [
  | e ∷ rest ↦ (record l { outgoing = rest }, some e)
  | [] ↦
      if not l.is_active || not l.dirty && is_seen l.seen h.generation
      then (l, none)
      else pop_event (refill h l).outgoing (refill h l)
]

abbrev pub Received : Type 0
Received = Hub × NotificationLink × Result HubError (Unit {0})

abbrev pub max_outgoing : ℕ
max_outgoing = 5124

unfoldable pub has_sequence : ℕ → List NotificationOperation → Bool
has_sequence n [] = false
has_sequence n (op ∷ ops) = op.sequence == n || has_sequence n ops

-- `pending.retain(|op| op.sequence != sequence)`.
unfoldable pub retain_sequence : ℕ → List NotificationOperation → List NotificationOperation
retain_sequence n [] = []
retain_sequence n (op ∷ ops) =
    let rest = retain_sequence n ops in if op.sequence == n then rest else op ∷ rest

unfoldable pub find_sequence : ℕ → List NotificationOperation → Option NotificationOperation
find_sequence n [] = none
find_sequence n (op ∷ ops) = if op.sequence == n then some op else find_sequence n ops

-- The next history after an `Ack`.
unfoldable pub acknowledged : Hub → ℕ → Option NotificationOperation → Result HubError Store
acknowledged h n none = ok (record (h.state) { pending = retain_sequence n h.state.pending })
acknowledged h n (some op) = do
  applied ← apply (record (h.state) { pending = retain_sequence n h.state.pending }) h.identity op
  ok applied.0

-- `epoch.len() == 32 && epoch.bytes().all(..)`.
abbrev pub is_epoch : String → Bool
is_epoch epoch = byte_len (codes epoch) == 32 && all is_ascii_hexdigit (codes epoch)

-- The three `ensure!` of `SnapshotStart`.
unfoldable pub check_start : Hub → NotificationLink → String → Result HubError (Unit {0})
check_start h l epoch = do
  ensure (is_epoch epoch) invalid_epoch
  ensure (str_eq h.state.epoch "" || str_eq h.state.epoch epoch) coordinator_reset
  ensure (not (is_some l.staged)) nested_snapshot

unfoldable pub receive_start : Hub → NotificationLink → String → Received
unfolding check_start
receive_start h l epoch = elim (check_start h l epoch) [
  | ok _ ↦ (h, record l { staged = some (epoch, []) }, ok tt)
  | err e ↦ (h, l, err e)
]

unfoldable pub validate_entry :
    NotificationRecord → Option SharedNotification → Result HubError (Unit {0})
validate_entry r none = validate_key r.key
validate_entry r (some content) = do validate_key r.key; validate_content content

stage :
    Hub
    → NotificationLink
    → NotificationRecord
    → Option (String × List NotificationRecord)
    → Received
stage h l r none = (h, l, err record_outside_snapshot)
stage h l r (some (epoch, rs)) =
    if ltb (length rs) max_records && not (is_some (find_record r.key rs))
    then (h, record l { staged = some (epoch, rs ++ r ∷ []) }, ok tt)
    else (h, l, err snapshot_capacity)

unfoldable pub receive_entry : Hub → NotificationLink → NotificationRecord → Received
unfolding validate_entry stage
receive_entry h l r = elim (validate_entry r r.content) [
  | ok _ ↦ stage h l r l.staged
  | err e ↦ (h, l, err e)
]

unfoldable pub receive_settings : Hub → NotificationLink → String → Received
receive_settings h l coordinator =
    if not (str_eq coordinator h.coordinator_fingerprint)
    then (h, l, err owner_differs)
    else if l.is_active
    then (h, l, ok tt)
    else (record h { links = (h.links + 1) % u64_mod }, record l { is_active = true }, ok tt)

-- The bounded queue of answers.
unfoldable pub push_ack : Hub → NotificationLink → ℕ → Received
push_ack h l n =
    if ltb (length l.outgoing) max_outgoing
    then (h, record l { outgoing = l.outgoing ++ ack n ∷ [] }, ok tt)
    else (h, l, err output_queue_full)

-- The answer once the history is written.
unfoldable pub answered : NotificationLink → ℕ → Hub × Result HubError (Unit {0}) → Received
unfolding push_ack
answered l n (h, ok _) = push_ack h l n
answered l n (h, err e) = (h, l, err e)

module _ (writes : Store → Bool) where
  unfoldable pub committed : NotificationLink → Hub × Result HubError (Unit {0}) → Received
  committed l (h, r) = (h, l, r)

  unfoldable pub receive_submit : Hub → NotificationLink → NotificationOperation → Received
  unfolding commit_store answered push_ack
  receive_submit h l op = elim (apply h.state l.peer op) [
    | err e ↦ (h, l, err e)
    | ok p ↦
        if p.1 then answered l op.sequence (commit_store writes h p.0) else push_ack h l op.sequence
  ]

  unfoldable pub receive_ack : Hub → NotificationLink → ℕ → Received
  unfolding has_sequence acknowledged commit_store committed
  receive_ack h l n =
      if not (has_sequence n h.state.pending)
      then (h, l, ok tt)
      else elim (acknowledged h n (find_sequence n h.state.pending)) [
        | err e ↦ (h, l, err e)
        | ok next ↦ committed l (commit_store writes h next)
      ]

  finish_snapshot : Hub → NotificationLink → Option (String × List NotificationRecord) → Received
  unfolding commit_store committed
  finish_snapshot h l none = (h, l, err end_without_start)
  finish_snapshot h l (some (epoch, rs)) =
      let l' = record l { staged = none } in
      if str_eq h.state.epoch epoch && records_eq h.state.records rs
      then (h, l', ok tt)
      else committed l' (commit_store writes h (record (h.state) { epoch = epoch; records = rs }))

  unfoldable pub receive_end : Hub → NotificationLink → Received
  unfolding finish_snapshot
  receive_end h l = finish_snapshot h l l.staged

  -- The match once the owner is confirmed: a coordinator takes submissions, a replica the rest.
  unfoldable pub receive_confirmed : Hub → NotificationLink → NotificationSync → Received
  unfolding is_coordinator receive_submit receive_ack receive_start receive_entry receive_end
  receive_confirmed h l (submit op) =
      if is_coordinator h then receive_submit h l op else (h, l, err incorrect_authority)
  receive_confirmed h l (ack n) =
      if is_coordinator h then (h, l, err incorrect_authority) else receive_ack h l n
  receive_confirmed h l (snapshot_start epoch) =
      if is_coordinator h then (h, l, err incorrect_authority) else receive_start h l epoch
  receive_confirmed h l (entry r) =
      if is_coordinator h then (h, l, err incorrect_authority) else receive_entry h l r
  receive_confirmed h l snapshot_end =
      if is_coordinator h then (h, l, err incorrect_authority) else receive_end h l
  receive_confirmed h l (settings coordinator) = (h, l, err incorrect_authority)

  -- Any event but the settings.
  unfoldable pub receive_other : Hub → NotificationLink → NotificationSync → Received
  unfolding receive_confirmed
  receive_other h l event =
      if l.is_active then receive_confirmed h l event else (h, l, err owner_not_confirmed)

  unfoldable pub receive : Hub → NotificationLink → NotificationSync → Received
  unfolding receive_settings receive_other
  receive h l (settings coordinator) = receive_settings h l coordinator
  receive h l event = receive_other h l event

  -- The worker hands the events of a snapshot over in order, and stops at the first failure.
  unfoldable pub receive_all : Hub → NotificationLink → List NotificationSync → Received
  unfolding receive
  receive_all h l [] = (h, l, ok tt)
  receive_all h l (event ∷ events) = elim (receive h l event).2 [
    | ok _ ↦ receive_all (receive h l event).0 (receive h l event).1 events
    | err e ↦ receive h l event
  ]

  unfoldable pub receive_snapshot :
      Hub → NotificationLink → String → List NotificationRecord → Received
  unfolding receive_all
  receive_snapshot h l epoch rs =
      receive_all h l (snapshot_start epoch ∷ (map entry rs ++ snapshot_end ∷ []))
