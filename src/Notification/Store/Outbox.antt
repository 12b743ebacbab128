-- ===== src/Notification/Store/Outbox.antt =====
-- A change made on this PC: what `queue_local` keeps, and what is seen of it.
use mouse_without_borders.Base.{
  ◌+◌, ◌<◌, ◌≡◌, refl, subst, sym, Bool, true, false, Option, none, some, [], ◌∷◌, ◌++◌, length,
  length-append, arith, Result, ok, err,
}
use mouse_without_borders.Protocol.Phone.{
  NotificationKey, SharedNotification, NotificationOperation,
}
use mouse_without_borders.Notification.Validation.{HubError, validate_key}
use mouse_without_borders.Notification.Store.{
  Store, apply, validate_local, find_record, retain_other, queue_local, max_records, max_pending,
  is_settled, view,
}
use mouse_without_borders.Notification.Store.Invariant.{
  IsValid, apply-IsValid, retain_other-IsDistinct, retain_other-gone, append-IsDistinct,
  retain_other-IsRising, append-IsRising, IsRising-mono,
}

-- The operation that `queue_local` makes, and the store of a replica that keeps it.
abbrev pub next_operation :
    Store → NotificationKey → Option SharedNotification → NotificationOperation
next_operation s key content = record { sequence = s.sequence + 1; key = key; content = content }

abbrev pub with_pending : Store → NotificationKey → Option SharedNotification → Store
with_pending s key content = record s {
  sequence = s.sequence + 1;
  pending = retain_other key s.pending ++ next_operation s key content ∷ [];
}

-- What it means that a replica queued an operation.
pub record IsQueued (s s' : Store) (key : NotificationKey) (content : Option SharedNotification)
    : Type 0 where
  pub made : s' ≡ with_pending s key content
  pub few : length (retain_other key s.pending) < max_pending
  pub room : length s.records + length (retain_other key s.pending) < max_records
  pub key_ok : validate_key key ≡ ok tt
  pub local_ok : validate_local s (next_operation s key content) content ≡ ok tt
  pub unsettled : is_settled content (find_record key (view s)) ≡ false

pub queue_local-IsQueued :
    (s s' : Store) (key : NotificationKey) (content : Option SharedNotification)
    → queue_local s key content false ≡ ok (s', true)
    → IsQueued s s' key content
unfolding queue_local
queue_local-IsQueued s s' key none h = record {
  made = ground arith;
  few = ground arith;
  room = ground arith;
  key_ok = ground arith;
  local_ok = ground arith;
  unsettled = ground arith;
}
queue_local-IsQueued s s' key (some c) h = record {
  made = ground arith;
  few = ground arith;
  room = ground arith;
  key_ok = ground arith;
  local_ok = ground arith;
  unsettled = ground arith;
}

with_pending-IsValid :
    (s : Store) (key : NotificationKey) (content : Option SharedNotification)
    → length (retain_other key s.pending) < max_pending
    → IsValid s
    → IsValid (with_pending s key content)
with_pending-IsValid s key content few v =
    let kept = retain_other key s.pending in
    let op = next_operation s key content in
    record {
      records_distinct = v.records_distinct;
      records_bounded = v.records_bounded;
      pending_distinct =
          append-IsDistinct kept op (retain_other-IsDistinct key s.pending v.pending_distinct)
            (retain_other-gone key s.pending);
      pending_bounded = omega (arith, length-append kept (op ∷ []), few);
      pending_rising =
          append-IsRising kept op 0 s.sequence (omega arith)
            (retain_other-IsRising key s.pending 0 s.sequence v.pending_rising) refl;
    }

-- The number is taken before the operation is applied.
unfoldable pub counted : Store → Store
counted s = record s { sequence = s.sequence + 1 }

counted-IsValid : (s : Store) → IsValid s → IsValid (counted s)
unfolding counted
counted-IsValid s v = record {
  records_distinct = v.records_distinct;
  records_bounded = v.records_bounded;
  pending_distinct = v.pending_distinct;
  pending_bounded = v.pending_bounded;
  pending_rising =
      IsRising-mono s.pending 0 0 s.sequence (s.sequence + 1) (omega arith) (omega arith)
        v.pending_rising;
}

pub queue_local-applies :
    (s s' : Store) (key : NotificationKey) (content : Option SharedNotification)
    → queue_local s key content true ≡ ok (s', true)
    → (changed : Bool) × (apply (counted s) s.local_identity (next_operation s key content)
        ≡ ok (s', changed))
unfolding queue_local counted
queue_local-applies s s' key none h =
    at (apply (record s { sequence = s.sequence + 1 }) s.local_identity (next_operation s key none))
      refl
  where
    at :
        (r : Result HubError (Store × Bool))
        → apply
            (record s { sequence = s.sequence + 1 })
            s.local_identity
            (next_operation s key none)
          ≡ r
        → (changed : Bool) × (apply
              (record s { sequence = s.sequence + 1 })
              s.local_identity
              (next_operation s key none)
            ≡ ok (s', changed))
    at (ok (t, changed)) e = (changed, ground arith)
    at (err x) e = absurd (ground arith)
queue_local-applies s s' key (some c) h =
    at
      (apply (record s { sequence = s.sequence + 1 }) s.local_identity
        (next_operation s key (some c)))
      refl
  where
    at :
        (r : Result HubError (Store × Bool))
        → apply
            (record s { sequence = s.sequence + 1 })
            s.local_identity
            (next_operation s key (some c))
          ≡ r
        → (changed : Bool) × (apply
              (record s { sequence = s.sequence + 1 })
              s.local_identity
              (next_operation s key (some c))
            ≡ ok (s', changed))
    at (ok (t, changed)) e = (changed, ground arith)
    at (err x) e = absurd (ground arith)

queue_local_settled :
    (s s' : Store) (key : NotificationKey) (content : Option SharedNotification)
    (coordinator : Bool)
    → queue_local s key content coordinator ≡ ok (s', false)
    → s' ≡ s
unfolding queue_local
queue_local_settled s s' key none true h = ground arith
queue_local_settled s s' key none false h = ground arith
queue_local_settled s s' key (some c) true h = ground arith
queue_local_settled s s' key (some c) false h = ground arith

-- A local change keeps the history valid, on a coordinator and on a replica, whether or not it is
-- one: keys stay distinct, the outbox holds rising numbers up to the counter, and the capacities hold.
pub queue_local-IsValid :
    (s s' : Store) (key : NotificationKey) (content : Option SharedNotification)
    (coordinator changed : Bool)
    → queue_local s key content coordinator ≡ ok (s', changed)
    → IsValid s
    → IsValid s'
queue_local-IsValid s s' key content coordinator false h v =
    subst IsValid (sym (queue_local_settled s s' key content coordinator h)) v
queue_local-IsValid s s' key content false true h v =
    let q = queue_local-IsQueued s s' key content h in
    subst IsValid (sym q.made) (with_pending-IsValid s key content q.few v)
queue_local-IsValid s s' key content true true h v =
    let (changed, e) = queue_local-applies s s' key content h in
    apply-IsValid (counted s) s' s.local_identity (next_operation s key content) changed e
      (counted-IsValid s v)
