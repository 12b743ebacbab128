-- ===== src/Notification/Session/Counter.antt =====
-- The counter of a session and the budgets of what it holds.
use mouse_without_borders.Base.{
  ℕ, ◌+◌, ◌≤◌, ltb, String, ◌≡◌, refl, Option, none, some, List, [], ◌∷◌, ◌++◌, length, Result, ok,
  err, arith, Bool-cases, inl, inr,
}
use mouse_without_borders.Protocol.Phone.{
  NotificationRecord, NotificationSync, submit, ack, snapshot_start, entry, snapshot_end, settings,
}
use mouse_without_borders.Notification.Validation.{HubError}
use mouse_without_borders.Notification.Store.{max_records}
use mouse_without_borders.Notification.Session.{
  SessionLink, IncomingSnapshot, IncomingNotification, incoming_event, incoming_snapshot,
  max_store_bytes, record_bytes, reserve, release, drop_request, send, begin_snapshot, push_record,
  add_record, end_snapshot, send_event, enqueue, take_request, finish_request,
}

-- The budgets of what the session holds.
abbrev pub request_bytes : IncomingNotification → ℕ
request_bytes (incoming_event e) = 0
request_bytes (incoming_snapshot i) = i.bytes

unfoldable pub queue_bytes : List IncomingNotification → ℕ
queue_bytes [] = 0
queue_bytes (r ∷ rs) = request_bytes r + queue_bytes rs

abbrev pub staged_bytes : Option IncomingSnapshot → ℕ
staged_bytes none = 0
staged_bytes (some i) = i.bytes

abbrev pub working_bytes : Option IncomingNotification → ℕ
working_bytes none = 0
working_bytes (some r) = request_bytes r

unfoldable pub budget_bytes : SessionLink → ℕ
unfolding queue_bytes
budget_bytes s = staged_bytes s.staged + queue_bytes s.incoming + working_bytes s.working

-- The counter is the sum of the budgets, and within the limit.
pub record IsCounted (s : SessionLink) : Type 0 where
  pub exact : s.buffered_bytes ≡ budget_bytes s
  pub bounded : budget_bytes s ≤ max_store_bytes

queue_bytes-append :
    (rs : List IncomingNotification) (r : IncomingNotification)
    → queue_bytes (rs ++ r ∷ []) ≡ queue_bytes rs + request_bytes r
unfolding queue_bytes
queue_bytes-append [] r = omega arith
queue_bytes-append (x ∷ xs) r = omega (arith, queue_bytes-append xs r)

-- A request that waits is held, one that is refused is not.
send-IsCounted :
    (s : SessionLink) (r : IncomingNotification)
    → s.buffered_bytes ≡ budget_bytes s + request_bytes r
    → budget_bytes s + request_bytes r ≤ max_store_bytes
    → IsCounted (send s r).0
unfolding send drop_request release budget_bytes
send-IsCounted s (incoming_event e) x b = record {
  exact = ground (arith, queue_bytes-append s.incoming (incoming_event e));
  bounded = ground (arith, queue_bytes-append s.incoming (incoming_event e));
}
send-IsCounted s (incoming_snapshot i) x b = record {
  exact = ground (arith, queue_bytes-append s.incoming (incoming_snapshot i));
  bounded = ground (arith, queue_bytes-append s.incoming (incoming_snapshot i));
}

begin_snapshot-IsCounted :
    (s : SessionLink) (epoch : String) (st : Option IncomingSnapshot)
    → s.staged ≡ st
    → IsCounted s
    → IsCounted (begin_snapshot s epoch st).0
unfolding begin_snapshot budget_bytes
begin_snapshot-IsCounted s epoch (some i) e a = a
begin_snapshot-IsCounted s epoch none e a = record {
  exact = ground (arith, a.exact);
  bounded = ground (arith, a.bounded);
}

reserve-total :
    (used bytes total : ℕ)
    → reserve used bytes ≡ ok total
    → (total ≡ used + bytes) × (total ≤ max_store_bytes)
unfolding reserve
reserve-total used bytes total h = (ground arith, ground arith)

push_record-IsCounted :
    (s : SessionLink) (r : NotificationRecord) (i : IncomingSnapshot) (q : Result HubError ℕ)
    → reserve s.buffered_bytes (record_bytes r) ≡ q
    → s.staged ≡ some i
    → IsCounted s
    → IsCounted (push_record s r i q).0
unfolding push_record budget_bytes
push_record-IsCounted s r i (err x) q e a = a
push_record-IsCounted s r i (ok total) q e a =
    let t = reserve-total s.buffered_bytes (record_bytes r) total q in
    record { exact = ground (arith, a.exact, t); bounded = ground (arith, a.exact, t) }

add_record-IsCounted :
    (s : SessionLink) (r : NotificationRecord) (st : Option IncomingSnapshot)
    → s.staged ≡ st
    → IsCounted s
    → IsCounted (add_record s r st).0
unfolding add_record
add_record-IsCounted s r none e a = a
add_record-IsCounted s r (some i) e a = elim (Bool-cases (ltb (length i.records) max_records)) [
  | inl k ↦ rw k (push_record-IsCounted s r i (reserve s.buffered_bytes (record_bytes r)) refl e a)
  | inr k ↦ rw k a
]

end_snapshot-IsCounted :
    (s : SessionLink) (st : Option IncomingSnapshot)
    → s.staged ≡ st
    → IsCounted s
    → IsCounted (end_snapshot s st).0
unfolding end_snapshot budget_bytes
end_snapshot-IsCounted s none e a = a
end_snapshot-IsCounted s (some i) e a =
    send-IsCounted (record s { staged = none }) (incoming_snapshot i) (ground (arith, a.exact))
      (ground (arith, a.bounded))

send_event-IsCounted :
    (s : SessionLink) (event : NotificationSync) (st : Option IncomingSnapshot)
    → IsCounted s
    → IsCounted (send_event s event st).0
unfolding send_event
send_event-IsCounted s event (some i) a = a
send_event-IsCounted s event none a =
    send-IsCounted s (incoming_event event) (omega (arith, a.exact)) (omega (arith, a.bounded))

pub enqueue-IsCounted :
    (s : SessionLink) (event : NotificationSync) → IsCounted s → IsCounted (enqueue s event).0
unfolding enqueue
enqueue-IsCounted s (snapshot_start epoch) a = begin_snapshot-IsCounted s epoch s.staged refl a
enqueue-IsCounted s (entry r) a = add_record-IsCounted s r s.staged refl a
enqueue-IsCounted s snapshot_end a = end_snapshot-IsCounted s s.staged refl a
enqueue-IsCounted s (submit op) a = send_event-IsCounted s (submit op) s.staged a
enqueue-IsCounted s (ack n) a = send_event-IsCounted s (ack n) s.staged a
enqueue-IsCounted s (settings c) a = send_event-IsCounted s (settings c) s.staged a

pub take_request-IsCounted : (s : SessionLink) → IsCounted s → IsCounted (take_request s)
unfolding take_request budget_bytes queue_bytes
take_request-IsCounted s a = record {
  exact = ground (arith, a.exact);
  bounded = ground (arith, a.bounded);
}

pub finish_request-IsCounted : (s : SessionLink) → IsCounted s → IsCounted (finish_request s)
unfolding finish_request budget_bytes drop_request release
finish_request-IsCounted s a = at s.working refl
  where
    at : (w : Option IncomingNotification) → s.working ≡ w → IsCounted (finish_request s)
    at none e = record { exact = ground (arith, a.exact); bounded = ground (arith, a.bounded) }
    at (some (incoming_event x)) e = record {
      exact = ground (arith, a.exact);
      bounded = ground (arith, a.bounded);
    }
    at (some (incoming_snapshot i)) e = record {
      exact = ground (arith, a.exact, a.bounded);
      bounded = ground (arith, a.bounded);
    }
