-- ===== src/Notification/Session/Sizes.antt =====
-- The size of what a session holds, counted over the texts and icons of the records themselves.
use mouse_without_borders.Base.{
  ℕ, ◌+◌, ltb, String, ◌≡◌, Option, none, some, List, [], ◌∷◌, ◌++◌, length, Result, ok, err, arith,
  Bool-cases, inl, inr,
}
use mouse_without_borders.Base.Texts.{codes, byte_len}
use mouse_without_borders.Protocol.Phone.{
  SharedNotification, NotificationRecord, NotificationSync, submit, ack, snapshot_start, entry,
  snapshot_end, settings,
}
use mouse_without_borders.Notification.Validation.{HubError}
use mouse_without_borders.Notification.Store.{max_records}
use mouse_without_borders.Notification.Session.{
  SessionLink, IncomingSnapshot, IncomingNotification, incoming_event, incoming_snapshot,
  record_bytes, reserve, release, drop_request, send, begin_snapshot, push_record, add_record,
  end_snapshot, send_event, enqueue, take_request, finish_request,
}

-- The texts of a content, and the bytes of its icon.
abbrev pub content_texts : Option SharedNotification → List String
content_texts none = []
content_texts (some c) = c.app_name ∷ (c.title ∷ (c.body ∷ (c.icon ∷ [])))

abbrev pub png_of : Option (List ℕ) → List ℕ
png_of none = []
png_of (some png) = png

abbrev pub content_png : Option SharedNotification → List ℕ
content_png none = []
content_png (some c) = png_of c.icon_png

unfoldable pub texts_size : List String → ℕ
texts_size [] = 0
texts_size (t ∷ ts) = byte_len (codes t) + texts_size ts

-- Every text in UTF-8, the icon, and 256 for the rest.
unfoldable pub record_size : NotificationRecord → ℕ
unfolding texts_size
record_size r =
    256
    + texts_size (r.key.origin ∷ (r.key.instance_id ∷ content_texts r.content))
    + length (content_png r.content)

unfoldable pub records_size : List NotificationRecord → ℕ
records_size [] = 0
records_size (r ∷ rs) = record_size r + records_size rs

record_bytes-record_size : (r : NotificationRecord) → record_bytes r ≡ record_size r
unfolding record_bytes record_size texts_size
record_bytes-record_size r = ground arith

records_size-append :
    (rs : List NotificationRecord) (r : NotificationRecord)
    → records_size (rs ++ r ∷ []) ≡ records_size rs + record_size r
unfolding records_size
records_size-append [] r = omega arith
records_size-append (x ∷ xs) r = omega (arith, records_size-append xs r)

-- The budget of a snapshot is the size of its records.
abbrev pub IsMeasuredSnapshot : Option IncomingSnapshot → Type 0
IsMeasuredSnapshot none = Unit {0}
IsMeasuredSnapshot (some i) = i.bytes ≡ records_size i.records

abbrev pub IsMeasuredRequest : IncomingNotification → Type 0
IsMeasuredRequest (incoming_event e) = Unit {0}
IsMeasuredRequest (incoming_snapshot i) = i.bytes ≡ records_size i.records

abbrev pub AreMeasured : List IncomingNotification → Type 0
AreMeasured [] = Unit {0}
AreMeasured (r ∷ rs) = IsMeasuredRequest r × AreMeasured rs

abbrev pub IsMeasuredWork : Option IncomingNotification → Type 0
IsMeasuredWork none = Unit {0}
IsMeasuredWork (some r) = IsMeasuredRequest r

pub record IsMeasured (s : SessionLink) : Type 0 where
  pub measured_staged : IsMeasuredSnapshot s.staged
  pub measured_queue : AreMeasured s.incoming
  pub measured_work : IsMeasuredWork s.working

AreMeasured-append :
    (rs : List IncomingNotification) (r : IncomingNotification)
    → AreMeasured rs
    → IsMeasuredRequest r
    → AreMeasured (rs ++ r ∷ [])
AreMeasured-append [] r a m = (m, tt)
AreMeasured-append (x ∷ xs) r a m = (a.0, AreMeasured-append xs r a.1 m)

-- The worker holds what it held, and the queue grows by a measured request at most.
send-IsMeasured :
    (s : SessionLink) (r : IncomingNotification)
    → IsMeasured s
    → IsMeasuredRequest r
    → IsMeasured (send s r).0
unfolding send drop_request release
send-IsMeasured s (incoming_event e) a m =
    ground (arith, a, AreMeasured-append s.incoming (incoming_event e) a.measured_queue m)
send-IsMeasured s (incoming_snapshot i) a m =
    ground (arith, a, AreMeasured-append s.incoming (incoming_snapshot i) a.measured_queue m)

begin_snapshot-IsMeasured :
    (s : SessionLink) (epoch : String) (st : Option IncomingSnapshot)
    → IsMeasured s
    → IsMeasured (begin_snapshot s epoch st).0
unfolding begin_snapshot records_size
begin_snapshot-IsMeasured s epoch (some i) a = a
begin_snapshot-IsMeasured s epoch none a = ground (arith, a)

-- A record that is kept adds its size to the budget.
push_record-IsMeasured :
    (s : SessionLink) (r : NotificationRecord) (i : IncomingSnapshot) (q : Result HubError ℕ)
    → i.bytes ≡ records_size i.records
    → IsMeasured s
    → IsMeasured (push_record s r i q).0
unfolding push_record
push_record-IsMeasured s r i (err x) m a = a
push_record-IsMeasured s r i (ok total) m a = record {
  measured_staged = ground (arith, m, records_size-append i.records r, record_bytes-record_size r);
  measured_queue = a.measured_queue;
  measured_work = a.measured_work;
}

add_record-IsMeasured :
    (s : SessionLink) (r : NotificationRecord) (st : Option IncomingSnapshot)
    → IsMeasuredSnapshot st
    → IsMeasured s
    → IsMeasured (add_record s r st).0
unfolding add_record
add_record-IsMeasured s r none m a = a
add_record-IsMeasured s r (some i) m a = elim (Bool-cases (ltb (length i.records) max_records)) [
  | inl k ↦ rw k (push_record-IsMeasured s r i (reserve s.buffered_bytes (record_bytes r)) m a)
  | inr k ↦ rw k a
]

end_snapshot-IsMeasured :
    (s : SessionLink) (st : Option IncomingSnapshot)
    → IsMeasuredSnapshot st
    → IsMeasured s
    → IsMeasured (end_snapshot s st).0
unfolding end_snapshot
end_snapshot-IsMeasured s none m a = a
end_snapshot-IsMeasured s (some i) m a =
    send-IsMeasured (record s { staged = none }) (incoming_snapshot i)
      (record {
        measured_staged = tt;
        measured_queue = a.measured_queue;
        measured_work = a.measured_work;
      })
      m

send_event-IsMeasured :
    (s : SessionLink) (event : NotificationSync) (st : Option IncomingSnapshot)
    → IsMeasured s
    → IsMeasured (send_event s event st).0
unfolding send_event
send_event-IsMeasured s event (some i) a = a
send_event-IsMeasured s event none a = send-IsMeasured s (incoming_event event) a tt

pub enqueue-IsMeasured :
    (s : SessionLink) (event : NotificationSync) → IsMeasured s → IsMeasured (enqueue s event).0
unfolding enqueue
enqueue-IsMeasured s (snapshot_start epoch) a = begin_snapshot-IsMeasured s epoch s.staged a
enqueue-IsMeasured s (entry r) a = add_record-IsMeasured s r s.staged a.measured_staged a
enqueue-IsMeasured s snapshot_end a = end_snapshot-IsMeasured s s.staged a.measured_staged a
enqueue-IsMeasured s (submit op) a = send_event-IsMeasured s (submit op) s.staged a
enqueue-IsMeasured s (ack n) a = send_event-IsMeasured s (ack n) s.staged a
enqueue-IsMeasured s (settings c) a = send_event-IsMeasured s (settings c) s.staged a

pub take_request-IsMeasured : (s : SessionLink) → IsMeasured s → IsMeasured (take_request s)
unfolding take_request
take_request-IsMeasured s a =
    ground (arith, a.measured_queue, a.measured_staged, a.measured_work, a)

pub finish_request-IsMeasured : (s : SessionLink) → IsMeasured s → IsMeasured (finish_request s)
unfolding finish_request drop_request release
finish_request-IsMeasured s a = ground (arith, a.measured_queue, a.measured_staged, a)
