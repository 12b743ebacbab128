-- ===== src/Notification/Session/Budget.antt =====
-- The memory that a session buffers, whatever the peer sends.
use mouse_without_borders.Base.{ℕ, ◌+◌, ◌≤◌, ◌≡◌, Option, none, some, List, [], ◌∷◌, arith}
use mouse_without_borders.Protocol.Phone.{NotificationSync}
use mouse_without_borders.Notification.Session.{
  SessionLink, IncomingSnapshot, IncomingNotification, incoming_event, incoming_snapshot,
  max_store_bytes, enqueue, take_request, finish_request,
}
use mouse_without_borders.Notification.Session.Counter.{
  IsCounted, budget_bytes, queue_bytes, staged_bytes, working_bytes, enqueue-IsCounted,
  take_request-IsCounted, finish_request-IsCounted,
}
use mouse_without_borders.Notification.Session.Sizes.{
  records_size, IsMeasured, IsMeasuredSnapshot, IsMeasuredWork, AreMeasured, enqueue-IsMeasured,
  take_request-IsMeasured, finish_request-IsMeasured,
}

-- The size of the records that the session holds: staged, in the queue, in the worker's hand.
abbrev pub request_size : IncomingNotification → ℕ
request_size (incoming_event e) = 0
request_size (incoming_snapshot i) = records_size i.records

unfoldable pub queue_size : List IncomingNotification → ℕ
queue_size [] = 0
queue_size (r ∷ rs) = request_size r + queue_size rs

abbrev pub staged_size : Option IncomingSnapshot → ℕ
staged_size none = 0
staged_size (some i) = records_size i.records

abbrev pub working_size : Option IncomingNotification → ℕ
working_size none = 0
working_size (some r) = request_size r

unfoldable pub held_size : SessionLink → ℕ
unfolding queue_size
held_size s = staged_size s.staged + queue_size s.incoming + working_size s.working

-- The counter is the size of the records that are held, within the limit, and every budget is the
-- size of the records it stands for.
pub record IsAccounted (s : SessionLink) : Type 0 where
  pub exact : s.buffered_bytes ≡ held_size s
  pub bounded : held_size s ≤ max_store_bytes
  pub measured : IsMeasured s

queue_bytes-queue_size :
    (rs : List IncomingNotification) → AreMeasured rs → queue_bytes rs ≡ queue_size rs
unfolding queue_bytes queue_size
queue_bytes-queue_size [] m = omega arith
queue_bytes-queue_size (incoming_event e ∷ rs) m = omega (arith, queue_bytes-queue_size rs m.1)
queue_bytes-queue_size (incoming_snapshot i ∷ rs) m =
    omega (arith, m.0, queue_bytes-queue_size rs m.1)

staged_bytes-staged_size :
    (st : Option IncomingSnapshot) → IsMeasuredSnapshot st → staged_bytes st ≡ staged_size st
staged_bytes-staged_size none m = omega arith
staged_bytes-staged_size (some i) m = m

working_bytes-working_size :
    (w : Option IncomingNotification) → IsMeasuredWork w → working_bytes w ≡ working_size w
working_bytes-working_size none m = omega arith
working_bytes-working_size (some (incoming_event e)) m = omega arith
working_bytes-working_size (some (incoming_snapshot i)) m = m

budget_bytes-held_size : (s : SessionLink) → IsMeasured s → budget_bytes s ≡ held_size s
unfolding budget_bytes held_size
budget_bytes-held_size s m = omega (
  arith,
  staged_bytes-staged_size s.staged m.measured_staged,
  queue_bytes-queue_size s.incoming m.measured_queue,
  working_bytes-working_size s.working m.measured_work,
)

IsAccounted-IsCounted : (s : SessionLink) → IsAccounted s → IsCounted s
IsAccounted-IsCounted s a = record {
  exact = omega (arith, a.exact, budget_bytes-held_size s a.measured);
  bounded = omega (arith, a.bounded, budget_bytes-held_size s a.measured);
}

IsCounted-IsAccounted : (s : SessionLink) → IsCounted s → IsMeasured s → IsAccounted s
IsCounted-IsAccounted s c m = record {
  exact = omega (arith, c.exact, budget_bytes-held_size s m);
  bounded = omega (arith, c.bounded, budget_bytes-held_size s m);
  measured = m;
}

-- What happens at the front of a session: an event of the peer, or the worker's two moves.
pub data Action : Type 0 where
  heard : NotificationSync → Action
  taken finished : Action

abbrev pub act : SessionLink → Action → SessionLink
act s (heard event) = (enqueue s event).0
act s taken = take_request s
act s finished = finish_request s

abbrev pub acts : SessionLink → List Action → SessionLink
acts s [] = s
acts s (x ∷ xs) = acts (act s x) xs

act-IsCounted : (s : SessionLink) (x : Action) → IsCounted s → IsCounted (act s x)
act-IsCounted s (heard event) c = enqueue-IsCounted s event c
act-IsCounted s taken c = take_request-IsCounted s c
act-IsCounted s finished c = finish_request-IsCounted s c

act-IsMeasured : (s : SessionLink) (x : Action) → IsMeasured s → IsMeasured (act s x)
act-IsMeasured s (heard event) m = enqueue-IsMeasured s event m
act-IsMeasured s taken m = take_request-IsMeasured s m
act-IsMeasured s finished m = finish_request-IsMeasured s m

act-IsAccounted : (s : SessionLink) (x : Action) → IsAccounted s → IsAccounted (act s x)
act-IsAccounted s x a =
    IsCounted-IsAccounted (act s x) (act-IsCounted s x (IsAccounted-IsCounted s a))
      (act-IsMeasured s x a.measured)

-- Whatever the peer sends, accepted or refused, and however the worker keeps up, the counter of
-- buffered bytes stays exactly the size of the records that the session holds in the staged
-- snapshot, in the queue and in the worker's hand, and that is at most 32 MiB, if it is so at the
-- start. A record's size is that of its texts in UTF-8 and of its icon, and 256 bytes more; each
-- snapshot's own budget stays the size of its records too.
pub acts-IsAccounted :
    (s : SessionLink) (xs : List Action) → IsAccounted s → IsAccounted (acts s xs)
acts-IsAccounted s [] a = a
acts-IsAccounted s (x ∷ xs) a = acts-IsAccounted (act s x) xs (act-IsAccounted s x a)
