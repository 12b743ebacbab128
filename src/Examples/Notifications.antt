-- ===== src/Examples/Notifications.antt =====
-- Two PCs share notifications.
use mouse_without_borders.Base.{
  ◌≡◌, refl, true, false, Bool, String, none, some, List, [], ◌∷◌, ◌++◌, ok, if◌then◌else◌, arith,
  inl,
}
use mathlib.Core.List.{Permᴰ, Memᴰ}
use mouse_without_borders.Base.Texts.{byte_len, codes, split, all}
use mouse_without_borders.Notification.Validation.{validate_key, all_parts, validate_content}
use mouse_without_borders.Protocol.Phone.{
  NotificationKey, SharedNotification, NotificationOperation, NotificationRecord, submit, ack,
  entry, snapshot_start, snapshot_end,
}
use mouse_without_borders.Notification.Equality.{key_eq, option_content_eq}
use mouse_without_borders.Notification.Store.{
  Store, empty_store, apply, view, record_of, find_record, queue_local, update_record, is_settled,
  retain_other, find_pending,
}
use mouse_without_borders.Notification.Store.Register.{
  removed, slot_at, operation_slot, join, apply_joins,
}
use mouse_without_borders.Notification.Store.Convergence.{Delivery, deliver, AgreeOn, deliver-perm}
use mouse_without_borders.Notification.Store.View.{record_of-view}
use mouse_without_borders.Notification.Store.Invariant.{IsValid}
use mouse_without_borders.Notification.Store.Seen.{queue_local_seen}
use mouse_without_borders.Notification.Hub.{Hub, is_coordinator}
use mouse_without_borders.Notification.Link.{
  NotificationLink, receive, snapshot, validate_entry, next_event, fill, submits, latest,
  retain_sequence,
}
use mouse_without_borders.Notification.Link.Sending.{drain, settled_link, drain-snapshot}
use mouse_without_borders.Notification.Link.Resending.{drain_sent}
use mouse_without_borders.Notification.Link.Answer.{submit-answered}
use mouse_without_borders.Notification.Link.Snapshot.{with_snapshot}
use mouse_without_borders.Notification.Sessions.{received, done, then_step, AllLinks}
use mouse_without_borders.Notification.Sessions.Validity.{IsValidLink, Run-IsValid}
use mouse_without_borders.Notification.Sessions.Authority.{IsKeptOrRemoved, Run-IsKeptOrRemoved}
use mouse_without_borders.Notification.Sessions.Finality.{Run-HoldsRemoved}
use mouse_without_borders.Notification.Session.{SessionLink, record_bytes, incoming_snapshot, work}
use mouse_without_borders.Notification.Session.Budget.{
  IsAccounted, held_size, queue_size, heard, taken, acts, acts-IsAccounted,
}
use mouse_without_borders.Notification.Session.Delivery.{
  enqueue_all, records_bytes, snapshot_request, snapshot-delivered,
}

abbrev laptop : String
laptop = "aaaaaaaa:aaaaaaaa:aaaaaaaa:aaaaaaaa"

abbrev desktop : String
desktop = "bbbbbbbb:bbbbbbbb:bbbbbbbb:bbbbbbbb"

abbrev mail : NotificationKey
mail = record { origin = laptop; instance_id = "n1" }

abbrev letter : SharedNotification
letter = record {
  app_name = "Mail";
  title = "Hello";
  body = "Bye";
  icon = "mail";
  icon_png = none;
  posted_ms = 5;
  urgency = 1;
}

abbrev posted : NotificationOperation
posted = record { sequence = 1; key = mail; content = some letter }

abbrev dismissed : NotificationOperation
dismissed = record { sequence = 2; key = mail; content = none }

abbrev mail_record : NotificationRecord
mail_record = record { key = mail; source_sequence = 1; content = some letter }

abbrev epoch : String
epoch = "0123456789abcdef0123456789abcdef"

abbrev history : Store
history = record empty_store { epoch = epoch; local_identity = desktop; records = mail_record ∷ [] }

history-IsValid : IsValid history
unfolding find_record
history-IsValid = record {
  records_distinct = (refl, tt);
  records_bounded = omega arith;
  pending_distinct = tt;
  pending_bounded = omega arith;
  pending_rising = tt;
}

abbrev hub : Hub
hub = record {
  identity = desktop;
  coordinator_fingerprint = desktop;
  peers = laptop ∷ [];
  state = history;
  generation = 0;
  links = 1;
  error = none;
}

abbrev link : NotificationLink
link = record {
  is_active = true;
  sent_through = 0;
  peer = "cccccccc:cccccccc:cccccccc:cccccccc";
  seen = none;
  outgoing = [];
  staged = none;
  dirty = false;
}

abbrev disk : Store → Bool
disk s = true

-- The desktop takes the laptop's notification.
apply_joins_example : slot_at mail (record history { records = mail_record ∷ [] }) ≡ (
    if key_eq posted.key mail
    then join (slot_at mail (record history { records = [] })) (operation_slot posted)
    else slot_at mail (record history { records = [] }))
unfolding apply validate_key byte_len codes split all_parts all validate_content find_record
apply_joins_example =
    apply_joins (record history { records = [] }) history laptop posted true mail refl

-- Posting and dismissing, in either order.
abbrev deliveries : List Delivery
deliveries = (laptop, posted) ∷ ((desktop, dismissed) ∷ [])

abbrev late_post : List Delivery
late_post = (desktop, dismissed) ∷ ((laptop, posted) ∷ [])

abbrev no_letter : Store
no_letter = record history {
  records = record { key = mail; source_sequence = 1; content = none } ∷ [];
}

abbrev no_letter_late : Store
no_letter_late = record history {
  records = record { key = mail; source_sequence = 2; content = none } ∷ [];
}

deliveries-AgreeOn : AgreeOn deliveries
deliveries-AgreeOn x y (Memᴰ.head e) (Memᴰ.head f) k n = ground (arith, e, f)
deliveries-AgreeOn x y (Memᴰ.head e) (Memᴰ.tail (Memᴰ.head f)) k n = ground (arith, e, f)
deliveries-AgreeOn x y (Memᴰ.tail (Memᴰ.head e)) (Memᴰ.head f) k n = ground (arith, e, f)
deliveries-AgreeOn x y (Memᴰ.tail (Memᴰ.head e)) (Memᴰ.tail (Memᴰ.head f)) k n =
    ground (arith, e, f)
deliveries-AgreeOn x y (Memᴰ.head e) (Memᴰ.tail (Memᴰ.tail j)) k n = elim j [ ]
deliveries-AgreeOn x y (Memᴰ.tail (Memᴰ.head e)) (Memᴰ.tail (Memᴰ.tail j)) k n = elim j [ ]
deliveries-AgreeOn x y (Memᴰ.tail (Memᴰ.tail i)) j k n = elim i [ ]

deliver-perm_example : slot_at mail no_letter ≡ slot_at mail no_letter_late
unfolding apply validate_key byte_len codes split all_parts all validate_content find_record deliver
    key_eq update_record
deliver-perm_example =
    deliver-perm deliveries late_post (record history { records = [] }) no_letter no_letter_late
      mail (Permᴰ.swap refl refl) deliveries-AgreeOn refl refl

abbrev dismissing : Store
dismissing = record history { sequence = 2; pending = dismissed ∷ [] }

record_of-view_example : record_of dismissing mail ≡ find_record mail (view dismissing)
unfolding find_pending
record_of-view_example = record_of-view dismissing mail (refl, tt) (omega arith)

abbrev dismissal : NotificationOperation
dismissal = record { sequence = 1; key = mail; content = none }

queue_local_seen_example :
    ((r : NotificationRecord) × (find_record mail
          (view (record history { sequence = 1; pending = dismissal ∷ [] }))
        ≡ some r)
      × (r.content ≡ none))
    × (queue_local (record history { sequence = 1; pending = dismissal ∷ [] }) mail none false
        ≡ ok (record history { sequence = 1; pending = dismissal ∷ [] }, false))
unfolding apply validate_key byte_len codes split all_parts all validate_content find_record
    queue_local is_settled view key_eq option_content_eq retain_other
queue_local_seen_example =
    queue_local_seen history (record history { sequence = 1; pending = dismissal ∷ [] }) mail none
      history-IsValid (omega arith) (inl refl) refl

abbrev after_dismissal : Hub
after_dismissal = (receive disk hub link (submit dismissed)).0

abbrev link_after : NotificationLink
link_after = (receive disk hub link (submit dismissed)).1

Run-IsValid_example : IsValid after_dismissal.state × AllLinks IsValidLink (link_after ∷ [])
unfolding AllLinks
Run-IsValid_example =
    Run-IsValid disk (λ peer. Unit {0}) hub after_dismissal (link ∷ []) (link_after ∷ [])
      (then_step hub after_dismissal after_dismissal (link ∷ []) (link_after ∷ []) (link_after ∷ [])
        (received hub [] [] (link ∷ []) link (submit dismissed) refl)
        (done after_dismissal (link_after ∷ [])))
      history-IsValid (tt, tt)

Run-IsKeptOrRemoved_example : IsKeptOrRemoved mail history after_dismissal.state
unfolding AllLinks is_coordinator
Run-IsKeptOrRemoved_example =
    Run-IsKeptOrRemoved disk mail hub after_dismissal (link ∷ []) (link_after ∷ [])
      (then_step hub after_dismissal after_dismissal (link ∷ []) (link_after ∷ []) (link_after ∷ [])
        (received hub [] [] (link ∷ []) link (submit dismissed) refl)
        (done after_dismissal (link_after ∷ [])))
      (record { coordinates = refl; not_local = refl }) (refl, tt)

abbrev front : SessionLink
front = record { incoming = []; working = none; is_open = true; staged = none; buffered_bytes = 0 }

acts-IsAccounted_example : IsAccounted (
    acts front (
      heard (snapshot_start epoch)
      ∷ (heard (entry mail_record) ∷ (heard snapshot_end ∷ (taken ∷ [])))))
unfolding held_size queue_size
acts-IsAccounted_example =
    acts-IsAccounted front
      (heard (snapshot_start epoch)
        ∷ (heard (entry mail_record) ∷ (heard snapshot_end ∷ (taken ∷ []))))
      (record {
        exact = refl;
        bounded = omega arith;
        measured = record { measured_staged = tt; measured_queue = tt; measured_work = tt };
      })

abbrev replica : Hub
replica = record hub { identity = laptop; state = record empty_store { local_identity = laptop } }

snapshot-delivered_example :
    ((enqueue_all front (snapshot history)).0.incoming
      ≡ [] ++ incoming_snapshot (snapshot_request history) ∷ [])
    × ((enqueue_all front (snapshot history)).1 ≡ ok tt)
    × ((work disk replica link (incoming_snapshot (snapshot_request history))).0.state
        ≡ with_snapshot replica.state epoch history.records)
    × ((work disk replica link (incoming_snapshot (snapshot_request history))).2 ≡ ok tt)
unfolding apply validate_key byte_len codes split all_parts all validate_content find_record
    is_coordinator validate_entry records_bytes record_bytes
snapshot-delivered_example =
    snapshot-delivered disk history front replica link history-IsValid refl (refl, tt)
      (record {
        nothing_staged = refl;
        running = refl;
        queue_room = omega arith;
        memory_room = omega arith;
      })
      (record { replicates = refl; confirmed = refl }) refl (inl refl) refl

-- The owner's link sends the whole history once.
abbrev fresh_link : NotificationLink
fresh_link = record link { peer = laptop }

drain-snapshot_example :
    drain 4 hub fresh_link ≡ some (snapshot history, settled_link hub fresh_link)
unfolding is_coordinator
drain-snapshot_example =
    drain-snapshot hub fresh_link 4 refl
      (record { active = refl; clean = refl; behind = refl; idle = refl }) (omega arith)

abbrev current_link : NotificationLink
current_link = record fresh_link { seen = some 0 }

submit-answered_example :
    ((receive disk hub current_link (submit dismissed)).0.state ≡ no_letter)
    × ((p : NotificationLink) × (drain 5
            (receive disk hub current_link (submit dismissed)).0
            (receive disk hub current_link (submit dismissed)).1
          ≡ some (ack 2 ∷ snapshot no_letter, p)))
unfolding is_coordinator apply validate_key byte_len codes split all_parts all find_record key_eq
    update_record
submit-answered_example =
    submit-answered disk hub current_link dismissed no_letter 5 refl
      (record { active = refl; clean = refl; current = refl }) refl refl (omega arith) refl refl
      (omega arith)

-- A replica sends its dismissal once; after the Ack it has nothing more to send.
abbrev waiting_hub : Hub
waiting_hub = record replica {
  state = record (replica.state) { sequence = 2; pending = dismissed ∷ [] };
}

abbrev acked_hub : Hub
acked_hub = record waiting_hub {
  state = record (waiting_hub.state) { pending = [] };
  generation = 1;
}

abbrev sent_once : NotificationLink
sent_once = record fresh_link { seen = some 0; sent_through = 2 }

drain_sent_example : drain 1 acked_hub sent_once ≡ some ([], settled_link acked_hub sent_once)
unfolding is_coordinator drain next_event fill submits latest retain_sequence
drain_sent_example =
    drain_sent waiting_hub acked_hub fresh_link sent_once 2 2 (submit dismissed ∷ []) 1 refl refl
      (record { active = refl; clean = refl; behind = refl; idle = refl }) (omega arith) refl refl
      refl (omega arith)

-- The laptop, which has not heard of the dismissal, posts its notification again.
abbrev dismissed_hub : Hub
dismissed_hub = record hub { state = no_letter }

abbrev after_repost : Hub
after_repost = (receive disk dismissed_hub fresh_link (submit posted)).0

abbrev link_after_repost : NotificationLink
link_after_repost = (receive disk dismissed_hub fresh_link (submit posted)).1

Run-HoldsRemoved_example :
    (is_coordinator after_repost ≡ true) × (slot_at mail after_repost.state ≡ removed)
unfolding is_coordinator find_record key_eq
Run-HoldsRemoved_example =
    Run-HoldsRemoved disk (λ peer. Unit {0}) mail dismissed_hub after_repost (fresh_link ∷ [])
      (link_after_repost ∷ [])
      (then_step dismissed_hub after_repost after_repost (fresh_link ∷ []) (link_after_repost ∷ [])
        (link_after_repost ∷ [])
        (received dismissed_hub [] [] (fresh_link ∷ []) fresh_link (submit posted) refl)
        (done after_repost (link_after_repost ∷ [])))
      (refl, refl)
