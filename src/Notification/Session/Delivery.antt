-- ===== src/Notification/Session/Delivery.antt =====
-- A snapshot from end to end.
use mathlib.Core.List.{append-nil, append_assoc}
use mouse_without_borders.Base.{
  ℕ, ◌+◌, ◌≤◌, ◌<◌, String, Bool, true, ◌≡◌, refl, subst, sym, ap, ◌∙◌, none, some, List, [], ◌∷◌,
  ◌++◌, map, length, length-append, ◌⊎◌, Result, ok, err, arith,
}
use mouse_without_borders.Base.Texts.{codes, byte_len}
use mouse_without_borders.Protocol.Phone.{
  NotificationRecord, NotificationSync, snapshot_start, entry, snapshot_end,
}
use mouse_without_borders.Notification.Validation.{HubError}
use mouse_without_borders.Notification.Store.{Store, max_records}
use mouse_without_borders.Notification.Store.Invariant.{IsValid}
use mouse_without_borders.Notification.Hub.{Hub}
use mouse_without_borders.Notification.Link.{NotificationLink, is_epoch, snapshot}
use mouse_without_borders.Notification.Link.Snapshot.{
  IsReplica, AreEntries, with_snapshot, receive_snapshot_lem,
}
use mouse_without_borders.Notification.Session.{
  SessionLink, IncomingSnapshot, incoming_snapshot, max_store_bytes, queue_capacity, record_bytes,
  reserve, send, begin_snapshot, push_record, add_record, end_snapshot, enqueue, work,
}

-- The frames of the peer in order; the first failure ends it.
abbrev pub enqueue_all :
    SessionLink → List NotificationSync → SessionLink × Result HubError (Unit {0})
enqueue_all s [] = (s, ok tt)
enqueue_all s (e ∷ es) = elim (enqueue s e).1 [
  | ok _ ↦ enqueue_all (enqueue s e).0 es
  | err x ↦ enqueue s e
]

-- The memory that records take.
unfoldable pub records_bytes : List NotificationRecord → ℕ
records_bytes [] = 0
records_bytes (r ∷ rs) = record_bytes r + records_bytes rs

-- The session while a snapshot is being collected.
abbrev pub collecting : SessionLink → String → ℕ → ℕ → List NotificationRecord → SessionLink
collecting s epoch used bytes rs = record s {
  buffered_bytes = used;
  staged = some (record { epoch = epoch; records = rs; bytes = bytes });
}

enqueue_entry :
    (s : SessionLink) (epoch : String) (used bytes : ℕ) (rs : List NotificationRecord)
    (r : NotificationRecord)
    → length rs < max_records
    → used + record_bytes r ≤ max_store_bytes
    → enqueue (collecting s epoch used bytes rs) (entry r)
      ≡ (collecting s epoch (used + record_bytes r) (bytes + record_bytes r) (rs ++ r ∷ []), ok tt)
unfolding enqueue add_record push_record reserve
enqueue_entry s epoch used bytes rs r room fit = ground arith

enqueue_all-next :
    (s s' : SessionLink) (e : NotificationSync) (es : List NotificationSync)
    → enqueue s e ≡ (s', ok tt)
    → enqueue_all s (e ∷ es) ≡ enqueue_all s' es
enqueue_all-next s s' e es h =
    subst
      (λ r.
        (elim r.1 as (λ _. SessionLink × Result HubError (Unit {0})) [
          | ok _ ↦ enqueue_all r.0 es
          | err x ↦ r
        ])
        ≡ enqueue_all s' es)
      (sym h) refl

same_session :
    (s : SessionLink) (epoch : String) (used used' bytes bytes' : ℕ)
    (rs rs' : List NotificationRecord) (rest : List NotificationSync)
    → used ≡ used'
    → bytes ≡ bytes'
    → rs ≡ rs'
    → enqueue_all (collecting s epoch used bytes rs) rest
      ≡ enqueue_all (collecting s epoch used' bytes' rs') rest
same_session s epoch used used' bytes bytes' rs rs' rest a b c = cc

enqueue_entries :
    (s : SessionLink) (epoch : String) (used bytes : ℕ) (rs news : List NotificationRecord)
    (rest : List NotificationSync)
    → length rs + length news ≤ max_records
    → used + records_bytes news ≤ max_store_bytes
    → enqueue_all (collecting s epoch used bytes rs) (map entry news ++ rest)
      ≡ enqueue_all
          (collecting s epoch (used + records_bytes news) (bytes + records_bytes news) (rs ++ news))
          rest
unfolding records_bytes
enqueue_entries s epoch used bytes rs [] rest room fit =
    same_session s epoch used (used + 0) bytes (bytes + 0) rs (rs ++ []) rest (omega arith)
      (omega arith) (sym (append-nil rs))
enqueue_entries s epoch used bytes rs (r ∷ news) rest room fit =
    let to = collecting s epoch (used + record_bytes r) (bytes + record_bytes r) (rs ++ r ∷ []) in
    enqueue_all-next (collecting s epoch used bytes rs) to (entry r) (map entry news ++ rest)
      (enqueue_entry s epoch used bytes rs r (omega arith) (omega arith))
    ∙ enqueue_entries s epoch (used + record_bytes r) (bytes + record_bytes r) (rs ++ r ∷ []) news
        rest (omega (arith, length-append rs (r ∷ []))) (omega arith)
    ∙ same_session s epoch (used + record_bytes r + records_bytes news)
        (used + (record_bytes r + records_bytes news)) (bytes + record_bytes r + records_bytes news)
        (bytes + (record_bytes r + records_bytes news)) ((rs ++ r ∷ []) ++ news) (rs ++ r ∷ news)
        rest (omega arith) (omega arith) (append_assoc rs (r ∷ []) news)

begins :
    (s : SessionLink) (epoch : String)
    → s.staged ≡ none
    → byte_len (codes epoch) ≡ 32
    → enqueue s (snapshot_start epoch) ≡ (collecting s epoch s.buffered_bytes 0 [], ok tt)
unfolding enqueue begin_snapshot
begins s epoch st e = ground arith

ends :
    (s : SessionLink) (epoch : String) (used bytes : ℕ) (rs : List NotificationRecord)
    → s.staged ≡ none
    → s.is_open ≡ true
    → length s.incoming < queue_capacity
    → enqueue (collecting s epoch used bytes rs) snapshot_end ≡ (
      record s {
        incoming =
            s.incoming
            ++ incoming_snapshot (record { epoch = epoch; records = rs; bytes = bytes }) ∷ [];
        buffered_bytes = used;
      },
      ok tt,
    )
unfolding enqueue end_snapshot send
ends s epoch used bytes rs st op q = ground arith

-- The request that a history becomes.
abbrev pub snapshot_request : Store → IncomingSnapshot
snapshot_request c = record {
  epoch = c.epoch;
  records = c.records;
  bytes = records_bytes c.records;
}

-- The frames of a history make one request, in the memory of its records.
enqueue_snapshot :
    (s : SessionLink) (c : Store)
    → s.staged ≡ none
    → s.is_open ≡ true
    → length s.incoming < queue_capacity
    → s.buffered_bytes + records_bytes c.records ≤ max_store_bytes
    → byte_len (codes c.epoch) ≡ 32
    → length c.records ≤ max_records
    → enqueue_all s (snapshot c) ≡ (
      record s {
        incoming = s.incoming ++ incoming_snapshot (snapshot_request c) ∷ [];
        buffered_bytes = s.buffered_bytes + records_bytes c.records;
      },
      ok tt,
    )
unfolding snapshot
enqueue_snapshot s c st op q fit e room =
    let used = s.buffered_bytes in
    let end : List NotificationSync = snapshot_end ∷ [] in
    let size = records_bytes c.records in
    let full = collecting s c.epoch (used + size) size c.records in
    let sent : SessionLink = record s {
      incoming = s.incoming ++ incoming_snapshot (snapshot_request c) ∷ [];
      buffered_bytes = used + size;
    } in
    enqueue_all-next s (collecting s c.epoch used 0 []) (snapshot_start c.epoch)
      (map entry c.records ++ end) (begins s c.epoch st e)
    ∙ enqueue_entries s c.epoch used 0 [] c.records end (omega arith) fit
    ∙ same_session s c.epoch (used + size) (used + size) (0 + size) size c.records c.records end
        refl (omega arith) refl
    ∙ enqueue_all-next full sent snapshot_end []
        (ends s c.epoch (used + size) size c.records st op q)

epoch_bytes : (epoch : String) → is_epoch epoch ≡ true → byte_len (codes epoch) ≡ 32
epoch_bytes epoch e = ground arith

-- Where the front of a session stands: nothing staged, and room for a history.
pub record IsReady (s : SessionLink) (c : Store) : Type 0 where
  pub nothing_staged : s.staged ≡ none
  pub running : s.is_open ≡ true
  pub queue_room : length s.incoming < queue_capacity
  pub memory_room : s.buffered_bytes + records_bytes c.records ≤ max_store_bytes

-- The frames that a coordinator sends of its valid history, received one by one at a session with
-- room for it, make one request without a failure; and the worker's answer to that request makes
-- the replica's records and epoch the coordinator's, with the rest of its history as it was, if its
-- epoch is empty or the same and the disk lets it.
pub snapshot-delivered :
    (writes : Store → Bool) (c : Store) (s : SessionLink) (h : Hub) (l : NotificationLink)
    → IsValid c
    → is_epoch c.epoch ≡ true
    → AreEntries c.records
    → IsReady s c
    → IsReplica h l
    → l.staged ≡ none
    → (h.state.epoch ≡ "") ⊎ (h.state.epoch ≡ c.epoch)
    → writes (with_snapshot h.state c.epoch c.records) ≡ true
    → ((enqueue_all s (snapshot c)).0.incoming
        ≡ s.incoming ++ incoming_snapshot (snapshot_request c) ∷ [])
      × ((enqueue_all s (snapshot c)).1 ≡ ok tt)
      × ((work writes h l (incoming_snapshot (snapshot_request c))).0.state
          ≡ with_snapshot h.state c.epoch c.records)
      × ((work writes h l (incoming_snapshot (snapshot_request c))).2 ≡ ok tt)
unfolding work
snapshot-delivered writes c s h l v e entries r i st g w =
    let q =
      enqueue_snapshot s c r.nothing_staged r.running r.queue_room r.memory_room
        (epoch_bytes c.epoch e) v.records_bounded in
    let p =
      receive_snapshot_lem writes h l c.epoch c.records i st e g entries v.records_distinct
        v.records_bounded w in
    (ap (λ x. x.0.incoming) q, ap (λ x. x.1) q, p.0, p.2)
