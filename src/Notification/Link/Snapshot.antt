-- ===== src/Notification/Link/Snapshot.antt =====
-- A replica takes a snapshot over whole.
use mouse_without_borders.Base.{
  ◌+◌, ◌≤◌, ◌<◌, String, str_eq, eq_iff, Bool, true, false, ◌≡◌, refl, subst, sym, ap, ◌∙◌, ◌&&◌,
  Option, none, some, List, [], ◌∷◌, ◌++◌, map, length, length-append, ok, err, arith, Bool-cases,
  inl, inr, ◌⊎◌,
}
use mathlib.Core.List.{append-nil, append_assoc}
use mouse_without_borders.Protocol.Phone.{
  NotificationKey, NotificationRecord, NotificationSync, entry, snapshot_start, snapshot_end,
}
use mouse_without_borders.Notification.Equality.{key_eq, key_eq_iff, records_eq, records_eq_sound}
use mouse_without_borders.Notification.Store.{Store, find_record, max_records}
use mouse_without_borders.Notification.Store.Invariant.{IsDistinctRecords}
use mouse_without_borders.Notification.Hub.{Hub, is_coordinator, commit_store, publish}
use mouse_without_borders.Notification.Link.{
  NotificationLink, Received, is_epoch, check_start, validate_entry, stage, finish_snapshot,
  committed, receive, receive_all, receive_snapshot, receive_other, receive_confirmed,
  receive_start, receive_entry, receive_end,
}

-- A replica whose link is confirmed.
pub record IsReplica (h : Hub) (l : NotificationLink) : Type 0 where
  pub replicates : is_coordinator h ≡ false
  pub confirmed : l.is_active ≡ true

-- Every record passes the checks of `receive`.
abbrev pub AreEntries : List NotificationRecord → Type 0
AreEntries [] = Unit {0}
AreEntries (r ∷ rs) = (validate_entry r r.content ≡ ok tt) × AreEntries rs

-- None of the records is among `rs`.
abbrev pub AreNew : List NotificationRecord → List NotificationRecord → Type 0
AreNew rs [] = Unit {0}
AreNew rs (new ∷ news) = (find_record new.key rs ≡ none) × AreNew rs news

find_record-append_new :
    (key : NotificationKey) (rs : List NotificationRecord) (new : NotificationRecord)
    → find_record key rs ≡ none
    → key_eq new.key key ≡ false
    → find_record key (rs ++ new ∷ []) ≡ none
unfolding find_record
find_record-append_new key [] new h e = ground arith
find_record-append_new key (r ∷ rs) new h e = ground (arith, find_record-append_new key rs new)

AreNew-append :
    (rs news : List NotificationRecord) (r : NotificationRecord)
    → AreNew rs news
    → find_record r.key news ≡ none
    → AreNew (rs ++ r ∷ []) news
unfolding find_record
AreNew-append rs [] r a f = tt
AreNew-append rs (new ∷ news) r a f = ground (
  arith,
  find_record-append_new new.key rs r,
  key_eq_iff new.key r.key,
  key_eq_iff r.key new.key,
  AreNew-append rs news r,
)

AreNew-nil : (news : List NotificationRecord) → AreNew [] news
unfolding find_record
AreNew-nil [] = tt
AreNew-nil (new ∷ news) = (refl, AreNew-nil news)

start-replica :
    (h : Hub) (l : NotificationLink) (epoch : String)
    → is_epoch epoch ≡ true
    → (h.state.epoch ≡ "") ⊎ (h.state.epoch ≡ epoch)
    → l.staged ≡ none
    → receive_start h l epoch ≡ (h, record l { staged = some (epoch, []) }, ok tt)
unfolding receive_start check_start
start-replica h l epoch e g s = ground (arith, eq_iff h.state.epoch "", eq_iff h.state.epoch epoch)

entry-replica :
    (h : Hub) (l : NotificationLink) (epoch : String) (rs : List NotificationRecord)
    (new : NotificationRecord)
    → validate_entry new new.content ≡ ok tt
    → l.staged ≡ some (epoch, rs)
    → length rs < max_records
    → find_record new.key rs ≡ none
    → receive_entry h l new ≡ (h, record l { staged = some (epoch, rs ++ new ∷ []) }, ok tt)
unfolding receive_entry stage
entry-replica h l epoch rs new v s room f = ground arith

abbrev pub with_staged :
    NotificationLink → Option (String × List NotificationRecord) → NotificationLink
with_staged l st = record l { staged = st }

abbrev pub with_snapshot : Store → String → List NotificationRecord → Store
with_snapshot s epoch rs = record s { epoch = epoch; records = rs }

module _ (writes : Store → Bool) where
  receive-replica :
      (h : Hub) (l : NotificationLink)
      → IsReplica h l
      → ((epoch : String) → receive writes h l (snapshot_start epoch) ≡ receive_start h l epoch)
        × ((new : NotificationRecord) → receive writes h l (entry new) ≡ receive_entry h l new)
        × (receive writes h l snapshot_end ≡ finish_snapshot writes h l l.staged)
  unfolding receive receive_other receive_confirmed receive_end
  receive-replica h l i = (
    λ epoch. ground (arith, i.replicates, i.confirmed),
    λ new. ground (arith, i.replicates, i.confirmed),
    ground (arith, i.replicates, i.confirmed),
  )

  receive_all-next :
      (h : Hub) (l l' : NotificationLink) (event : NotificationSync)
      (events : List NotificationSync)
      → receive writes h l event ≡ (h, l', ok tt)
      → receive_all writes h l (event ∷ events) ≡ receive_all writes h l' events
  unfolding receive_all
  receive_all-next h l l' event events e =
      subst
        (λ r.
          (elim r.2 as (λ _. Received) [ ok _ ↦ receive_all writes r.0 r.1 events | err x ↦ r ])
          ≡ receive_all writes h l' events)
        (sym e) refl

  receive_all_last :
      (h : Hub) (l : NotificationLink) (event : NotificationSync)
      → (receive writes h l event).2 ≡ ok tt
      → receive_all writes h l (event ∷ [])
        ≡ ((receive writes h l event).0, (receive writes h l event).1, ok tt)
  unfolding receive_all
  receive_all_last h l event e = rw (e, receive_all) refl

  finish-replica :
      (h : Hub) (l : NotificationLink) (epoch : String) (rs : List NotificationRecord)
      → writes (with_snapshot h.state epoch rs) ≡ true
      → ((finish_snapshot writes h l (some (epoch, rs))).0.state ≡ with_snapshot h.state epoch rs)
        × ((finish_snapshot writes h l (some (epoch, rs))).1.staged ≡ none)
        × ((finish_snapshot writes h l (some (epoch, rs))).2 ≡ ok tt)
  unfolding finish_snapshot commit_store publish committed
  finish-replica h l epoch rs w =
      elim (Bool-cases (str_eq h.state.epoch epoch && records_eq h.state.records rs)) [
        | inl e ↦ (
          ground (arith, eq_iff h.state.epoch epoch, records_eq_sound h.state.records rs),
          ground arith,
          ground arith,
        )
        | inr e ↦ (ground arith, ground arith, ground arith)
      ]

  -- The records of the snapshot, after those staged already.
  entries-replica :
      (h : Hub) (l : NotificationLink) (epoch : String) (rs news : List NotificationRecord)
      (rest : List NotificationSync)
      → IsReplica h l
      → AreEntries news
      → IsDistinctRecords news
      → AreNew rs news
      → length rs + length news ≤ max_records
      → receive_all writes h (with_staged l (some (epoch, rs))) (map entry news ++ rest)
        ≡ receive_all writes h (with_staged l (some (epoch, rs ++ news))) rest
  entries-replica h l epoch rs [] rest i v d a room =
      ap (λ x. receive_all writes h (with_staged l (some (epoch, x))) rest) (sym (append-nil rs))
  entries-replica h l epoch rs (new ∷ news) rest i v d a room =
      let at = with_staged l (some (epoch, rs)) in
      let to = with_staged l (some (epoch, rs ++ new ∷ [])) in
      let here =
        (receive-replica h at (record { replicates = i.replicates; confirmed = i.confirmed })).1 new
        ∙ entry-replica h at epoch rs new v.0 refl (omega arith) a.0 in
      receive_all-next h at to (entry new) (map entry news ++ rest) here
      ∙ entries-replica h l epoch (rs ++ new ∷ []) news rest i v.1 d.1
          (AreNew-append rs news new a.1 d.0) (omega (arith, length-append rs (new ∷ [])))
      ∙ ap (λ x. receive_all writes h (with_staged l (some (epoch, x))) rest)
          (append_assoc rs (new ∷ []) news)

  -- A replica with a confirmed link that has nothing staged, and that knows no other history, takes
  -- a snapshot of valid records with distinct keys within the capacity over whole, if the disk lets
  -- it: every event of it succeeds, its records and its epoch are the snapshot's, the rest of its
  -- history is as it was, and nothing stays staged.
  pub receive_snapshot_lem :
      (h : Hub) (l : NotificationLink) (epoch : String) (rs : List NotificationRecord)
      → IsReplica h l
      → l.staged ≡ none
      → is_epoch epoch ≡ true
      → (h.state.epoch ≡ "") ⊎ (h.state.epoch ≡ epoch)
      → AreEntries rs
      → IsDistinctRecords rs
      → length rs ≤ max_records
      → writes (with_snapshot h.state epoch rs) ≡ true
      → ((receive_snapshot writes h l epoch rs).0.state ≡ with_snapshot h.state epoch rs)
        × ((receive_snapshot writes h l epoch rs).1.staged ≡ none)
        × ((receive_snapshot writes h l epoch rs).2 ≡ ok tt)
  unfolding receive_snapshot
  receive_snapshot_lem h l epoch rs i s e g v d room w =
      let end : List NotificationSync = snapshot_end ∷ [] in
      let at = with_staged l (some (epoch, rs)) in
      let j : IsReplica h at = record { replicates = i.replicates; confirmed = i.confirmed } in
      let begin : receive_snapshot writes h l epoch rs
          ≡ receive_all writes h (with_staged l (some (epoch, []))) (map entry rs ++ end) =
        receive_all-next h l (with_staged l (some (epoch, []))) (snapshot_start epoch)
          (map entry rs ++ end) ((receive-replica h l i).0 epoch ∙ start-replica h l epoch e g s) in
      let last = (receive-replica h at j).2 in
      let f = finish-replica h at epoch rs w in
      let all : receive_snapshot writes h l epoch rs ≡ (
        (finish_snapshot writes h at (some (epoch, rs))).0,
        (finish_snapshot writes h at (some (epoch, rs))).1,
        ok tt,
      ) =
        begin
        ∙ entries-replica h l epoch [] rs end i v d (AreNew-nil rs) (omega (arith, room))
        ∙ receive_all_last h at snapshot_end (ap (λ r. r.2) last ∙ f.2)
        ∙ ap (λ r. (r.0, r.1, ok tt)) last in
      (ap (λ r. r.0.state) all ∙ f.0, ap (λ r. r.1.staged) all ∙ f.1, ap (λ r. r.2) all)
