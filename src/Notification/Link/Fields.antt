-- ===== src/Notification/Link/Fields.antt =====
-- What sending, opening and ending a link, and a local change, leave as it was.
use mouse_without_borders.Base.{
  String, Bool, true, false, ◌≡◌, refl, ◌||◌, ◌&&◌, not, Option, none, some, List, [], ◌∷◌, Result,
  ok, err, arith, Bool-cases, inl, inr, ◌⊎◌,
}
use mouse_without_borders.Protocol.Phone.{NotificationKey, SharedNotification, NotificationSync}
use mouse_without_borders.Notification.Validation.{HubError}
use mouse_without_borders.Notification.Store.{Store, queue_local}
use mouse_without_borders.Notification.Hub.{
  Hub, is_coordinator, commit_store, publish, clear_error, local_change, commit_local,
}
use mouse_without_borders.Notification.Link.{
  NotificationLink, open_link, end_link, next_event, pop_event, refill, fill, is_seen,
}

-- What is sent changes neither the peer nor what is staged.
fill-staged :
    (h : Hub) (l : NotificationLink) → ((fill h l).staged ≡ l.staged) × ((fill h l).peer ≡ l.peer)
unfolding fill
fill-staged h l = elim (Bool-cases (is_coordinator h)) [
  | inl c ↦ rw c (refl, refl)
  | inr c ↦ rw c (refl, refl)
]

refill-staged :
    (h : Hub) (l : NotificationLink)
    → ((refill h l).staged ≡ l.staged) × ((refill h l).peer ≡ l.peer)
unfolding refill
refill-staged h l = elim (Bool-cases l.dirty) [
  | inl c ↦ ground (arith, fill-staged h l)
  | inr c ↦ ground (arith, fill-staged h (record l { seen = some h.generation }))
]

pop_event-staged :
    (es : List NotificationSync) (l : NotificationLink)
    → ((pop_event es l).0.staged ≡ l.staged) × ((pop_event es l).0.peer ≡ l.peer)
pop_event-staged [] l = (refl, refl)
pop_event-staged (e ∷ es) l = (refl, refl)

pub next_event-staged :
    (h : Hub) (l : NotificationLink)
    → ((next_event h l).0.staged ≡ l.staged) × ((next_event h l).0.peer ≡ l.peer)
unfolding next_event
next_event-staged h l = at l.outgoing refl
  where
    at :
        (es : List NotificationSync)
        → l.outgoing ≡ es
        → ((next_event h l).0.staged ≡ l.staged) × ((next_event h l).0.peer ≡ l.peer)
    at (e ∷ es) a = (ground arith, ground arith)
    at [] a = elim (Bool-cases (not l.is_active || not l.dirty && is_seen l.seen h.generation)) [
      | inl b ↦ (ground arith, ground arith)
      | inr b ↦
          let p = pop_event-staged (refill h l).outgoing (refill h l) in
          let q = refill-staged h l in (ground arith, ground arith)
    ]

pub open_link-fields :
    (h h' : Hub) (peer : String) (supported : Bool) (l : NotificationLink)
    → open_link h peer supported ≡ (h', some l)
    → (h' ≡ clear_error h) × (l.peer ≡ peer) × (l.staged ≡ none)
unfolding open_link
open_link-fields h h' peer supported l e = (ground arith, ground arith, ground arith)

pub end_link-fields :
    (h : Hub) (l : NotificationLink)
    → ((end_link h l).state ≡ h.state)
      × ((end_link h l).identity ≡ h.identity)
      × ((end_link h l).coordinator_fingerprint ≡ h.coordinator_fingerprint)
unfolding end_link
end_link-fields h l = (ground arith, ground arith, ground arith)

module _ (writes : Store → Bool) where
  -- A local change writes what `queue_local` makes of the history, or nothing.
  pub local_change-fields :
      (h : Hub) (key : NotificationKey) (content : Option SharedNotification)
      → ((local_change writes h key content).0.identity ≡ h.identity)
        × ((local_change writes h key content).0.coordinator_fingerprint
            ≡ h.coordinator_fingerprint)
        × (((local_change writes h key content).0.state ≡ h.state)
            ⊎ (queue_local h.state key content (is_coordinator h)
                ≡ ok ((local_change writes h key content).0.state, true)))
  unfolding local_change commit_local commit_store publish
  local_change-fields h key content = at (queue_local h.state key content (is_coordinator h)) refl
    where
      at :
          (q : Result HubError (Store × Bool))
          → queue_local h.state key content (is_coordinator h) ≡ q
          → ((local_change writes h key content).0.identity ≡ h.identity)
            × ((local_change writes h key content).0.coordinator_fingerprint
                ≡ h.coordinator_fingerprint)
            × (((local_change writes h key content).0.state ≡ h.state)
                ⊎ (queue_local h.state key content (is_coordinator h)
                    ≡ ok ((local_change writes h key content).0.state, true)))
      at (err e) q = (ground arith, ground arith, inl (ground arith))
      at (ok (s, false)) q = (ground arith, ground arith, inl (ground arith))
      at (ok (s, true)) q = elim (Bool-cases (writes s)) [
        | inl w ↦ (ground arith, ground arith, inr (ground arith))
        | inr w ↦ (ground arith, ground arith, inl (ground arith))
      ]
