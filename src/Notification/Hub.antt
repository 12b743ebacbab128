-- ===== src/Notification/Hub.antt =====
-- The hub that a PC's sessions share (apps/edge-receiver-linux/src/notification_hub.rs:
-- `NotificationHub`), as far as it decides on the history. A method runs under the lock of the
-- history. Whether `persist` succeeds, by the size of the file and the disk, is the parameter
-- `writes`.
use mouse_without_borders.Base.{
  ℕ, ◌+◌, ◌%◌, String, str_eq, Bool, true, false, ◌||◌, Option, none, some, List, [], ◌∷◌,
  if◌then◌else◌, Result, ok, err,
}
use mouse_without_borders.Base.Bytes.{u64_mod}
use mouse_without_borders.Protocol.Phone.{NotificationKey, SharedNotification}
use mouse_without_borders.Notification.Validation.{HubError, store_not_written}
use mouse_without_borders.Notification.Store.{Store, queue_local}

pub record Hub : Type 0 where
  pub identity : String
  pub coordinator_fingerprint : String  -- of the configuration, as are the peers
  pub peers : List String
  pub state : Store
  pub generation : ℕ  -- u64, what `changed` sends
  pub links : ℕ  -- usize, the links whose owner is confirmed
  pub error : Option HubError

unfoldable pub is_coordinator : Hub → Bool
is_coordinator h = str_eq h.identity h.coordinator_fingerprint

unfoldable pub contains : String → List String → Bool
contains name [] = false
contains name (x ∷ xs) = str_eq x name || contains name xs

unfoldable pub enrolled : Hub → String → Bool
unfolding contains
enrolled h peer = contains peer h.peers

unfoldable pub publish : Hub → Hub
publish h = record h { generation = (h.generation + 1) % u64_mod }

-- The first error stays.
abbrev pub first_error : Option HubError → HubError → Option HubError
first_error none e = some e
first_error (some old) e = some old

unfoldable pub record_error : Hub → HubError → Hub
record_error h e = record h { error = first_error h.error e }

unfoldable pub clear_error : Hub → Hub
clear_error h = record h { error = none }

module _ (writes : Store → Bool) where
  -- `persist(&next)`, `*state = next` and `publish`.
  unfoldable pub commit_store : Hub → Store → Hub × Result HubError (Unit {0})
  unfolding publish
  commit_store h next =
      if writes next
      then (publish (record h { state = next }), ok tt)
      else (h, err store_not_written)

  unfoldable pub commit_local :
      Hub → Result HubError (Store × Bool) → Hub × Result HubError (Unit {0})
  unfolding commit_store
  commit_local h (err e) = (h, err e)
  commit_local h (ok (next, false)) = (h, ok tt)
  commit_local h (ok (next, true)) = commit_store h next

  -- `NotificationHub::local`.
  unfoldable pub local_change :
      Hub → NotificationKey → Option SharedNotification → Hub × Result HubError (Unit {0})
  unfolding commit_local is_coordinator
  local_change h key content = commit_local h (queue_local h.state key content (is_coordinator h))
