-- ===== src/Notification/Sessions.antt =====
-- A hub and the sessions that share it (apps/edge-receiver-linux/src/notification_hub.rs): every
-- step runs under the lock of the history, in any order.
pub mod Validity
pub mod Authority
pub mod Finality
use mouse_without_borders.Base.{String, Bool, ◌≡◌, Option, some, List, [], ◌∷◌, ◌++◌}
use mouse_without_borders.Protocol.Phone.{NotificationKey, SharedNotification, NotificationSync}
use mouse_without_borders.Notification.Store.{Store}
use mouse_without_borders.Notification.Hub.{Hub, local_change}
use mouse_without_borders.Notification.Link.{
  NotificationLink, open_link, end_link, next_event, receive,
}

-- One call: a session opens with a peer that `IsPeer` admits, ends, hears from its peer, or asks
-- what to send; or this PC changes a notification.
pub data Step (writes : Store → Bool) (IsPeer : String → Type 0)
    : Hub → List NotificationLink → Hub → List NotificationLink → Type 0 where
  opened :
      (h h' : Hub) (ls : List NotificationLink) (peer : String) (supported : Bool)
      (l : NotificationLink)
      → IsPeer peer
      → open_link h peer supported ≡ (h', some l)
      → Step writes IsPeer h ls h' (l ∷ ls)
  ended :
      (h : Hub) (before after ls : List NotificationLink) (l : NotificationLink)
      → ls ≡ before ++ l ∷ after
      → Step writes IsPeer h ls (end_link h l) (before ++ after)
  received :
      (h : Hub) (before after ls : List NotificationLink) (l : NotificationLink)
      (event : NotificationSync)
      → ls ≡ before ++ l ∷ after
      → Step writes IsPeer h ls
          (receive writes h l event).0
          (before ++ (receive writes h l event).1 ∷ after)
  sent :
      (h : Hub) (before after ls : List NotificationLink) (l : NotificationLink)
      → ls ≡ before ++ l ∷ after
      → Step writes IsPeer h ls h (before ++ (next_event h l).0 ∷ after)
  changed_here :
      (h : Hub) (ls : List NotificationLink) (key : NotificationKey)
      (content : Option SharedNotification)
      → Step writes IsPeer h ls (local_change writes h key content).0 ls

pub data Run (writes : Store → Bool) (IsPeer : String → Type 0)
    : Hub → List NotificationLink → Hub → List NotificationLink → Type 0 where
  done : (h : Hub) (ls : List NotificationLink) → Run writes IsPeer h ls h ls
  then_step :
      (h₁ h₂ h₃ : Hub) (ls₁ ls₂ ls₃ : List NotificationLink)
      → Step writes IsPeer h₁ ls₁ h₂ ls₂
      → Run writes IsPeer h₂ ls₂ h₃ ls₃
      → Run writes IsPeer h₁ ls₁ h₃ ls₃

-- Every open link.
unfoldable pub AllLinks : (NotificationLink → Type 0) → List NotificationLink → Type 0
AllLinks P [] = Unit {0}
AllLinks P (l ∷ ls) = P l × AllLinks P ls

pub AllLinks-at :
    (P : NotificationLink → Type 0) (before after : List NotificationLink) (l : NotificationLink)
    → AllLinks P (before ++ l ∷ after)
    → P l
unfolding AllLinks
AllLinks-at P [] after l h = h.0
AllLinks-at P (x ∷ xs) after l h = AllLinks-at P xs after l h.1

pub AllLinks-set :
    (P : NotificationLink → Type 0) (before after : List NotificationLink)
    (l new : NotificationLink)
    → AllLinks P (before ++ l ∷ after)
    → P new
    → AllLinks P (before ++ new ∷ after)
unfolding AllLinks
AllLinks-set P [] after l new h n = (n, h.1)
AllLinks-set P (x ∷ xs) after l new h n = (h.0, AllLinks-set P xs after l new h.1 n)

pub AllLinks-drop :
    (P : NotificationLink → Type 0) (before after : List NotificationLink) (l : NotificationLink)
    → AllLinks P (before ++ l ∷ after)
    → AllLinks P (before ++ after)
unfolding AllLinks
AllLinks-drop P [] after l h = h.1
AllLinks-drop P (x ∷ xs) after l h = (h.0, AllLinks-drop P xs after l h.1)
