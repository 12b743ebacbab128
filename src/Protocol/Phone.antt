-- ===== src/Protocol/Phone.antt =====
-- Pairing, phone and notification messages (crates/edge-protocol/src/lib.rs).
use mouse_without_borders.Base.{ℕ, String, Bool, Option, List}

pub data PairingEvent : Type 0 where
  -- trusted, armed
  status : Bool → Bool → PairingEvent
  decision : Bool → PairingEvent

pub data AudioDirection : Type 0 where
  to_phone from_phone : AudioDirection

pub data PhoneEvent : Type 0 where
  pair_request : String → PhoneEvent
  pair_accepted : PhoneEvent
  unpair : PhoneEvent
  audio_request : Option AudioDirection → ℕ → PhoneEvent
  -- direction, session_id, session_salt, session_key, jitter_target_ms
  audio_start : AudioDirection → List ℕ → List ℕ → List ℕ → ℕ → PhoneEvent
  audio_stopped : String → PhoneEvent
  audio_invite : AudioDirection → PhoneEvent

pub record PhoneNotification : Type 0 where
  pub id : ℕ  -- u64
  pub app_name : String
  pub title : String
  pub body : String
  pub icon_png : Option (List ℕ)
  pub posted_ms : ℕ  -- u64

pub data NotificationEvent : Type 0 where
  posted : PhoneNotification → NotificationEvent
  removed : ℕ → NotificationEvent
  snapshot_start : NotificationEvent
  snapshot_end : NotificationEvent

pub record NotificationKey : Type 0 where
  pub origin : String
  pub instance_id : String  -- `instance`

pub record SharedNotification : Type 0 where
  pub app_name : String
  pub title : String
  pub body : String
  pub icon : String
  pub icon_png : Option (List ℕ)
  pub posted_ms : ℕ
  pub urgency : ℕ  -- u8

pub record NotificationOperation : Type 0 where
  pub sequence : ℕ  -- u64
  pub key : NotificationKey
  pub content : Option SharedNotification

pub record NotificationRecord : Type 0 where
  pub key : NotificationKey
  pub source_sequence : ℕ  -- u64
  pub content : Option SharedNotification

pub data NotificationSync : Type 0 where
  submit : NotificationOperation → NotificationSync
  ack : ℕ → NotificationSync
  snapshot_start : String → NotificationSync
  entry : NotificationRecord → NotificationSync  -- `Record`
  snapshot_end : NotificationSync
  settings : String → NotificationSync
