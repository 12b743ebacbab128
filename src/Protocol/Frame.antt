-- ===== src/Protocol/Frame.antt =====
-- The frames of a session (crates/edge-protocol/src/lib.rs, `Frame` and the messages that it
-- carries). A floating-point field is its IEEE bit pattern; a signed one is the pattern of its
-- two's complement. The frames only carry them.
use mouse_without_borders.Base.{ℕ, String, Bool, Option, none, some, List}
use mouse_without_borders.Protocol.Clipboard.{ClipboardEvent}
use mouse_without_borders.Protocol.Roles.{Edge, RoleEvent}
use mouse_without_borders.Protocol.Phone.{
  PairingEvent, PhoneEvent, NotificationEvent, NotificationSync,
}

-- `edge_common::Role`.
pub data Role : Type 0 where
  controller receiver : Role

pub data Capability : Type 0 where
  audio_v1 : Capability

pub data NodeCapability : Type 0 where
  input_capture_v1 input_inject_v1 role_switch_v1 screen_info_both_sides_v1 : NodeCapability
  audio_capture_v1 audio_playback_v1 : NodeCapability

pub record Hello : Type 0 where
  pub protocol_version : ℕ  -- u16
  pub device_name : String
  pub role : Role
  pub public_key_fingerprint : String
  pub capabilities : List Capability
  pub extensions : List String
  pub node_capabilities : List NodeCapability

pub record OutputInfo : Type 0 where
  pub name : String
  pub width : ℕ  -- u32
  pub height : ℕ  -- u32
  pub scale : ℕ  -- f32
  pub x : ℕ  -- i32
  pub y : ℕ  -- i32

pub record ScreenInfo : Type 0 where
  pub outputs : List OutputInfo
  pub primary_output : String

pub data MouseButton : Type 0 where
  left right middle back forward : MouseButton

pub data InputEvent : Type 0 where
  -- dx, dy : f64
  pointer_motion : ℕ → ℕ → InputEvent
  pointer_button : MouseButton → Bool → InputEvent
  pointer_wheel : ℕ → ℕ → InputEvent
  -- evdev_code : u16, down
  key : ℕ → Bool → InputEvent
  all_keys_up : InputEvent

pub record InputFrame : Type 0 where
  pub role_epoch : ℕ  -- u64
  pub event : InputEvent

pub data ReleaseReason : Type 0 where
  hotkey peer_disconnected heartbeat_timeout backend_failure user_request shutdown : ReleaseReason

pub data ControlEvent : Type 0 where
  -- edge, normalized_position : f32
  enter_remote : Edge → ℕ → ControlEvent
  leave_remote : Edge → ℕ → ControlEvent
  release_to_local : ReleaseReason → ControlEvent
  set_input_forwarding : Bool → ControlEvent

pub record ControlFrame : Type 0 where
  pub role_epoch : ℕ  -- u64
  pub event : ControlEvent

pub data AudioCodec : Type 0 where
  pcm_s16_stereo_48khz : AudioCodec

pub data AudioStreamState : Type 0 where
  disabled waiting_for_udp starting streaming error : AudioStreamState

pub data AudioStopReason : Type 0 where
  user_request peer_disconnected transport_failure : AudioStopReason
  capture_failure playback_failure shutdown : AudioStopReason

pub data AudioControl : Type 0 where
  request_route : Option String → AudioControl
  set_route : Option String → AudioControl
  offer : ℕ → List AudioCodec → AudioControl
  -- udp_port, session_id, session_salt, session_key, codec, frame_ms, jitter_target_ms
  start : ℕ → List ℕ → List ℕ → List ℕ → AudioCodec → ℕ → ℕ → AudioControl
  set_enabled : Bool → AudioControl
  state : AudioStreamState → Option String → AudioControl
  stop : AudioStopReason → AudioControl

pub record Heartbeat : Type 0 where
  pub sequence : ℕ  -- u64

pub record RemoteError : Type 0 where
  pub code : String
  pub message : String

pub data Frame : Type 0 where
  hello : Hello → Frame
  screen_info : ScreenInfo → Frame
  input : InputFrame → Frame
  clipboard : ClipboardEvent → Frame
  control : ControlFrame → Frame
  heartbeat : Heartbeat → Frame
  error : RemoteError → Frame
  audio : AudioControl → Frame
  pairing : PairingEvent → Frame
  role : RoleEvent → Frame
  phone : PhoneEvent → Frame
  notification : NotificationEvent → Frame
  notification_sync : NotificationSync → Frame

-- `Frame::input` and `Frame::control`, and their inverses.
unfoldable pub input_frame : ℕ → InputEvent → Frame
input_frame role_epoch event = input (record { role_epoch = role_epoch; event = event })

unfoldable pub control_frame : ℕ → ControlEvent → Frame
control_frame role_epoch event = control (record { role_epoch = role_epoch; event = event })

unfoldable pub input_event : Frame → Option InputEvent
input_event (input frame) = some frame.event
input_event _ = none

unfoldable pub control_event : Frame → Option ControlEvent
control_event (control frame) = some frame.event
control_event _ = none
