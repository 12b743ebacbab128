-- ===== src/Audio/Loss.antt =====
-- Warnings about lost audio (crates/edge-audio-output/src/lib.rs: `PlaybackStatsSnapshot`,
-- `AudioLossReport`, `AudioLossReporter`). Instants are numbers of nanoseconds.
pub mod Accounting
use mouse_without_borders.Base.{
  ℕ, ◌-◌, ◌*◌, ◌%◌, ltb, ◌==◌, ◌&&◌, Bool, false, Option, none, some, if◌then◌else◌,
}
use mouse_without_borders.Base.Bytes.{u64_mod}
use mouse_without_borders.Audio.Jitter.{frame_ms}

-- `AUDIO_LOSS_WARNING_INTERVAL`, 250 ms.
abbrev pub audio_loss_warning_interval : ℕ
audio_loss_warning_interval = 250000000

pub record PlaybackStatsSnapshot : Type 0 where
  pub authenticated_packets : ℕ  -- u64
  pub rejected_packets : ℕ  -- u64
  pub late_packets : ℕ  -- u64
  pub concealed_packets : ℕ  -- u64
  pub output_underruns : ℕ  -- u64
  pub dropped_output_frames : ℕ  -- u64
  pub dropped_output_ms : ℕ  -- u64
  pub queued_output_ms : ℕ  -- usize

pub record AudioLossReport : Type 0 where
  pub concealed_packets : ℕ  -- u64
  pub concealed_ms : ℕ  -- u64
  pub dropped_output_ms : ℕ  -- u64
  pub dropped_output_frames : ℕ  -- u64

pub record AudioLossReporter : Type 0 where
  pub reported : PlaybackStatsSnapshot
  pub last_warning : Option ℕ

-- `Default`.
abbrev pub empty_snapshot : PlaybackStatsSnapshot
empty_snapshot = record {
  authenticated_packets = 0;
  rejected_packets = 0;
  late_packets = 0;
  concealed_packets = 0;
  output_underruns = 0;
  dropped_output_frames = 0;
  dropped_output_ms = 0;
  queued_output_ms = 0;
}

abbrev pub new : AudioLossReporter
new = record { reported = empty_snapshot; last_warning = none }

-- The test on the time of the last warning.
abbrev pub is_early : Option ℕ → ℕ → Bool
is_early none now = false
is_early (some last) now = ltb (now - last) audio_loss_warning_interval

-- The first early return of `check`.
abbrev pub nothing_lost : AudioLossReporter → PlaybackStatsSnapshot → Bool
nothing_lost r current =
    current.concealed_packets - r.reported.concealed_packets == 0
    && current.dropped_output_frames - r.reported.dropped_output_frames == 0

-- The product of a release build wraps.
abbrev pub report_of : AudioLossReporter → PlaybackStatsSnapshot → AudioLossReport
report_of r current = record {
  concealed_packets = current.concealed_packets - r.reported.concealed_packets;
  concealed_ms = (current.concealed_packets - r.reported.concealed_packets) * frame_ms % u64_mod;
  dropped_output_ms = current.dropped_output_ms - r.reported.dropped_output_ms;
  dropped_output_frames = current.dropped_output_frames - r.reported.dropped_output_frames;
}

unfoldable pub check :
    AudioLossReporter → PlaybackStatsSnapshot → ℕ → AudioLossReporter × Option AudioLossReport
check r current now =
    if nothing_lost r current
    then (r, none)
    else if is_early r.last_warning now
    then (r, none)
    else (record { reported = current; last_warning = some now }, some (report_of r current))
