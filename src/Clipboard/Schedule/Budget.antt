-- ===== src/Clipboard/Schedule/Budget.antt =====
-- After how many frames a chunk is due.
use mouse_without_borders.Base.{ℕ, ◌+◌, ◌≡◌, min, leb, List, [], ◌∷◌, arith}
use mouse_without_borders.Base.Bytes.{u8_max}
use mouse_without_borders.Protocol.Clipboard.{image_chunk, text_chunk}
use mouse_without_borders.Protocol.Frame.{Frame, clipboard}
use mouse_without_borders.Clipboard.Schedule.{
  ImageTransferSchedule, new, record_sent_frame, record_received_frame, image_chunk_is_due,
}

-- What a session does with its schedule.
pub data Activity : Type 0 where
  sent received : Frame → Activity

abbrev pub observe : ImageTransferSchedule → List Activity → ImageTransferSchedule
observe s [] = s
observe s (sent f ∷ rest) = observe (record_sent_frame s f) rest
observe s (received f ∷ rest) = observe (record_received_frame s f) rest

-- What a frame makes of the count: a chunk sent starts it anew, a clipboard frame received is free.
abbrev pub after_sent : ℕ → Frame → ℕ
after_sent n (clipboard (image_chunk id offset bytes)) = 0
after_sent n (clipboard (text_chunk id offset bytes)) = 0
after_sent n _ = n + 1

abbrev pub after_received : ℕ → Frame → ℕ
after_received n (clipboard event) = n
after_received n _ = n + 1

-- The frames counted since the last chunk, with no bound on the count.
abbrev pub spent : ℕ → List Activity → ℕ
spent n [] = n
spent n (sent f ∷ rest) = spent (after_sent n f) rest
spent n (received f ∷ rest) = spent (after_received n f) rest

count_sent :
    (s : ImageTransferSchedule) (f : Frame) (n : ℕ)
    → s.high_priority_frames_since_chunk ≡ min u8_max n
    → (record_sent_frame s f).high_priority_frames_since_chunk ≡ min u8_max (after_sent n f)
unfolding record_sent_frame
count_sent s f n h = ground arith

count_received :
    (s : ImageTransferSchedule) (f : Frame) (n : ℕ)
    → s.high_priority_frames_since_chunk ≡ min u8_max n
    → (record_received_frame s f).high_priority_frames_since_chunk ≡ min u8_max (after_received n f)
unfolding record_received_frame
count_received s f n h = ground arith

count_observed :
    (acts : List Activity) (s : ImageTransferSchedule) (n : ℕ)
    → s.high_priority_frames_since_chunk ≡ min u8_max n
    → (observe s acts).high_priority_frames_since_chunk ≡ min u8_max (spent n acts)
count_observed [] s n h = h
count_observed (sent f ∷ rest) s n h = count_observed rest _ _ (count_sent s f n h)
count_observed (received f ∷ rest) s n h = count_observed rest _ _ (count_received s f n h)

-- After any frames sent and received, a chunk is due exactly when at least 64 of them count since
-- the last chunk sent: every frame sent but a chunk counts, and every frame received but a
-- clipboard frame. The 8-bit counter that saturates never gives another answer.
pub image_chunk_is_due-observe :
    (acts : List Activity) → image_chunk_is_due (observe new acts) ≡ leb 64 (spent 0 acts)
unfolding image_chunk_is_due new
image_chunk_is_due-observe acts =
    ground (arith, count_observed acts (record { high_priority_frames_since_chunk = 0 }) 0)
