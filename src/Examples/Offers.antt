-- ===== src/Examples/Offers.antt =====
-- Offers of clipboard contents, and the schedule of chunks.
use mouse_without_borders.Base.{
  ℕ, zero, suc, true, false, ◌++◌, ◌≡◌, refl, Option, none, some, List, [], ◌∷◌, arith,
}
use mouse_without_borders.Protocol.Frame.{heartbeat, clipboard}
use mouse_without_borders.Protocol.Clipboard.{image_chunk}
use mouse_without_borders.Clipboard.Image.{ClipboardContentId, text_id}
use mouse_without_borders.Clipboard.Tracker.{
  ClipboardChangeTracker, mark_observed, offer_current, offer_if_changed,
}
use mouse_without_borders.Clipboard.Tracker.Offers.{
  Call, offers_changed, no_echo, offered, offered-AreConsecutive, AreConsecutive,
}
use mouse_without_borders.Clipboard.Schedule.Budget.{
  Activity, sent, received, observe, image_chunk_is_due-observe,
}
use mouse_without_borders.Clipboard.Schedule.{new, image_chunk_is_due}

abbrev tracker : ClipboardChangeTracker
tracker = record { sequence = 4; last_observed = none }

abbrev seen : Option ClipboardContentId
seen = some (text_id (1 ∷ 2 ∷ []))

no_echo_example :
    (offer_if_changed (mark_observed tracker seen) seen ≡ (mark_observed tracker seen, none))
    × (offer_if_changed (offer_current tracker seen).0 seen
        ≡ ((offer_current tracker seen).0, none))
no_echo_example = no_echo tracker seen

abbrev calls : List Call
calls = offers_changed seen ∷ offers_changed seen ∷ offers_changed (some (text_id (3 ∷ []))) ∷ []

two_offers : offered tracker calls ≡ 5 ∷ 6 ∷ []
unfolding offered offer_if_changed offer_current
two_offers = refl

offered-AreConsecutive_example : AreConsecutive 4 (offered tracker calls)
offered-AreConsecutive_example = offered-AreConsecutive tracker calls (omega arith)

abbrev repeat : ℕ → Activity → List Activity
repeat zero activity = []
repeat (suc n) activity = activity ∷ repeat n activity

abbrev busy : List Activity
busy =
    sent (heartbeat (record { sequence = 1 }))
    ∷ repeat 63 (received (heartbeat (record { sequence = 2 })))

-- 64 heartbeats make a chunk due; sending it starts the count anew.
image_chunk_is_due-observe_example : image_chunk_is_due (observe new busy) ≡ true
image_chunk_is_due-observe_example = image_chunk_is_due-observe busy

not_due_after_chunk :
    image_chunk_is_due (observe new (busy ++ sent (clipboard (image_chunk 1 0 [])) ∷ [])) ≡ false
not_due_after_chunk =
    image_chunk_is_due-observe (busy ++ sent (clipboard (image_chunk 1 0 [])) ∷ [])
