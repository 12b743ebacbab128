-- ===== src/Examples/Keys.antt =====
-- Key codes and pinned keys.
use mouse_without_borders.Base.{String, ◌≡◌, refl, true, some}
use mouse_without_borders.Keymap.{
  WindowsScanCode, windows_scancode_to_evdev, evdev_to_windows_scancode,
}
use mouse_without_borders.Keymap.RoundTrip.{windows_scancode_to_evdev-evdev_to_windows_scancode}
use mouse_without_borders.Crypto.Pins.{PinStore, all_features, empty, pin, pin_phone}

-- The up arrow: scan code 0x48, extended, and evdev code 103.
abbrev up : WindowsScanCode
up = record { scan_code = 0x48; extended = true }

up_sent : evdev_to_windows_scancode 103 ≡ some up
unfolding evdev_to_windows_scancode
up_sent = refl

up_injected : windows_scancode_to_evdev up ≡ some 103
unfolding windows_scancode_to_evdev
up_injected = refl

windows_scancode_to_evdev-evdev_to_windows_scancode_example :
    windows_scancode_to_evdev up ≡ some 103
windows_scancode_to_evdev-evdev_to_windows_scancode_example =
    windows_scancode_to_evdev-evdev_to_windows_scancode 103 up up_sent

abbrev desk : String
desk = "desk"

abbrev lap : String
lap = "lap"

abbrev pixel : String
pixel = "pixel"

abbrev key1 : String
key1 = "k1"

abbrev key2 : String
key2 = "k2"

abbrev key3 : String
key3 = "k3"

abbrev store : PinStore
store = pin empty desk key1

abbrev phones : PinStore
phones = pin_phone store pixel key2 all_features
