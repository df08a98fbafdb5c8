-- ===== src/Wire/Messages.antt =====
-- The messages of the protocol, as an abstract description of what both programs exchange: the
-- bytes of each, and what it asks of the LEDs.
use mathlib.Core.Logic.{◌⊎◌}
use ledcontroller.Prelude.{
  ℕ, ◌^◌, ◌<◌, ◌≡◌, Bool, false, List, [], ◌∷◌, ◌++◌, length, set, replicate,
}
use ledcontroller.Led.{Rgb}
use ledcontroller.Wire.{low_byte, high_byte, size_text, reset_text, set_text, update_text}

pub data Message : Type 0 where
  ask_size update : Message
  reset_all : Rgb → Message
  set_led : ℕ → Rgb → Message

abbrev pub text : Message → List ℕ
text ask_size = size_text
text update = update_text
text (reset_all rgb) = reset_text
text (set_led address rgb) = set_text

abbrev pub rgb_bytes : Rgb → List ℕ
rgb_bytes rgb = rgb.red ∷ rgb.green ∷ rgb.blue ∷ []

abbrev pub payload : Message → List ℕ
payload ask_size = []
payload update = []
payload (reset_all rgb) = rgb_bytes rgb
payload (set_led address rgb) = high_byte address ∷ low_byte address ∷ rgb_bytes rgb

abbrev pub frame : Message → List ℕ
frame m = text m ++ payload m

-- What a message does to the LEDs.
abbrev pub apply : Message → List Rgb → List Rgb
apply ask_size leds = leds
apply update leds = leds
apply (reset_all rgb) leds = replicate (length leds) rgb
apply (set_led address rgb) leds = set leds address rgb

-- Addresses that the receiver reads back: all, unless `char` is signed.
abbrev pub Readable : Bool → ℕ → Type 0
Readable signed address = (address < 2 ^ 16) × ((signed ≡ false) ⊎ (low_byte address < 128))

abbrev pub IsReadable : Bool → Message → Type 0
IsReadable signed ask_size = Unit
IsReadable signed update = Unit
IsReadable signed (reset_all rgb) = Unit
IsReadable signed (set_led address rgb) = Readable signed address
