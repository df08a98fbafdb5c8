-- ===== src/Link.antt =====
-- Both programs together: Server/LEDServer.c sends, Output/LEDConsoleOut.c reads.
pub mod Reading
pub mod Sequence
pub mod Picture
pub mod Show
pub mod Session
pub mod Program
use ledcontroller.Prelude.{ℕ, List, [], ◌∷◌, ◌++◌}
use ledcontroller.Led.{Rgb}
use ledcontroller.Wire.Messages.{Message, frame, apply}

-- The bytes of messages sent one after the other, and what they do to the LEDs.
abbrev pub frames : List Message → List ℕ
frames [] = []
frames (m ∷ ms) = frame m ++ frames ms

abbrev pub apply_all : List Message → List Rgb → List Rgb
apply_all [] leds = leds
apply_all (m ∷ ms) leds = apply_all ms (apply m leds)
