-- ===== src/Strip/Missing.antt =====
-- Output/WS2812b_STM32F4Disc.c against Output/LEDConsoleOut.h.
use mathlib.Core.Option
use ledcontroller.Prelude.{
  ℕ, ◌≡◌, sym, ap, ◌∙◌, List, [], ◌∷◌, Option, some, arith, length, set, get_or,
}
use ledcontroller.Led.{Rgb, black}
use ledcontroller.Device.{IsFrame}
use ledcontroller.Strip.{Strip, set_led, strip}

set_led-same : (address : ℕ) (rgb : Rgb) (s : Strip) → set_led address rgb s ≡ some s
unfolding set_led
set_led-same address rgb s = ground arith

-- A list that no write of a colour at its head changes is empty.
same_head : (leds : List Rgb) → ((rgb : Rgb) → leds ≡ set leds 0 rgb) → length leds ≡ 300 → ⊥
same_head [] same long = absurd (omega arith)
same_head (led ∷ leds) same long =
    let red_0 = ap (λ l. (get_or l 0 black).red) (same black) in
    let red_1 = ap (λ l. (get_or l 0 black).red) (same (record { red = 1; green = 0; blue = 0 })) in
    omega (arith, red_0, red_1)

-- The strip does not fulfil what Output/LEDConsoleOut.h promises: whatever is taken for the colours
-- of its LEDs, and for being ready, if any state is ready then its `setLed` is not that of a device.
pub strip-no-IsFrame :
    (malloc : ℕ → Option (List ℕ)) (IsReady : Strip → Type 0) (leds : Strip → List Rgb) (s : Strip)
    → IsReady s
    → ¬ IsFrame (strip malloc) IsReady leds
strip-no-IsFrame malloc IsReady leds s ready frame =
    let (_, _, _, _, _, size) = frame.size_ready s ready in same_head (leds s) unchanged size
  where
    unchanged : (rgb : Rgb) → leds s ≡ set (leds s) 0 rgb
    unchanged rgb =
        let (s', runs, _, written, _, _) = frame.set_ready 0 rgb s ready in
        let same : s ≡ s' =
          ap (λ found. Option.get_or found s) (sym (set_led-same 0 rgb s) ∙ runs) in
        ap leds same ∙ written
