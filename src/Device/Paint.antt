-- ===== src/Device/Paint.antt =====
-- Painting all LEDs of a device in one colour, address by address: the loops of
-- Output/LEDConsoleOut.c and Output/SimulatedLED.c over setLed.
use mathlib.Core.List.{append-nil}
use ledcontroller.Prelude.{
  ℕ, zero, suc, ◌+◌, ◌%◌, ◌^◌, ◌≤◌, ◌≡◌, refl, ap, ◌∙◌, List, [], ◌∷◌, ◌++◌, some, arith, length,
  set, replicate, set-replicate,
}
use ledcontroller.Led.{Rgb}
use ledcontroller.Device.{Device, IsFrame, for_leds}

-- What the loop does to the list of colours; an address is cut to 16 bits.
abbrev pub paint : ℕ → ℕ → Rgb → List Rgb → List Rgb
paint zero index rgb leds = leds
paint (suc left) index rgb leds = paint left (suc index) rgb (set leds (index % 2 ^ 16) rgb)

set-replicate_self : (n i : ℕ) (v : Rgb) → set (replicate n v) i v ≡ replicate n v
set-replicate_self zero i v = refl
set-replicate_self (suc n) zero v = refl
set-replicate_self (suc n) (suc i) v = ap (◌∷◌ v) (set-replicate_self n i v)

paint-replicate : (left index n : ℕ) (v : Rgb) → paint left index v (replicate n v) ≡ replicate n v
paint-replicate zero index n v = refl
paint-replicate (suc left) index n v =
    rw (set-replicate_self n (index % 2 ^ 16) v) (paint-replicate left (suc index) n v)

paint-suffix :
    (left index : ℕ) (v : Rgb) (rest : List Rgb)
    → index + length rest ≤ 2 ^ 16
    → length rest ≤ left
    → paint left index v (replicate index v ++ rest) ≡ replicate (index + length rest) v
paint-suffix left index v [] fits enough =
    let e : index + 0 ≡ index = omega arith in
    rw (append-nil, e) (paint-replicate left index index v)
paint-suffix zero index v (x ∷ rest) fits enough = absurd (omega arith)
paint-suffix (suc left) index v (x ∷ rest) fits enough =
    let here : index % 2 ^ 16 ≡ index = omega arith in
    let e : suc index + length rest ≡ index + suc (length rest) = omega arith in
    rw (here, set-replicate index index v (x ∷ rest) refl (omega arith), ← e)
      (paint-suffix left (suc index) v rest (omega arith) (omega arith))

-- Enough rounds paint every LED, also when the addresses wrap.
pub paint-all :
    (left : ℕ) (v : Rgb) (leds : List Rgb)
    → length leds ≤ 2 ^ 16
    → length leds ≤ left
    → paint left 0 v leds ≡ replicate (length leds) v
paint-all left v leds fits enough =
    let e : 0 + length leds ≡ length leds = omega arith in
    rw e at (paint-suffix left 0 v leds (omega arith) enough)

module _ {D : Type 0} (device : Device D) {IsReady : D → Type 0} {leds : D → List Rgb}
    (frame : IsFrame device IsReady leds) where
  open device use {set_led, row_length, column_length}
  open frame use {set_ready}

  -- The loop cannot fault on an initialised device, and leaves its size alone.
  pub for_leds-paint :
      (left index : ℕ) (rgb : Rgb) (d : D)
      → IsReady d
      → (d' : D) × (for_leds set_led left index rgb d ≡ some d')
        × IsReady d'
        × (leds d' ≡ paint left index rgb (leds d))
        × (row_length d' ≡ row_length d)
        × (column_length d' ≡ column_length d)
  unfolding for_leds
  for_leds-paint zero index rgb d r = (d, refl, r, refl, refl, refl)
  for_leds-paint (suc left) index rgb d r =
      let (d1, e1, r1, l1, n1, m1) = set_ready index rgb d r in
      let (d2, e2, r2, l2, n2, m2) = for_leds-paint left (suc index) rgb d1 r1 in
      (d2, rw (e1, for_leds) e2, r2, l2 ∙ ap (paint left (suc index) rgb) l1, n2 ∙ n1, m2 ∙ m1)
