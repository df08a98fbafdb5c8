-- ===== src/Input/Filling.antt =====
-- Input/LEDInput.c: the random filling example. Sleeping is left out; `rand` gives the values of
-- the calls of rand, in their order.
use ledcontroller.Prelude.{
  ℕ, zero, suc, ◌+◌, ◌-◌, ◌*◌, ◌/◌, ◌%◌, ◌^◌, Bool, ◌&&◌, ◌||◌, List, [], ◌∷◌, ltb, leb, ◌==◌,
  if◌then◌else◌,
}
use ledcontroller.Led.{Rgb, AddressableLed, black}
use ledcontroller.Run.{Run, done, pure, gets, undefined, ◌>>=◌, ◌>>◌}
use ledcontroller.Server.Header.{LedServer}
use ledcontroller.Input.{led}
use ledcontroller.Input.Console.{Console, on_server}

-- The two LEDs of one step: the LED before goes dark.
unfoldable pub random_leds : ℕ → ℕ → Rgb → List AddressableLed
random_leds columns position color =
    let before =
      if position == 0
      then led (position / columns) (position % columns) black
      else led ((position - 1) / columns) ((position - 1) % columns) black in
    before ∷ led (position / columns) (position % columns) color ∷ []

-- A colour that is too dark becomes grey.
unfoldable pub bright : Rgb → Rgb
bright color =
    if ltb (color.red + color.green + color.blue) 30
    then record { red = 15; green = 15; blue = 15 }
    else color

module _ {S T : Type 0} (server : LedServer S) (rand : ℕ → ℕ) where
  random_color : Run (Console S T) Rgb
  unfolding bright
  random_color s =
      done
        (bright (record {
          red = rand s.draws % 256;
          green = rand (s.draws + 1) % 256;
          blue = rand (s.draws + 2) % 256;
        }))
        (record s { draws = s.draws + 3 })

  -- The for loop, from `position` on with `left` rounds to go.
  fill_row : ℕ → Rgb → ℕ → ℕ → Run (Console S T) (Unit {0})
  unfolding random_leds
  fill_row columns color zero position = pure tt
  fill_row columns color (suc left) position = do
    on_server (server.translate_to_output (random_leds columns position color) 2)
    fill_row columns color left (suc position)

  -- The while loop, with nbrOfLEDsToGenerate to go.
  fill : ℕ → ℕ → Run (Console S T) (Unit {0})
  unfolding random_color fill_row
  fill columns zero = pure tt
  fill columns (suc left) = do
    color ← random_color
    fill_row columns color (suc left) 0
    fill columns left

  -- `first` and `second` say whether malloc gives the two blocks; the product of the sizes is an
  -- int, and cut to 16 bits.
  unfoldable pub print_random_filling_example : Bool → Bool → Run (Console S T) (Unit {0})
  unfolding fill
  print_random_filling_example first second = do
    rows ← gets (λ s. server.row_size s.server)
    columns ← gets (λ s. server.column_size s.server)
    let n = rows * columns % 2 ^ 16
    if leb (2 ^ 31) (rows * columns)
        then undefined
        else (if n == 0 || (first && second) then fill columns n else undefined)
