-- ===== src/Grid.antt =====
-- Output/SimulatedLED.c: the LED grid that is drawn on the console. malloc is a parameter: it
-- gives no block, or one of the wanted length with unknown contents.
pub mod Valid
pub mod Draw
pub mod Frame
pub mod Init
pub mod Ended
pub mod Setup
use ledcontroller.Prelude.{
  ℕ, zero, suc, ◌*◌, ◌%◌, ◌^◌, ◌||◌, List, [], ◌∷◌, ◌++◌, Option, none, some, ltb, leb, ◌==◌,
  if◌then◌else◌, length, get_elem?, set,
}
use ledcontroller.Led.{Rgb, black}
use ledcontroller.Run.{Outcome, Run, done, fault, waiting, modify, ◌>>◌}
use ledcontroller.Stdin.{fgets, is_empty_line, hu_hu_in_range, sscanf_hu_hu}
use ledcontroller.Device.{Device, for_leds}
use mathlib.Core.Option

-- What is drawn: `clear` is system("clear"), `cell` one printed LED. Prompts are left out.
pub data Print : Type 0 where
  clear line_break : Print
  cell : Rgb → Print

-- The file's statics, with stdin and what was drawn so far.
pub record Grid : Type 0 where
  pub input : List ℕ
  pub screen : List Print
  pub row_length : ℕ
  pub column_length : ℕ
  pub number_of_leds : ℕ
  pub output_grid : Option (List Rgb)

pub default_row_number : ℕ
default_row_number = 3

pub default_column_number : ℕ
default_column_number = 10

-- outputGrid[address] = rgb, which needs a block that is long enough.
write_led : ℕ → Rgb → Grid → Option Grid
write_led address rgb g = elim g.output_grid [
  | none ↦ none
  | some leds ↦
      if ltb address (length leds)
      then some (record g { output_grid = some (set leds address rgb) })
      else none
]

-- The argument is an unsigned short.
unfoldable pub set_led : ℕ → Rgb → Grid → Option Grid
unfolding write_led
set_led address rgb g =
    let index = address % 2 ^ 16 in
    if ltb index g.number_of_leds then write_led index rgb g else some g

-- What initLedGrid does with the two numbers of a line.
pub store_sizes : ℕ → ℕ → Grid → Grid
store_sizes rows columns g =
    if leb rows 0 || leb columns 0
    then g
    else record g { row_length = rows; column_length = columns }

-- The loop of initLedGrid that asks for the size, with its locals userInput, tmpRows and
-- tmpColumns. Reading a buffer that was never written is undefined, as is a number that an
-- `unsigned short` does not hold.
read_sizes : ℕ → Option (List ℕ) → ℕ → ℕ → Run Grid (Unit {0})
unfolding store_sizes
read_sizes zero buffer rows columns g = waiting g
read_sizes (suc fuel) buffer rows columns g =
    let (user_input, rest) = fgets g.input buffer in
    let next = record g { input = rest } in
    let asked : Outcome Grid (Unit {0}) = elim user_input [
      | none ↦ fault
      | some line ↦
          let (rows', columns') = sscanf_hu_hu line rows columns in
          let again =
            read_sizes fuel (some line) rows' columns' (store_sizes rows' columns' next) in
          if is_empty_line line
          then done tt (record next {
            row_length = default_row_number;
            column_length = default_column_number;
          })
          else if hu_hu_in_range line
          then again
          else fault
    ] in
    if leb rows 0 || leb columns 0 then asked else done tt g

module _ (malloc : ℕ → Option (List Rgb)) where
  -- The rest of initLedGrid. A product that an `int` cannot hold is undefined.
  make_grid : Run Grid (Unit {0})
  make_grid g =
      let product = g.row_length * g.column_length in
      let count = product % 2 ^ 16 in
      if leb (2 ^ 31) product
      then fault
      else (elim (for_leds set_led count 0 black
          (record g { number_of_leds = count; output_grid = malloc count })) [
            | none ↦ fault
            | some filled ↦ done tt filled
          ])

  unfoldable pub init_led_grid : ℕ → Run Grid (Unit {0})
  unfolding read_sizes make_grid
  init_led_grid fuel = do
    modify λ g. record g { screen = g.screen ++ clear ∷ [] }
    read_sizes fuel none 0 0
    make_grid

-- The loop of printLedGrid, with `left` rounds to go; `index % 0` is undefined.
unfoldable pub print_leds : List Rgb → ℕ → ℕ → ℕ → Option (List Print)
print_leds leds columns zero index = some []
print_leds leds columns (suc left) index =
    let rest = print_leds leds columns left (suc index) in
    let row_end : List Print = if suc index % columns == 0 then line_break ∷ [] else [] in
    elim (get_elem? leds index) [
      | none ↦ none
      | some led ↦
          if columns == 0 then none else Option.map (λ tail. cell led ∷ (row_end ++ tail)) rest
    ]

unfoldable pub print_led_grid : Grid → Option Grid
unfolding print_leds
print_led_grid g = elim g.output_grid [
  | none ↦
      if g.number_of_leds == 0
      then some (record g { screen = g.screen ++ (clear ∷ line_break ∷ []) })
      else none
  | some leds ↦
      Option.map (λ text. record g { screen = g.screen ++ (clear ∷ (text ++ line_break ∷ [])) })
        (print_leds leds g.column_length g.number_of_leds 0)
]

unfoldable pub clean_led_grid : Grid → Grid
clean_led_grid g = record g { output_grid = none }

abbrev pub simulated : (malloc : ℕ → Option (List Rgb)) → Device Grid
simulated malloc = record {
  init_led_grid = init_led_grid malloc;
  row_length = λ g. g.row_length;
  column_length = λ g. g.column_length;
  set_led = set_led;
  print_led_grid = print_led_grid;
  clean_led_grid = clean_led_grid;
}
