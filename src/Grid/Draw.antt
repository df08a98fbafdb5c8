-- ===== src/Grid/Draw.antt =====
-- Output/SimulatedLED.c: printLedGrid, and the picture that it is to draw.
use ledcontroller.Prelude.{
  ℕ, zero, suc, ◌+◌, ◌*◌, ◌%◌, ◌^◌, ◌≤◌, ◌<◌, ◌≡◌, refl, ap, ◌∙◌, List, [], ◌∷◌, ◌++◌, map, some,
  arith, ◌==◌, if◌then◌else◌, length, take, drop, drop_step, drop_all, length-drop,
}
use ledcontroller.Led.{Rgb}
use ledcontroller.Grid.{Print, clear, cell, line_break, Grid, print_leds, print_led_grid}
use ledcontroller.Grid.Valid.{IsGrid, leds_of}

-- The drawing of `rows` lines with `columns` LEDs each.
abbrev pub drawing : ℕ → ℕ → List Rgb → List Print
drawing zero columns leds = []
drawing (suc rows) columns leds =
    map cell (take columns leds) ++ (line_break ∷ drawing rows columns (drop columns leds))

-- The loop as a recursion on the LEDs left.
abbrev cells : ℕ → ℕ → List Rgb → List Print
cells columns index [] = []
cells columns index (led ∷ leds) =
    cell led
    ∷ ((if suc index % columns == 0 then line_break ∷ [] else []) ++ cells columns (suc index) leds)

print_leds-cells :
    (leds : List Rgb) (columns left index : ℕ)
    → 0 < columns
    → index + left ≡ length leds
    → print_leds leds columns left index ≡ some (cells columns index (drop index leds))
unfolding print_leds
print_leds-cells leds columns zero index pos e = rw (drop_all leds index (omega arith)) refl
print_leds-cells leds columns (suc left) index pos e = ground (
  arith,
  drop_step leds index (omega arith),
  print_leds-cells leds columns left (suc index) pos (omega arith),
)

suc-mod_below : (i c : ℕ) → suc (i % c) < c → suc i % c ≡ suc (i % c)
suc-mod_below i c h = grind arith

suc-mod_wrap : (i c : ℕ) → 0 < c → suc (i % c) ≡ c → suc i % c ≡ 0
suc-mod_wrap i c pos h = grind arith

-- From a place inside a row: the rest of the row, its end, and the next row.
cells_row :
    (columns index m : ℕ) (leds : List Rgb)
    → index % columns + suc m ≡ columns
    → suc m ≤ length leds
    → cells columns index leds
      ≡ map cell (take (suc m) leds)
        ++ (line_break ∷ cells columns (index + suc m) (drop (suc m) leds))
cells_row columns index m [] e h = absurd (omega arith)
cells_row columns index zero (led ∷ leds) e h =
    let i : suc index ≡ index + 1 = omega arith in
    rw (suc-mod_wrap index columns (omega arith) (omega arith), i) refl
cells_row columns index (suc m) (led ∷ leds) e h =
    let next : suc index % columns ≡ suc (index % columns) =
      suc-mod_below index columns (omega arith) in
    let i : suc index + suc m ≡ index + suc (suc m) = omega arith in
    rw (next, ← i)
      (ground (arith, cells_row columns (suc index) m leds (omega arith) (omega arith)))

mod_next_row : (i c : ℕ) → 0 < c → i % c ≡ 0 → (i + c) % c ≡ 0
mod_next_row i c pos h = grind arith

cells-drawing :
    (rows columns index : ℕ) (leds : List Rgb)
    → 0 < columns
    → index % columns ≡ 0
    → length leds ≡ rows * columns
    → cells columns index leds ≡ drawing rows columns leds
cells-drawing zero columns index [] pos start e = refl
cells-drawing zero columns index (x ∷ leds) pos start e = absurd (omega arith)
cells-drawing (suc rows) zero index leds pos start e = absurd (omega arith)
cells-drawing (suc rows) (suc k) index leds pos start e =
    let rest =
      cells-drawing rows (suc k) (index + suc k) (drop (suc k) leds) pos
        (mod_next_row index (suc k) pos start) (omega (arith, length-drop (suc k) leds)) in
    cells_row (suc k) index k leds (omega arith) (omega arith)
    ∙ ap (λ tail. map cell (take (suc k) leds) ++ (line_break ∷ tail)) rest

-- `printLedGrid` cannot fault on an initialised grid, and only draws.
pub print_led_grid_total :
    (g : Grid)
    → IsGrid g
    → (text : List Print) × (print_led_grid g ≡ some (record g { screen = g.screen ++ text }))
unfolding print_led_grid
print_led_grid_total g v = (
  clear ∷ (cells g.column_length 0 (leds_of g) ++ line_break ∷ []),
  ground (
    arith,
    v.block,
    print_leds-cells (leds_of g) g.column_length g.number_of_leds 0 v.columns.0
        (omega (arith, v.size)),
  ),
)

-- On an initialised grid of at most 65535 LEDs `printLedGrid` clears the screen and draws exactly
-- the rows of the grid, each followed by a line break, and a last line break; the LEDs stay.
pub print_led_grid-drawing :
    (g : Grid)
    → IsGrid g
    → g.row_length * g.column_length < 2 ^ 16
    → print_led_grid g
      ≡ some (record g {
        screen =
            g.screen
            ++ (clear ∷ (drawing g.row_length g.column_length (leds_of g) ++ line_break ∷ []));
      })
unfolding print_led_grid
print_led_grid-drawing g v small = ground (
  arith,
  v.block,
  print_leds-cells (leds_of g) g.column_length g.number_of_leds 0 (v.columns.0)
      (omega (arith, v.size)),
  cells-drawing g.row_length g.column_length 0 (leds_of g) v.columns.0 (omega arith)
      (omega (arith, v.size, v.count)),
)
