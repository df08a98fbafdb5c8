-- ===== src/Grid/Init.antt =====
-- initLedGrid: the dialogue about the size, and the grid that it makes.
use ledcontroller.Prelude.{
  ℕ, zero, suc, ◌*◌, ◌%◌, ◌^◌, ◌≤◌, ◌<◌, ◌≡◌, refl, ◌⊎◌, inl, ap, ◌∙◌, true, false, List, [], ◌∷◌,
  ◌++◌, Option, none, some, arith, length, replicate,
}
use ledcontroller.Led.{Rgb, black}
use ledcontroller.Run.{done}
use ledcontroller.Stdin.{fgets, is_empty_line, hu_hu_in_range, sscanf_hu_hu}
use ledcontroller.Stdin.Bounds.{sscanf_hu_hu-lt}
use ledcontroller.Device.Paint.{for_leds-paint, paint-all}
use ledcontroller.Grid.{
  Grid, clear, default_row_number, default_column_number, store_sizes, read_sizes, make_grid,
  init_led_grid, simulated,
}
use ledcontroller.Grid.Valid.{IsGrid, leds_of}
use ledcontroller.Grid.Frame.{simulated-IsFrame}

-- `Dialogue rows columns input n r c rest`: with `rows` and `columns` read so far, the `n` lines at
-- the head of `input` end with the choice of `r` rows and `c` columns, and leave `rest`;
-- an `unsigned short` holds each number.
pub data Dialogue : ℕ → ℕ → List ℕ → ℕ → ℕ → ℕ → List ℕ → Type 0 where
  keep_default :
      {rows columns : ℕ} {input : List ℕ} (line rest : List ℕ)
      → fgets input none ≡ (some line, rest)
      → is_empty_line line ≡ true
      → Dialogue rows columns input 1 default_row_number default_column_number rest
  typed :
      {rows columns : ℕ} {input : List ℕ} (line rest : List ℕ) (r c : ℕ)
      → fgets input none ≡ (some line, rest)
      → is_empty_line line ≡ false
      → hu_hu_in_range line ≡ true
      → sscanf_hu_hu line rows columns ≡ (r, c)
      → 0 < r
      → 0 < c
      → Dialogue rows columns input 1 r c rest
  refused :
      {rows columns : ℕ} {input : List ℕ} {n r c : ℕ} {rest : List ℕ} (line next : List ℕ) (a b : ℕ)
      → fgets input none ≡ (some line, next)
      → is_empty_line line ≡ false
      → hu_hu_in_range line ≡ true
      → sscanf_hu_hu line rows columns ≡ (a, b)
      → (a ≡ 0) ⊎ (b ≡ 0)
      → Dialogue a b next n r c rest
      → Dialogue rows columns input (suc n) r c rest

fgets_any :
    (input : List ℕ) (buffer : Option (List ℕ)) (line rest : List ℕ)
    → fgets input none ≡ (some line, rest)
    → fgets input buffer ≡ (some line, rest)
unfolding fgets
fgets_any [] buffer line rest e = cc
fgets_any (c ∷ input) buffer line rest e = e

abbrev sized : Grid → ℕ → ℕ → List ℕ → Grid
sized g r c rest = record g { input = rest; row_length = r; column_length = c }

-- One round of the loop.
module _ (fuel : ℕ) (buffer : Option (List ℕ)) (rows columns : ℕ) (g : Grid) (line rest : List ℕ)
    (unset : (rows ≡ 0) ⊎ (columns ≡ 0)) (read : fgets g.input none ≡ (some line, rest)) where
  round_default :
      is_empty_line line ≡ true
      → read_sizes (suc fuel) buffer rows columns g
        ≡ done tt (sized g default_row_number default_column_number rest)
  unfolding read_sizes
  round_default empty = ground (arith, fgets_any g.input buffer line rest read)

  round_typed :
      (r c : ℕ)
      → is_empty_line line ≡ false
      → hu_hu_in_range line ≡ true
      → sscanf_hu_hu line rows columns ≡ (r, c)
      → read_sizes (suc fuel) buffer rows columns g
        ≡ read_sizes fuel (some line) r c (store_sizes r c (record g { input = rest }))
  unfolding read_sizes
  round_typed r c some_text held scan = ground (arith, fgets_any g.input buffer line rest read)

pub store_sizes_unset : (a b : ℕ) (g : Grid) → (a ≡ 0) ⊎ (b ≡ 0) → store_sizes a b g ≡ g
unfolding store_sizes
store_sizes_unset a b g h = ground arith

read_sizes-Dialogue :
    {rows columns : ℕ} {input : List ℕ} {n r c : ℕ} {rest : List ℕ}
    (d : Dialogue rows columns input n r c rest) (fuel : ℕ) (buffer : Option (List ℕ)) (g : Grid)
    → g.input ≡ input
    → (rows ≡ 0) ⊎ (columns ≡ 0)
    → n < fuel
    → read_sizes fuel buffer rows columns g ≡ done tt (sized g r c rest)
read_sizes-Dialogue d zero buffer g e u h = absurd (omega arith)
read_sizes-Dialogue {rows} {columns} (keep_default line rest read empty) (suc fuel) buffer g e u h =
    round_default fuel buffer rows columns g line rest u (rw e read) empty
read_sizes-Dialogue {rows} {columns} (typed line rest r c read full held scan pr pc) (suc zero)
      buffer g e u h =
    absurd (omega arith)
read_sizes-Dialogue {rows} {columns} (typed line rest r c read full held scan pr pc)
      (suc (suc fuel)) buffer g e u h =
    round_typed (suc fuel) buffer rows columns g line rest u (rw e read) r c full held scan
    ∙ unfold read_sizes in ground arith
read_sizes-Dialogue {rows} {columns} (refused line next a b read full held scan zero_one d)
      (suc fuel) buffer g e u h =
    round_typed fuel buffer rows columns g line next u (rw e read) a b full held scan
    ∙ rw (store_sizes_unset a b (record g { input = next }) zero_one) (
        read_sizes-Dialogue d fuel (some line) (record g { input = next }) refl zero_one
          (omega arith))

Dialogue-lt :
    {rows columns : ℕ} {input : List ℕ} {n r c : ℕ} {rest : List ℕ}
    → Dialogue rows columns input n r c rest
    → rows < 2 ^ 16
    → columns < 2 ^ 16
    → (1 ≤ r) × (r < 2 ^ 16) × (1 ≤ c) × (c < 2 ^ 16)
Dialogue-lt (keep_default line rest read empty) hr hc =
    unfold default_row_number default_column_number in omega arith
Dialogue-lt {rows} {columns} (typed line rest r c read full held scan pr pc) hr hc =
    ground (arith, sscanf_hu_hu-lt line rows columns hr hc)
Dialogue-lt {rows} {columns} (refused line next a b read full held scan unset d) hr hc =
    let bound = sscanf_hu_hu-lt line rows columns hr hc in
    Dialogue-lt d (ground (arith, bound)) (ground (arith, bound))

-- malloc finds memory, and gives a block of the wanted length.
abbrev pub HasMemory : (ℕ → Option (List Rgb)) → Type 0
HasMemory malloc = (n : ℕ) → (block : List Rgb) × (malloc n ≡ some block) × (length block ≡ n)

module _ (malloc : ℕ → Option (List Rgb)) (memory : HasMemory malloc) where
  make_grid_lem :
      (g : Grid)
      → (1 ≤ g.row_length) × (g.row_length < 2 ^ 16)
      → (1 ≤ g.column_length) × (g.column_length < 2 ^ 16)
      → g.row_length * g.column_length < 2 ^ 31
      → (g' : Grid) × (make_grid malloc g ≡ done tt g')
        × IsGrid g'
        × (g'.row_length ≡ g.row_length)
        × (g'.column_length ≡ g.column_length)
        × (leds_of g' ≡ replicate (g.row_length * g.column_length % 2 ^ 16) black)
  unfolding make_grid
  make_grid_lem g rows columns fits =
      let count = g.row_length * g.column_length % 2 ^ 16 in
      let (block, given, size) = memory count in
      let start : Grid = record g { number_of_leds = count; output_grid = malloc count } in
      let ready : IsGrid start = record {
        rows = rows;
        columns = columns;
        fits = fits;
        count = refl;
        block = ground (arith, given);
        size = ground (arith, given, size);
      } in
      let (g', runs, ready', painted, same_rows, same_columns) =
        for_leds-paint (simulated malloc) (simulated-IsFrame malloc) count 0 black start ready in
      (
        g',
        ground (arith, runs),
        ready',
        same_rows,
        same_columns,
        painted
            ∙ paint-all count black (leds_of start) (omega (arith, ready.size))
                (omega (arith, ready.size))
            ∙ ap (λ n. replicate n black) ready.size,
      )

  -- If malloc finds memory and the console's dialogue ends, after fewer lines than the fuel, with a
  -- size whose product an `int` holds, all numbers typed being in the range of an `unsigned short`,
  -- `initLedGrid` returns, whatever the grid was before: the grid
  -- has that size, its invariant holds, and every LED is black.
  pub init_led_grid_chosen :
      (g : Grid) (n r c : ℕ) (rest : List ℕ) (fuel : ℕ)
      → Dialogue 0 0 g.input n r c rest
      → n < fuel
      → r * c < 2 ^ 31
      → (g' : Grid) × (init_led_grid malloc fuel g ≡ done tt g')
        × IsGrid g'
        × (g'.row_length ≡ r)
        × (g'.column_length ≡ c)
        × (leds_of g' ≡ replicate (r * c % 2 ^ 16) black)
  unfolding init_led_grid
  init_led_grid_chosen g n r c rest fuel d enough fits =
      let started : Grid = record g { screen = g.screen ++ clear ∷ [] } in
      let bound = Dialogue-lt d (omega arith) (omega arith) in
      let asked = read_sizes-Dialogue d fuel none started refl (inl refl) enough in
      let (g', made, ready, rows, columns, painted) =
        make_grid_lem (sized started r c rest) (omega (arith, bound)) (omega (arith, bound)) fits in
      (g', rw asked made, ready, rows, columns, painted)
