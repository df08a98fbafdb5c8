-- ===== src/Examples/GridRuns.antt =====
-- The theorems on the simulated grid and its console, at concrete runs.
use ledcontroller.Prelude.{ℕ, ◌^◌, ◌<◌, ◌≡◌, refl, inl, List, [], ◌∷◌, ◌++◌, some, arith, replicate}
use ledcontroller.Led.{black}
use ledcontroller.Run.{done}
use ledcontroller.Stdin.{fgets, is_empty_line, hu_hu_in_range, sscanf_hu_hu}
use ledcontroller.Stdin.Bounds.{sscanf_hu_hu-lt}
use ledcontroller.Grid.{Grid, clear, line_break, set_led, print_led_grid, init_led_grid}
use ledcontroller.Grid.Valid.{IsGrid, leds_of}
use ledcontroller.Grid.Draw.{drawing, print_led_grid-drawing}
use ledcontroller.Grid.Frame.{set_led-update}
use ledcontroller.Grid.Init.{Dialogue, typed, refused, init_led_grid_chosen}
use ledcontroller.Run.{waiting}
use ledcontroller.Grid.Ended.{init_led_grid_starved}
use ledcontroller.Examples.{memory, memory-HasMemory, red, small_grid, small_grid-IsGrid}

-- An address beyond 16 bits is cut to 16 bits.
set_led-update_example :
    (g : Grid) × (set_led 65541 red small_grid ≡ some g)
    × IsGrid g
    × (leds_of g ≡ replicate 5 black ++ red ∷ [])
    × (g.row_length ≡ 2)
    × (g.column_length ≡ 3)
    × (g.screen ≡ [])
set_led-update_example = set_led-update 65541 red small_grid small_grid-IsGrid

print_led_grid-drawing_example :
    print_led_grid small_grid
    ≡ some (record small_grid {
      screen = clear ∷ (drawing 2 3 (replicate 6 black) ++ line_break ∷ []);
    })
print_led_grid-drawing_example = print_led_grid-drawing small_grid small_grid-IsGrid (omega arith)

-- The lines "0 1" and "2 3".
abbrev console : List ℕ
console = 0x30 ∷ 0x20 ∷ 0x31 ∷ 10 ∷ 0x32 ∷ 0x20 ∷ 0x33 ∷ 10 ∷ []

console-Dialogue : Dialogue 0 0 console 2 2 3 []
unfolding fgets is_empty_line hu_hu_in_range sscanf_hu_hu
console-Dialogue =
    refused (0x30 ∷ 0x20 ∷ 0x31 ∷ 10 ∷ []) (0x32 ∷ 0x20 ∷ 0x33 ∷ 10 ∷ []) 0 1 refl refl refl refl
      (inl refl)
      (typed (0x32 ∷ 0x20 ∷ 0x33 ∷ 10 ∷ []) [] 2 3 refl refl refl refl (omega arith) (omega arith))

init_led_grid_chosen_example :
    (g : Grid) × (init_led_grid memory 3 (record small_grid { input = console }) ≡ done tt g)
    × IsGrid g
    × (g.row_length ≡ 2)
    × (g.column_length ≡ 3)
    × (leds_of g ≡ replicate 6 black)
init_led_grid_chosen_example =
    init_led_grid_chosen memory memory-HasMemory (record small_grid { input = console }) 2 2 3 [] 3
      console-Dialogue (omega arith) (omega arith)

-- The line "70000 7".
sscanf_hu_hu-lt_example :
    ((sscanf_hu_hu (0x37 ∷ 0x30 ∷ 0x30 ∷ 0x30 ∷ 0x30 ∷ 0x20 ∷ 0x37 ∷ 10 ∷ []) 0 0).0 < 2 ^ 16)
    × ((sscanf_hu_hu (0x37 ∷ 0x30 ∷ 0x30 ∷ 0x30 ∷ 0x30 ∷ 0x20 ∷ 0x37 ∷ 10 ∷ []) 0 0).1 < 2 ^ 16)
sscanf_hu_hu-lt_example =
    sscanf_hu_hu-lt (0x37 ∷ 0x30 ∷ 0x30 ∷ 0x30 ∷ 0x30 ∷ 0x20 ∷ 0x37 ∷ 10 ∷ []) 0 0 (omega arith)
      (omega arith)

-- The console "0 1", which ends there.
init_led_grid_starved_example :
    init_led_grid memory 100 (record small_grid { input = 0x30 ∷ 0x20 ∷ 0x31 ∷ 10 ∷ [] })
    ≡ waiting (record small_grid { input = []; screen = clear ∷ [] })
unfolding fgets is_empty_line hu_hu_in_range sscanf_hu_hu
init_led_grid_starved_example =
    init_led_grid_starved (0x30 ∷ 0x20 ∷ 0x31 ∷ 10 ∷ []) 0 1 (inl refl) refl refl memory
      (record small_grid { input = 0x30 ∷ 0x20 ∷ 0x31 ∷ 10 ∷ [] }) 99 refl refl refl
