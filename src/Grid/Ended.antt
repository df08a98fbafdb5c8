-- ===== src/Grid/Ended.antt =====
-- initLedGrid when the console ends before a size was chosen: fgets fails, and nothing tests that.
use ledcontroller.Prelude.{
  ℕ, zero, suc, ◌≡◌, refl, ◌∙◌, false, true, ◌⊎◌, inl, List, [], ◌∷◌, ◌++◌, Option, none, some,
  arith,
}
use ledcontroller.Led.{Rgb}
use ledcontroller.Run.{waiting}
use ledcontroller.Stdin.{fgets, is_empty_line, hu_hu_in_range, sscanf_hu_hu}
use ledcontroller.Grid.Init.{store_sizes_unset}
use ledcontroller.Grid.{Grid, clear, read_sizes, init_led_grid}

module _ (line : List ℕ) (a b : ℕ) (unset : (a ≡ 0) ⊎ (b ≡ 0))
    (some_text : is_empty_line line ≡ false) (held : hu_hu_in_range line ≡ true) where
  round_again :
      (fuel rows columns : ℕ) (buffer : Option (List ℕ)) (g : Grid) (rest : List ℕ)
      → (rows ≡ 0) ⊎ (columns ≡ 0)
      → fgets g.input buffer ≡ (some line, rest)
      → sscanf_hu_hu line rows columns ≡ (a, b)
      → read_sizes (suc fuel) buffer rows columns g
        ≡ read_sizes fuel (some line) a b (record g { input = rest })
  unfolding read_sizes
  round_again fuel rows columns buffer g rest missing read scan =
      ground (arith, store_sizes_unset a b (record g { input = rest }) unset)

  starved :
      (fuel : ℕ) (g : Grid)
      → g.input ≡ []
      → sscanf_hu_hu line a b ≡ (a, b)
      → read_sizes fuel (some line) a b g ≡ waiting (record g { input = [] })
  starved zero g ended again = unfold read_sizes in ground arith
  starved (suc fuel) g ended again =
      round_again fuel a b (some line) g [] unset (unfold fgets in rw ended) again
      ∙ starved fuel (record g { input = [] }) refl again

  -- If the console has just one line, of text that chooses no size, with numbers in the range of an
  -- `unsigned short`, and reading it again gives the same numbers, `initLedGrid` never returns: it
  -- reads that line over and over, for any fuel of one round or more.
  pub init_led_grid_starved :
      (malloc : ℕ → Option (List Rgb)) (g : Grid) (fuel : ℕ)
      → fgets g.input none ≡ (some line, [])
      → sscanf_hu_hu line 0 0 ≡ (a, b)
      → sscanf_hu_hu line a b ≡ (a, b)
      → init_led_grid malloc (suc fuel) g
        ≡ waiting (record g { input = []; screen = g.screen ++ clear ∷ [] })
  unfolding init_led_grid
  init_led_grid_starved malloc g fuel read scan again =
      let started : Grid = record g { screen = g.screen ++ clear ∷ [] } in
      rw (
        round_again fuel 0 0 none started [] (inl refl) read scan,
        starved fuel (record started { input = [] }) refl again,
      )
