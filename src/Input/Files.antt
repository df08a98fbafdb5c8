-- ===== src/Input/Files.antt =====
-- Input/LEDInput.c: the file menu, which plays the sequences of a file. Texts for the user and
-- sleeping are left out.
use mathlib.Core.Option
use ledcontroller.Prelude.{
  ℕ, zero, suc, ◌*◌, ◌^◌, Bool, true, false, ◌&&◌, not, List, [], ◌∷◌, Option, none, some, ℤ, pos,
  negsuc, ltb, leb, ◌==◌, if◌then◌else◌, length,
}
use ledcontroller.Led.{AddressableLed, Cell, unset, null, holds, LedSequence}
use ledcontroller.Stdin.{fgets, c_string}
use ledcontroller.Run.{Run, pure, undefined, ◌>>=◌, ◌>>◌}
use ledcontroller.Json.{JsonResult}
use ledcontroller.Json.Walk.{Written}
use ledcontroller.Server.Header.{LedServer}
use ledcontroller.Json.Header.{JsonToLeds}
use ledcontroller.Input.Console.{block, Console, on_server, on_sequences, read_int}

-- The characters before a line break: what %[^\n] converts.
unfoldable pub before_break : List ℕ → List ℕ
before_break [] = []
before_break (c ∷ cs) = let rest = before_break cs in if c == 10 then [] else c ∷ rest

-- The path in the block of strlen(line) chars. Without a character there, the block is not
-- written; without a line break, the closing NUL lies past its end.
unfoldable pub file_path : List ℕ → Option (List ℕ)
unfolding before_break
file_path line =
    let text = c_string line in
    let path = before_break text in
    if ltb 0 (length path) && ltb (length path) (length text) then some path else none

-- The LEDs that an array of pointers begins with.
abbrev pub led_list : List (Cell AddressableLed) → List AddressableLed
led_list [] = []
led_list (unset ∷ rest) = []
led_list (null ∷ rest) = []
led_list (holds led ∷ rest) = led ∷ led_list rest

module _ {S T : Type 0} where
  -- The delay in nanoseconds is an int product.
  unfoldable pub pause : Bool → LedSequence → Run (Console S T) (Unit {0})
  pause first q = if not first && leb (2 ^ 31) (q.delay * 1000000) then undefined else pure tt

module _ {S T : Type 0} (server : LedServer S) where
  -- One round through the array; it gives firstSequence.
  unfoldable pub play_round : Bool → List (Cell LedSequence) → Run (Console S T) Bool
  unfolding pause
  play_round first [] = undefined
  play_round first (unset ∷ rest) = undefined
  play_round first (null ∷ rest) = pure first
  play_round first (holds q ∷ rest) = do
    pause first q
    on_server
        (server.translate_to_output (led_list (Option.get_or q.led_to_change [])) q.sequence_length)
    play_round false rest

  -- The loop over the rounds.
  unfoldable pub play : ℕ → Bool → List (Cell LedSequence) → Run (Console S T) (Unit {0})
  unfolding play_round
  play zero first cells = pure tt
  play (suc left) first cells = do first' ← play_round first cells; play left first' cells

  -- A round through NULL is undefined.
  unfoldable pub play_loops : ℤ → Option (List (Cell LedSequence)) → Run (Console S T) (Unit {0})
  unfolding play
  play_loops (negsuc n) shown = pure tt
  play_loops (pos n) none = if n == 0 then pure tt else undefined
  play_loops (pos n) (some cells) = play n true cells

  module _ (json : JsonToLeds T) (gives : ℕ → Bool) where
    -- sequencesToShow is NULL if it is not written.
    unfoldable pub show_file : List ℕ → JsonResult × Written → Run (Console S T) (Unit {0})
    unfolding read_int play_loops
    show_file line (JsonResult.all_ok, written) = do
      (line', loops) ← read_int (some line) (pos 0)
      play_loops loops (Option.get_or written none)
      on_sequences json.free_led_sequences
    show_file line (_, written) = pure tt

    unfoldable pub extract_and_show : List ℕ → Option (List ℕ) → Run (Console S T) (Unit {0})
    unfolding show_file
    extract_and_show line none = undefined
    extract_and_show line (some path) = do
      on_sequences json.init_led_sequences
      answer ← on_sequences (json.extract_rgb_from_file path)
      show_file line answer

    unfoldable pub with_line : Option (List ℕ) → Run (Console S T) (Unit {0})
    unfolding extract_and_show block
    with_line none = undefined
    with_line (some line) = do
      granted ← block gives
      if granted then extract_and_show line (file_path line) else pure tt

    unfoldable pub file_menu : Run (Console S T) (Unit {0})
    unfolding with_line
    file_menu s =
        let (buffer, rest) = fgets s.input none in with_line buffer (record s { input = rest })
