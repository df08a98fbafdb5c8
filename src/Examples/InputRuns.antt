-- ===== src/Examples/InputRuns.antt =====
-- The theorems on Input/LEDInput.c, at concrete runs.
use mathlib.Core.Option
use ledcontroller.Prelude.{
  ℕ, zero, suc, ◌<◌, ◌+◌, ◌≡◌, refl, inr, ap, Bool, true, false, List, [], ◌∷◌, none, some, arith,
  pos, negsuc, map,
}
use ledcontroller.Run.{done, fault}
use ledcontroller.Json.{Jsmn, Sequences}
use ledcontroller.Json.File.{Files}
use ledcontroller.Json.Store.Arrays.{closed}
use ledcontroller.Json.Store.Stored.{Sequence, stored}
use ledcontroller.Server.Translate.Sending.{HasPlaces}
use ledcontroller.Server.{Server}
use ledcontroller.Server.Header.{LedServer, Translates, led_server}
use ledcontroller.Server.Contract.{IsReady, led_server-Translates}
use ledcontroller.Json.Header.{JsonToLeds, json_to_leds}
use ledcontroller.Input.Console.{Console}
use ledcontroller.Input.Choosing.{IsNumberText, plain, minus}
use ledcontroller.Input.Choices.{ChoiceLines, taken, refused, left_with, choose_input-ChoiceLines}
use ledcontroller.Input.Menus.{choose_input, begin_console_input}
use ledcontroller.Input.Files.{play_loops, file_menu}
use ledcontroller.Input.Session.{
  Returned, IsChoice, choose_input-IsChoice, begin_console_input-zero,
  begin_console_input-ChoiceLines, file_menu-fault,
}
use ledcontroller.Input.Pauses.{play_loops-overflow}
use ledcontroller.Input.Playing.{Sends, play_bytes, play_loops-Sends}
use ledcontroller.Examples.{World, loop, loop-IsWritable, server_with, led_at}

abbrev pub nothing_extracted : Sequences
nothing_extracted = record {
  extracted_sequences = none;
  is_initialized = false;
  number_of_sequences = 0;
  calls = 0;
}

abbrev pub console : List ℕ → Console (Server World) Sequences
console input = record {
  server = server_with [];
  sequences = nothing_extracted;
  input = input;
  blocks = 0;
  draws = 0;
}

abbrev no_files : Files
no_files = record { contents = λ path. none; closes = λ path. true }

abbrev no_tokens : Jsmn
no_tokens = record { count = λ text. pos 0; parse = λ text n. (pos 0, []) }

abbrev server : LedServer (Server World)
server = led_server loop true 1 1

abbrev json : JsonToLeds Sequences
json = json_to_leds no_files no_tokens (λ n. true) 4

abbrev gives : ℕ → Bool
gives n = true

digit-IsNumberText : (d : ℕ) → d < 10 → IsNumberText ((48 + d) ∷ []) (pos d)
digit-IsNumberText d small =
    plain (d ∷ [], (omega arith, (small, tt)), refl, omega arith) (omega (arith, small))

-- "7", which is refused, then "2".
two_lines : ChoiceLines (pos 2) (b'x' ∷ []) (55 ∷ 10 ∷ 50 ∷ 10 ∷ b'x' ∷ []) 1
two_lines =
    refused (digit-IsNumberText 7 (omega arith)) (omega arith) refl
      (taken (digit-IsNumberText 2 (omega arith)) (omega arith) refl)

choose_input-ChoiceLines_example :
    choose_input 1 (console (55 ∷ 10 ∷ 50 ∷ 10 ∷ b'x' ∷ []))
    ≡ done (pos 2) (left_with (console (55 ∷ 10 ∷ 50 ∷ 10 ∷ b'x' ∷ [])) (b'x' ∷ []))
choose_input-ChoiceLines_example =
    choose_input-ChoiceLines 1 1 (pos 2) (b'x' ∷ []) (console (55 ∷ 10 ∷ 50 ∷ 10 ∷ b'x' ∷ []))
      two_lines (omega arith)

choose_input-IsChoice_example :
    Returned IsChoice (choose_input 1 (console (55 ∷ 10 ∷ 50 ∷ 10 ∷ [])))
choose_input-IsChoice_example = choose_input-IsChoice 1 (console (55 ∷ 10 ∷ 50 ∷ 10 ∷ []))

-- "-1"
ending : ChoiceLines (negsuc 0) [] (45 ∷ 49 ∷ 10 ∷ []) 0
ending =
    taken (minus (1 ∷ [], (omega arith, (omega arith, tt)), refl, refl) (omega arith)) (omega arith)
      refl

begin_console_input-zero_example :
    Returned
      (λ n. n ≡ 0)
      (begin_console_input server json gives (λ n. n) 2 1 (console (49 ∷ 10 ∷ 45 ∷ 49 ∷ 10 ∷ [])))
begin_console_input-zero_example =
    begin_console_input-zero server json gives (λ n. n) 2 1 (console (49 ∷ 10 ∷ 45 ∷ 49 ∷ 10 ∷ []))

begin_console_input-ChoiceLines_example :
    begin_console_input server json gives (λ n. n) 1 0 (console (45 ∷ 49 ∷ 10 ∷ []))
    ≡ done 0 (left_with (console (45 ∷ 49 ∷ 10 ∷ [])) [])
begin_console_input-ChoiceLines_example =
    begin_console_input-ChoiceLines server json gives (λ n. n) 0 0 0 0 []
      (console (45 ∷ 49 ∷ 10 ∷ [])) ending (omega arith)

file_menu-fault_example : file_menu server json gives (console (10 ∷ [])) ≡ fault
file_menu-fault_example = file_menu-fault server json gives [] (console (10 ∷ [])) refl refl

abbrev slow_sequence : Sequence
slow_sequence = record { delay = 3000; leds = led_at 0 1 ∷ [] }

abbrev quick_sequence : Sequence
quick_sequence = record { delay = 500; leds = led_at 0 1 ∷ [] }

quick-HasPlaces : HasPlaces 3 (led_at 0 1 ∷ [])
quick-HasPlaces zero led at =
    rw (← ap (λ found. Option.get_or found (led_at 0 0)) at) (inr (omega arith))
quick-HasPlaces (suc index) led at = cc

pub console-IsReady : IsReady loop true loop-IsWritable 1 2 3 (server_with [])
console-IsReady = record {
  opened = refl;
  connected = refl;
  up = tt;
  ten = refl;
  empty = refl;
  known_rows = refl;
  known_columns = refl;
}

server-Translates :
    Translates server (IsReady loop true loop-IsWritable 1) (λ (s : Server World). s.world.1)
server-Translates = led_server-Translates loop true loop-IsWritable 1 1 1 (omega arith)

play_loops-Sends_example :
    Sends server server-Translates 2 3
      (console [])
      (play_loops server (pos 2) (some (closed (map stored (quick_sequence ∷ [])))) (console []))
      tt
      (play_bytes 2 3 (quick_sequence ∷ []) 2)
play_loops-Sends_example =
    play_loops-Sends server server-Translates 2 3 2 (quick_sequence ∷ []) (console [])
      console-IsReady ((omega arith, quick-HasPlaces), tt)

play_loops-overflow_example :
    play_loops server
      (pos 1)
      (some (closed (map stored (quick_sequence ∷ slow_sequence ∷ []))))
      (console [])
    ≡ fault
play_loops-overflow_example =
    play_loops-overflow server server-Translates 2 3 0 quick_sequence slow_sequence [] (console [])
      console-IsReady quick-HasPlaces (omega arith)
