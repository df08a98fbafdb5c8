-- ===== src/Input/Menus.antt =====
-- Input/LEDInput.c: the menus of the console, and main of LEDTest.c. Texts for the user, sleeping
-- and the clearing of the screen are left out.
use ledcontroller.Prelude.{ℕ, zero, suc, Bool, List, Option, none, some, ℤ, pos, if◌then◌else◌}
use ledcontroller.Run.{Outcome, done, exited, fault, waiting, Run, pure, wait, ◌>>=◌, ◌>>◌}
use ledcontroller.Input.{print_blinking_example, print_cycling_example}
use ledcontroller.Server.Header.{LedServer}
use ledcontroller.Json.Header.{JsonToLeds}
use ledcontroller.Input.Console.{
  lift_server, block, Console, on_server, read_int, below, is_below_zero,
}
use ledcontroller.Input.Files.{file_menu}
use ledcontroller.Input.Filling.{print_random_filling_example}

-- enum E_LedInput, and the number that each of its names has.
pub data LedInput : Type 0 where
  led_examples led_manual led_file led_network : LedInput

abbrev pub led_input : ℤ → Option LedInput
led_input (pos zero) = some led_examples
led_input (pos (suc zero)) = some led_manual
led_input (pos (suc (suc zero))) = some led_file
led_input (pos (suc (suc (suc zero)))) = some led_network
led_input choice = none

-- MAXLEDINPUT
abbrev pub max_led_input : ℕ
max_led_input = 4

module _ {S T : Type 0} where
  -- The loop of chooseInput, with the line and the number that were read last.
  unfoldable pub choose_again : ℕ → List ℕ → ℤ → Run (Console S T) ℤ
  unfolding read_int
  choose_again zero line choice = if below choice max_led_input then pure choice else wait
  choose_again (suc lines) line choice =
      if below choice max_led_input
      then pure choice
      else (do (line', choice') ← read_int (some line) choice; choose_again lines line' choice')

  -- `lines` bounds the lines after the first.
  unfoldable pub choose_input : ℕ → Run (Console S T) ℤ
  unfolding read_int choose_again
  choose_input lines = do (line, choice) ← read_int none (pos 0); choose_again lines line choice

  -- manualMenu, which nothing calls; what it asks for is not read.
  manual_loop : ℕ → Option (List ℕ) → ℤ → Run (Console S T) (Unit {0})
  unfolding read_int
  manual_loop zero buffer choice = wait
  manual_loop (suc lines) buffer choice = do
    (line, choice') ← read_int buffer choice
    if is_below_zero choice' then pure tt else manual_loop lines (some line) choice'

  manual_menu : ℕ → Run (Console S T) (Unit {0})
  unfolding manual_loop
  manual_menu lines = manual_loop lines none (pos 0)

  -- networkMenu, which is empty and which nothing calls.
  network_menu : Run (Console S T) (Unit {0})
  network_menu = pure tt

  -- What follows the switch of beginConsoleInput: it returns a value, or the loop goes on.
  unfoldable pub go_back : Option ℕ → Run (Console S T) ℕ → Run (Console S T) ℕ
  go_back none again = again
  go_back (some n) again = pure n

  -- What is left of the console.
  unfoldable pub with_rest : Outcome (Console S T) (List ℕ) → Outcome (Console S T) (Unit {0})
  with_rest (done rest s) = done tt (record s { input = rest })
  with_rest (exited code s) = exited code s
  with_rest fault = fault
  with_rest (waiting s) = waiting s

module _ {S T : Type 0} (server : LedServer S) (json : JsonToLeds T) (gives : ℕ → Bool)
    (rand : ℕ → ℕ) where
  cycling : Run (Console S T) (Unit {0})
  unfolding block
  cycling = do
    first ← block gives
    second ← block gives
    on_server (print_cycling_example server first second)

  random_filling : Run (Console S T) (Unit {0})
  unfolding block
  random_filling = do
    first ← block gives
    second ← block gives
    print_random_filling_example server rand first second

  -- The two switches of exampleMenu; a number above 2 is refused.
  run_example : ℤ → Run (Console S T) (Unit {0})
  unfolding cycling random_filling
  run_example (pos zero) = on_server (print_blinking_example server)
  run_example (pos (suc zero)) = cycling
  run_example (pos (suc (suc zero))) = random_filling
  run_example choice = pure tt

  example_loop : ℕ → Option (List ℕ) → ℤ → Run (Console S T) (Unit {0})
  unfolding read_int run_example
  example_loop zero buffer choice = wait
  example_loop (suc lines) buffer choice = do
    (line, choice') ← read_int buffer choice
    if is_below_zero choice'
        then pure tt
        else (do run_example choice'; example_loop lines (some line) choice')

  unfoldable pub example_menu : ℕ → Run (Console S T) (Unit {0})
  unfolding example_loop
  example_menu lines = example_loop lines none (pos 0)

  -- The switch of beginConsoleInput: what it returns, if it ends the loop.
  unfoldable pub run_task : ℕ → Option LedInput → Run (Console S T) (Option ℕ)
  unfolding example_menu file_menu
  run_task lines (some led_examples) = do example_menu lines; pure none
  run_task lines (some led_manual) = pure none
  run_task lines (some led_file) = do file_menu server json gives; pure none
  run_task lines (some led_network) = pure none
  run_task lines none = pure (some 1)

  unfoldable pub run_choice : ℕ → ℤ → Run (Console S T) (Option ℕ)
  unfolding run_task
  run_choice lines choice = run_task lines (led_input choice)

  -- `rounds` bounds the choices, `lines` the lines that a menu reads.
  unfoldable pub begin_console_input : ℕ → ℕ → Run (Console S T) ℕ
  unfolding choose_input run_choice go_back
  begin_console_input zero lines = wait
  begin_console_input (suc rounds) lines = do
    choice ← choose_input lines
    if is_below_zero choice
        then pure 0
        else (do ended ← run_choice lines choice; go_back ended (begin_console_input rounds lines))

  -- getOutputInformations reads from the same console.
  unfoldable pub get_output : Run (Console S T) (Unit {0})
  unfolding with_rest
  get_output s = with_rest (lift_server s (server.get_output_informations s.input s.server))

  unfoldable pub main : ℕ → ℕ → Run (Console S T) ℕ
  unfolding get_output begin_console_input
  main rounds lines = do
    get_output
    result ← begin_console_input rounds lines
    on_server server.server_close
    pure result
