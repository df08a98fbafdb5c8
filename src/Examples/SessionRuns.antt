-- ===== src/Examples/SessionRuns.antt =====
-- The theorems on whole sessions, at a console on which one file is shown.
use mathlib.Core.Option
use ledcontroller.Prelude.{
  ℕ, zero, suc, ◌≡◌, refl, inr, ap, true, List, [], ◌∷◌, ◌++◌, some, arith, replicate,
}
use ledcontroller.Stdin.{c_string}
use ledcontroller.Network.{ev_rd}
use ledcontroller.Run.{done, each}
use ledcontroller.Grid.{Grid, simulated}
use ledcontroller.Grid.Valid.{IsGrid, leds_of}
use ledcontroller.Grid.Frame.{simulated-IsFrame}
use ledcontroller.Json.{Sequences}
use ledcontroller.Json.File.{Files}
use ledcontroller.Json.Header.{json_to_leds}
use ledcontroller.Json.Contract.{Describes}
use ledcontroller.Server.{Server}
use ledcontroller.Server.Header.{led_server}
use ledcontroller.Server.Contract.{IsReady}
use ledcontroller.Server.Translate.Sending.{HasPlaces}
use ledcontroller.Input.Console.{Console}
use ledcontroller.Input.Choosing.{plain, minus}
use ledcontroller.Input.Choices.{taken}
use ledcontroller.Input.FileMenu.{IsAnswer}
use ledcontroller.Input.Menus.{begin_console_input}
use ledcontroller.Input.Requests.{Request, FileSession, ended, asked}
use ledcontroller.Output.{Output}
use ledcontroller.Output.Routine.{led_communication}
use ledcontroller.Output.Valid.{IsOutput}
use ledcontroller.Link.Show.{session_picture}
use ledcontroller.Link.Session.{begin_console_input-picture}
use ledcontroller.Examples.{
  World, loop, loop-IsStream, loop-IsWritable, memory, output_with, output_with-IsOutput,
}
use ledcontroller.Examples.JsonRuns.{text, tokenizer, granting, sequence, led, text-IsDocument}
use ledcontroller.Examples.InputRuns.{console, console-IsReady}

-- Every file has that text.
abbrev pub one_file : Files
one_file = record { contents = λ path. some text; closes = λ path. true }

-- The file "a", once.
abbrev pub shown : Request
shown = record { path = b'a' ∷ []; rounds = 1; first = sequence; later = [] }

pub one_file-Describes : Describes one_file tokenizer (b'a' ∷ []) (sequence ∷ [])
unfolding c_string
one_file-Describes = record {
  characters = text;
  opens = refl;
  closes = refl;
  says = record { document = text-IsDocument; few = omega arith };
}

pub led-HasPlaces : HasPlaces 3 (led ∷ [])
led-HasPlaces zero other at = rw (← ap (λ found. Option.get_or found led) at) (inr (omega arith))
led-HasPlaces (suc index) other at = cc

-- "2", "a", "1" and "-1"
abbrev pub typed : List ℕ
typed = 50 ∷ 10 ∷ b'a' ∷ 10 ∷ 49 ∷ 10 ∷ 45 ∷ 49 ∷ 10 ∷ b'x' ∷ []

typed-IsAnswer :
    IsAnswer
      (b'a' ∷ [])
      1
      (45 ∷ 49 ∷ 10 ∷ b'x' ∷ [])
      (b'a' ∷ 10 ∷ 49 ∷ 10 ∷ 45 ∷ 49 ∷ 10 ∷ b'x' ∷ [])
typed-IsAnswer = record {
  number = 49 ∷ [];
  typed = refl;
  path_chars = (omega arith, tt);
  path_some = omega arith;
  path_short = omega arith;
  number_text = plain (1 ∷ [], (omega arith, (omega arith, tt)), refl, refl) (omega arith);
  number_short = omega arith;
}

pub typed-FileSession : FileSession 0 (b'x' ∷ []) (shown ∷ []) typed
typed-FileSession =
    asked {count = 0}
      (taken (plain (2 ∷ [], (omega arith, (omega arith, tt)), refl, refl) (omega arith))
        (omega arith) refl)
      (omega arith) typed-IsAnswer
      (ended {n = 0} {count = 0}
        (taken (minus (1 ∷ [], (omega arith, (omega arith, tt)), refl, refl) (omega arith))
          (omega arith) refl)
        (omega arith))

begin_console_input-picture_example :
    (c' : Console (Server World) Sequences) × (begin_console_input
        (led_server loop true 0 1)
        (json_to_leds one_file tokenizer granting 4)
        granting
        (λ n. n)
        2
        0
        (console typed)
      ≡ done 0 c')
    × (c'.input ≡ b'x' ∷ [])
    × IsReady loop true loop-IsWritable 1 2 3 c'.server
    × (bytes : List ℕ) × (c'.server.world.1 ≡ [] ++ bytes)
    × (events : ℕ) × (o' : Output World Grid) × (each
          (λ (event, sender). led_communication loop (simulated memory) true event sender)
          (replicate events (ev_rd, 1))
          (output_with bytes)
        ≡ done tt o')
    × IsOutput IsGrid o'
    × (leds_of o'.device ≡ session_picture 2 3 (shown ∷ []) (leds_of (output_with bytes).device))
    × (o'.world.0 ≡ [])
begin_console_input-picture_example =
    begin_console_input-picture loop true loop-IsWritable 1 one_file tokenizer loop
      (simulated memory) true (simulated-IsFrame memory) 1 (loop-IsStream 1) 1 (omega arith) 4
      (omega arith) granting granting (λ n. refl) (λ n. refl) (λ n. n) 2 3 0 0 2
      (omega arith, inr (omega arith)) (shown ∷ []) (b'x' ∷ []) [] (console typed) output_with
      typed-FileSession (omega arith) console-IsReady
      (record { array = inr (refl, refl); number = refl; room = omega arith; bounded = tt })
      ((one_file-Describes, ((omega arith, led-HasPlaces), tt)), tt) output_with-IsOutput
      (λ bytes. refl)
