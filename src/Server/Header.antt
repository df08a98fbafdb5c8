-- ===== src/Server/Header.antt =====
-- Server/LEDServer.h: the functions of the server, as a client sees them. `S` is the server's state.
use ledcontroller.Prelude.{ℕ, ◌≡◌, Bool, List, ◌++◌, length}
use ledcontroller.Led.{AddressableLed}
use ledcontroller.Wire.{update_text}
use ledcontroller.Network.{Network}
use ledcontroller.Run.{Outcome, done, exited, fault, waiting, Run}
use ledcontroller.Server.{Server, row_size, column_size}
use ledcontroller.Server.Connect.{get_output_informations, server_close}
use ledcontroller.Server.Translate.{translate_to_output}
use ledcontroller.Server.Translate.Sending.{sequence_bytes, HasPlaces}

pub record LedServer (S : Type 0) : Type 0 where
  pub server_close : Run S (Unit {0})
  pub translate_to_output : List AddressableLed → ℕ → Run S (Unit {0})
  -- What is typed goes in, and what is left of it comes out.
  pub get_output_informations : List ℕ → Run S (List ℕ)
  pub row_size : S → ℕ
  pub column_size : S → ℕ

-- What playing a sequence relies on: where the server is ready for a grid of that size,
-- translateToOutput returns, has written the frames of the sequence and UPDT, and is ready again.
pub record Translates {S : Type 0} (server : LedServer S) (Ready : ℕ → ℕ → S → Type 0)
    (sent : S → List ℕ) : Type 0 where
  pub translates :
      (rows columns : ℕ) (leds : List AddressableLed) (s : S)
      → Ready rows columns s
      → HasPlaces columns leds
      → (s' : S) × (server.translate_to_output leds (length leds) s ≡ done tt s')
        × Ready rows columns s'
        × (sent s' ≡ sent s ++ (sequence_bytes rows columns leds ++ update_text))

-- The value of a run that returns is what is left of the console.
abbrev pub console_left : {W : Type 0} → Outcome (Server W) (Unit {0}) → Outcome (Server W) (List ℕ)
console_left (done a s) = done s.input s
console_left (exited code s) = exited code s
console_left fault = fault
console_left (waiting s) = waiting s

-- Server/LEDServer.c. `lines` bounds the lines asked of the console, `ticks` those of one wait.
abbrev pub led_server : {W : Type 0} → Network W → Bool → ℕ → ℕ → LedServer (Server W)
led_server net signed lines ticks = record {
  server_close = server_close net signed ticks;
  translate_to_output = translate_to_output net signed ticks;
  get_output_informations = λ input s.
      console_left (get_output_informations net signed lines ticks (record s { input = input }));
  row_size = row_size;
  column_size = column_size;
}
