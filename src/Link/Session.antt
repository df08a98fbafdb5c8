-- ===== src/Link/Session.antt =====
-- From the console of the server program to the LEDs of the output program.
use mathlib.Core.List.{append-nil}
use ledcontroller.Prelude.{
  ℕ, ◌≤◌, ◌<◌, ◌≡◌, refl, sym, ◌∙◌, Bool, true, List, [], ◌∷◌, ◌++◌, length, replicate, All,
}
use ledcontroller.Led.{Rgb}
use ledcontroller.Network.{Network, ev_rd}
use ledcontroller.Network.Links.{IsStream, IsWritable}
use ledcontroller.Run.{done, each}
use ledcontroller.Device.{Device, IsFrame}
use ledcontroller.Json.{Jsmn, Sequences}
use ledcontroller.Json.Store.{led_bytes, sequence_bytes}
use ledcontroller.Json.Store.Stored.{Sequence, IsStored}
use ledcontroller.Json.File.{Files}
use ledcontroller.Json.Header.{json_to_leds}
use ledcontroller.Json.Contract.{Describes, json_to_leds-Extracts}
use ledcontroller.Server.{Server}
use ledcontroller.Server.Header.{led_server}
use ledcontroller.Server.Contract.{IsReady, led_server-Translates}
use ledcontroller.Input.Console.{Console}
use ledcontroller.Input.Playing.{IsPlayable}
use ledcontroller.Input.Menus.{begin_console_input}
use ledcontroller.Input.Requests.{Request, session_bytes, FileSession, begin_console_input-Serves}
use ledcontroller.Output.{Output}
use ledcontroller.Output.Routine.{led_communication}
use ledcontroller.Output.Valid.{IsOutput}
use ledcontroller.Link.Sequence.{IsReadableSize}
use ledcontroller.Link.Reading.{read_events-apply_all}
use ledcontroller.Link.Show.{session_picture, session-Carries}

module _ {V W D : Type 0} (net : Network V) (signed : Bool) {Up : V → Type 0} {sent : V → List ℕ}
    {bound : ℕ} (link : IsWritable net Up sent bound) (server_socket : ℕ) (files : Files)
    (jsmn : Jsmn) (output_net : Network W) (device : Device D) (output_signed : Bool)
    {IsFramed : D → Type 0} {leds : D → List Rgb} (frame_of : IsFrame device IsFramed leds)
    (socket : ℕ) {pending : W → List ℕ} (stream : IsStream output_net socket pending) where
  -- Let the console hold a session of `rs`, uses of the file menu: each file exists, can be closed
  -- and describes sequences, at least one, with delays of at most 2147 milliseconds and places that
  -- an `int` holds. The connection is up and takes what is written within the fuel of a wait; the
  -- menu has fuel for one choice more than `rs`; all memory is granted, and a pointer has at
  -- most four bytes (`sequence_bytes` within `led_bytes`); the grid has at most 65536 LEDs, and at most 128 if the
  -- output's `char` is signed. Then `beginConsoleInput` returns 0, with what follows the session
  -- unread and the connection ready again, and an output program in a valid state, which has to
  -- read just what was written, reads all of it in finitely many read events, stays valid and shows
  -- the sequences, each painted over the ones before.
  pub begin_console_input-picture :
      (ticks : ℕ) (enough : bound ≤ ticks) (pointer_bytes : ℕ)
      (fits : sequence_bytes pointer_bytes ≤ led_bytes) (grants gives : ℕ → Bool)
      (granted : (n : ℕ) → grants n ≡ true) (given : (n : ℕ) → gives n ≡ true) (rand : ℕ → ℕ)
      (rows columns asks lines rounds : ℕ) (size : IsReadableSize output_signed rows columns)
      (rs : List Request) (rest : List ℕ) (held : List Sequence) (c : Console (Server V) Sequences)
      (o : List ℕ → Output W D)
      → FileSession lines rest rs c.input
      → length rs < rounds
      → IsReady net signed link server_socket rows columns c.server
      → IsStored held c.sequences
      → All
          (λ (r : Request).
            Describes files jsmn r.path (r.first ∷ r.later)
            × All (IsPlayable columns) (r.first ∷ r.later))
          rs
      → ((bytes : List ℕ) → IsOutput IsFramed (o bytes))
      → ((bytes : List ℕ) → pending (o bytes).world ≡ bytes)
      → (c' : Console (Server V) Sequences) × (begin_console_input
            (led_server net signed asks ticks)
            (json_to_leds files jsmn grants pointer_bytes)
            gives
            rand
            rounds
            lines
            c
          ≡ done 0 c')
        × (c'.input ≡ rest)
        × IsReady net signed link server_socket rows columns c'.server
        × (bytes : List ℕ) × (sent c'.server.world ≡ sent c.server.world ++ bytes)
        × (events : ℕ) × (o' : Output W D) × (each
              (λ (event, sender). led_communication output_net device output_signed event sender)
              (replicate events (ev_rd, socket))
              (o bytes)
            ≡ done tt o')
        × IsOutput IsFramed o'
        × (leds o'.device ≡ session_picture rows columns rs (leds (o bytes).device))
        × (pending o'.world ≡ [])
  begin_console_input-picture ticks enough pointer_bytes fits grants gives granted given rand rows
        columns asks lines rounds size rs rest held c o typed more ready holds able valid brings =
      let (s', t', held', runs, ready', holds', sends) =
        begin_console_input-Serves (led_server net signed asks ticks)
          (json_to_leds files jsmn grants pointer_bytes) gives rand
          (led_server-Translates net signed link server_socket asks ticks enough)
          (json_to_leds-Extracts files jsmn grants granted pointer_bytes fits) given rows columns
          lines rounds rs rest held c typed more ready holds able in
      let bytes = session_bytes rows columns rs in
      let (ms, carries) = session-Carries output_signed rows columns size rs in
      let (o', reads, valid', shown, after) =
        read_events-apply_all output_net device output_signed frame_of socket stream ms (o bytes) []
          carries.readable (valid bytes) (brings bytes ∙ sym carries.framed ∙ sym (append-nil _)) in
      (
        _,
        runs,
        refl,
        ready',
        bytes,
        sends,
        length ms,
        o',
        reads,
        valid',
        shown ∙ carries.applied (leds (o bytes).device),
        after,
      )
