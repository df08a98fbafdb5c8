-- ===== src/Link/Program.antt =====
-- The whole run of the server program (LEDTest.c), and the LEDs of the output program.
use ledcontroller.Prelude.{
  ℕ, suc, ◌≤◌, ◌<◌, ◌≡◌, ap, ◌∙◌, Bool, true, false, List, [], ◌∷◌, ◌++◌, some, length, replicate,
  All,
}
use ledcontroller.Led.{Rgb}
use ledcontroller.Wire.Messages.{Readable}
use ledcontroller.Network.{Network, ev_rd}
use ledcontroller.Network.Links.{IsStream, IsWritable}
use ledcontroller.Network.Handshake.{Handshake, Closes}
use ledcontroller.Run.{done, each, continue, Run, ◌>>=◌, ◌>>◌, pure}
use ledcontroller.Device.{Device, IsFrame}
use ledcontroller.Json.{Jsmn, Sequences}
use ledcontroller.Json.Store.{led_bytes, sequence_bytes}
use ledcontroller.Json.Store.Stored.{Sequence, IsStored}
use ledcontroller.Json.File.{Files}
use ledcontroller.Json.Header.{json_to_leds}
use ledcontroller.Json.Contract.{Describes}
use ledcontroller.Server.{Server}
use ledcontroller.Server.Header.{led_server, console_left}
use ledcontroller.Server.Size.{length_bytes}
use ledcontroller.Server.Connect.{default_address, server_close}
use ledcontroller.Server.Connect.Starting.{get_output_informations-Known}
use ledcontroller.Server.Connect.Closing.{server_close-closed}
use ledcontroller.Input.Console.{Console, lift_server, on_server}
use ledcontroller.Input.Playing.{IsPlayable}
use ledcontroller.Input.Menus.{begin_console_input, get_output, with_rest, main}
use ledcontroller.Input.Requests.{Request, FileSession}
use ledcontroller.Output.{Output}
use ledcontroller.Output.Routine.{led_communication}
use ledcontroller.Output.Valid.{IsOutput}
use ledcontroller.Link.Sequence.{IsReadableSize}
use ledcontroller.Link.Show.{session_picture}
use ledcontroller.Link.Session.{begin_console_input-picture}

-- The statics as the program starts, with the default address kept on the console.
pub record IsStarting {V : Type 0} (Off : V → Type 0) (typed : List ℕ)
    (c : Console (Server V) Sequences) : Type 0 where
  pub console : c.input ≡ 10 ∷ typed
  pub off : Off c.server.world
  pub fresh : c.server.is_communication_initialized ≡ false
  pub closed : c.server.is_socket_opened ≡ false
  pub read_size : length c.server.read_buffer ≡ 10
  pub write_size : length c.server.write_buffer ≡ 10

module _ {V W D : Type 0} (net : Network V) (signed : Bool) {Up : V → Type 0} {sent : V → List ℕ}
    {bound : ℕ} (link : IsWritable net Up sent bound) (server_socket rows columns : ℕ)
    {Off Linked Linking Joined Asked Closing : V → Type 0} {left : V → ℕ}
    (shake : Handshake net server_socket
      (length_bytes rows columns)
      Off
      Linked
      Linking
      Joined
      Asked
      Up
      left)
    (closing : Closes net server_socket Up Closing left) (files : Files) (jsmn : Jsmn)
    (output_net : Network W) (device : Device D) (output_signed : Bool) {IsFramed : D → Type 0}
    {leds : D → List Rgb} (frame_of : IsFrame device IsFramed leds) (socket : ℕ)
    {pending : W → List ℕ} (stream : IsStream output_net socket pending) where
  -- Let the program start with the default address kept on the console and then a session of `rs`,
  -- uses of the file menu: each file exists, can be closed and describes sequences, at least one,
  -- with delays of at most 2147 milliseconds and places that an `int` holds. The stack makes the
  -- connection, delivers the answer to SIZE, takes what is written and closes the connection, each
  -- within the fuel of a wait; the menu has fuel for one choice more than `rs`; all memory is
  -- granted, and a pointer has at most four bytes (`sequence_bytes` within `led_bytes`); the grid has at most 65536
  -- LEDs, and at most 128 if the output's `char` is signed; both lengths are 16-bit numbers, whose
  -- low bytes lie below 128 if the server's `char` is signed. Then `main` returns 0: it has made
  -- the connection, run the session and closed the connection, with what follows the session
  -- unread. An output program in a valid state, which has to read just what was written in the
  -- session, reads all of it in finitely many read events, stays valid and shows the sequences,
  -- each painted over the ones before.
  pub main-picture :
      (ticks : ℕ) (enough : bound ≤ ticks) (some_left : (w : V) → left w < ticks)
      (pointer_bytes : ℕ) (fits : sequence_bytes pointer_bytes ≤ led_bytes)
      (grants gives : ℕ → Bool) (granted : (n : ℕ) → grants n ≡ true)
      (given : (n : ℕ) → gives n ≡ true) (rand : ℕ → ℕ) (asks lines rounds number : ℕ)
      (reads : net.string_to_ipv4 default_address ≡ some number) (rows_read : Readable signed rows)
      (columns_read : Readable signed columns) (size : IsReadableSize output_signed rows columns)
      (rs : List Request) (typed rest : List ℕ) (held : List Sequence)
      (c : Console (Server V) Sequences) (o : List ℕ → Output W D)
      → IsStarting Off typed c
      → FileSession lines rest rs typed
      → length rs < rounds
      → IsStored held c.sequences
      → All
          (λ (r : Request).
            Describes files jsmn r.path (r.first ∷ r.later)
            × All (IsPlayable columns) (r.first ∷ r.later))
          rs
      → ((bytes : List ℕ) → IsOutput IsFramed (o bytes))
      → ((bytes : List ℕ) → pending (o bytes).world ≡ bytes)
      → (c1 c2 c3 : Console (Server V) Sequences) × (bytes : List ℕ) × (get_output
            (led_server net signed (suc asks) ticks)
            (json_to_leds files jsmn grants pointer_bytes)
            gives
            rand
            c
          ≡ done tt c1)
        × (sent c2.server.world ≡ sent c1.server.world ++ bytes)
        × (server_close net signed ticks c2.server ≡ done tt c3.server)
        × (main
              (led_server net signed (suc asks) ticks)
              (json_to_leds files jsmn grants pointer_bytes)
              gives
              rand
              rounds
              lines
              c
            ≡ done 0 c3)
        × (c3.server.is_socket_opened ≡ false)
        × (c3.input ≡ rest)
        × (events : ℕ) × (o' : Output W D) × (each
              (λ (event, sender). led_communication output_net device output_signed event sender)
              (replicate events (ev_rd, socket))
              (o bytes)
            ≡ done tt o')
        × IsOutput IsFramed o'
        × (leds o'.device ≡ session_picture rows columns rs (leds (o bytes).device))
        × (pending o'.world ≡ [])
  unfolding main get_output with_rest
  main-picture ticks enough some_left pointer_bytes fits grants gives granted given rand asks lines
        rounds number reads rows_read columns_read size rs typed rest held c o start session more
        holds able valid brings =
      let server = led_server net signed (suc asks) ticks in
      let json = json_to_leds files jsmn grants pointer_bytes in
      let (s1, starts, known) =
        get_output_informations-Known net signed server_socket rows columns shake rows_read
          columns_read asks ticks number typed (record c.server { input = c.input }) some_left reads
          start.console start.off start.fresh start.closed start.read_size start.write_size in
      let c1 : Console (Server V) Sequences = record c { server = s1; input = s1.input } in
      let (c2, runs, after, ready, bytes, sends, events, o', reading, valid', shows, empty) =
        begin_console_input-picture net signed link server_socket files jsmn output_net device
          output_signed frame_of socket stream ticks enough pointer_bytes fits grants gives granted
          given rand rows columns (suc asks) lines rounds size rs rest held c1 o
          (rw known.typed session) more
          (record {
            opened = known.opened;
            connected = known.connected;
            up = known.up;
            ten = known.ten;
            empty = known.empty;
            known_rows = known.known_rows;
            known_columns = known.known_columns;
          })
          holds able valid brings in
      let (s3, closes, off) =
        server_close-closed net signed server_socket closing ticks c2.server some_left ready.up
          ready.connected ready.opened in
      let gets_output : get_output server json gives rand c ≡ done tt c1 =
        ap (λ o. with_rest (lift_server c (console_left o))) starts in
      let closing_run : ℕ → Run (Console (Server V) Sequences) ℕ =
        λ result. on_server server.server_close >> pure result in
      (
        c1,
        c2,
        record c2 { server = s3 },
        bytes,
        gets_output,
        sends,
        closes,
        ap (continue λ _. begin_console_input server json gives rand rounds lines >>= closing_run)
              gets_output
            ∙ ap (continue closing_run) runs
            ∙ ap (λ o. continue (λ _. pure 0) (lift_server c2 o)) closes,
        off,
        after,
        events,
        o',
        reading,
        valid',
        shows,
        empty,
      )
