-- ===== src/Examples/StartRuns.antt =====
-- The theorem on the whole run, at a network whose peer has two rows of three LEDs, and a file.
use ledcontroller.Prelude.{
  ℕ, ◌-◌, ◌≡◌, refl, true, false, ◌⊎◌, inl, inr, List, [], ◌∷◌, ◌++◌, none, some, arith, pos,
  length, replicate, ◌==◌, if◌then◌else◌,
}
use ledcontroller.Wire.{size_text, low_byte}
use ledcontroller.Network.{Network, Recv, received, ev_rd, ev_wr, ev_conn, ev_fin}
use ledcontroller.Network.Links.{IsWritable}
use ledcontroller.Network.Handshake.{Handshake, Closes}
use ledcontroller.Run.{done, each}
use ledcontroller.Grid.{Grid, simulated}
use ledcontroller.Grid.Valid.{IsGrid, leds_of}
use ledcontroller.Grid.Frame.{simulated-IsFrame}
use ledcontroller.Json.{Sequences}
use ledcontroller.Json.Header.{json_to_leds}
use ledcontroller.Server.{Server}
use ledcontroller.Server.Header.{led_server}
use ledcontroller.Server.Size.{length_bytes}
use ledcontroller.Server.Connect.{server_close}
use ledcontroller.Input.Console.{Console}
use ledcontroller.Input.Menus.{get_output, main}
use ledcontroller.Output.{Output}
use ledcontroller.Output.Routine.{led_communication}
use ledcontroller.Output.Valid.{IsOutput}
use ledcontroller.Link.Show.{session_picture}
use ledcontroller.Link.Program.{IsStarting, main-picture}
use ledcontroller.Examples.{World, loop, loop-IsStream, memory, output_with, output_with-IsOutput}
use ledcontroller.Examples.JsonRuns.{tokenizer, granting}
use ledcontroller.Examples.InputRuns.{nothing_extracted}
use ledcontroller.Examples.SessionRuns.{
  one_file, shown, typed, typed-FileSession, one_file-Describes, led-HasPlaces,
}

-- The stack counts, and keeps what was written: 1 with a device, 2 while it connects, 3 connected,
-- 4 and 5 after SIZE, 6 when the first half of the answer was read, 7 when all of it was, 8 closing.
abbrev Stack : Type 0
Stack = ℕ × List ℕ

abbrev stack_tick : Stack → Stack × List (ℕ × ℕ)
stack_tick w =
    if w.0 == 2
    then ((3, w.1), (ev_conn, 1) ∷ [])
    else if w.0 == 3
    then (w, (ev_wr, 1) ∷ [])
    else if w.0 == 4
    then ((5, w.1), [])
    else if w.0 == 5
    then (w, (ev_rd, 1) ∷ [])
    else if w.0 == 7
    then (w, (ev_wr, 1) ∷ [])
    else (w, (ev_fin, 1) ∷ [])

abbrev stack_read : Stack → Stack × Recv
stack_read w =
    if w.0 == 5 then ((6, w.1), received size_text) else ((7, w.1), received (length_bytes 2 3))

abbrev counting : Network Stack
counting = record {
  stack_init = λ w. w;
  stack_tick = stack_tick;
  vde_create = λ w path name mac. (w, some 7);
  link_add = λ w handle address mask. (1, w.1);
  socket_open = λ w. (w, some 1);
  socket_bind = λ w socket address port. (w, pos 0);
  socket_listen = λ w socket backlog. (w, pos 0);
  socket_connect = λ w socket address port. ((2, w.1), pos 0);
  socket_accept = λ w socket. (w, some 2);
  socket_read = λ w socket count. stack_read w;
  socket_write =
      λ w socket bytes. ((if w.0 == 3 then 4 else w.0, w.1 ++ bytes), pos (length bytes));
  socket_close = λ w socket. (8, w.1);
  string_to_ipv4 = λ text. some 1;
  short_be = λ n. n;
}

abbrev Asked : Stack → Type 0
Asked w = (w.0 ≡ 4) ⊎ (w.0 ≡ 5)

counting-Handshake :
    Handshake counting 1
      (length_bytes 2 3)
      (λ w. w.0 ≡ 0)
      (λ w. w.0 ≡ 1)
      (λ w. w.0 ≡ 2)
      (λ w. w.0 ≡ 3)
      Asked
      (λ w. w.0 ≡ 7)
      (λ w. 6 - w.0)
counting-Handshake = record {
  starts = λ w path name mac off. (w, 7, refl, λ address mask. refl);
  opens = λ w address port linked. (w, (2, w.1), refl, refl, refl);
  links = λ w e. inr ((3, w.1), rw e refl, refl);
  joins = λ w e. inr (w, (4, w.1 ++ size_text), rw e refl, rw e refl, inl refl, rw e (omega arith));
  answers = λ w a. elim a [
    | inl e ↦ inl ((5, w.1), rw e refl, inr refl, rw e (omega arith))
    | inr e ↦ inr (w, (6, w.1), (7, w.1), rw e refl, rw e refl, refl, refl)
  ];
}

counting-Closes : Closes counting 1 (λ w. w.0 ≡ 7) (λ w. w.0 ≡ 8) (λ w. 6 - w.0)
counting-Closes = record { closes = λ w up. refl; finishes = λ w e. inr (w, rw e refl) }

counting-IsWritable : IsWritable counting (λ w. w.0 ≡ 7) (λ w. w.1) 1
counting-IsWritable = record {
  delay = λ w. 0;
  delay_bound = λ w up. omega arith;
  tick_step = λ w up. inr (w, 1, rw up refl, up, refl);
  write_all = λ w socket bytes up. ((7, w.1 ++ bytes), rw up refl, refl, refl);
}

-- The program as it starts; the user keeps the default address.
abbrev starting : Console (Server Stack) Sequences
starting = record {
  server = record {
    world = (0, []);
    input = [];
    number_of_rows = 0;
    number_of_columns = 0;
    output_socket = none;
    vde_device = none;
    dest_ipv4_addr = 0;
    ipv4_addr = 0;
    net_mask = 0;
    port = 7777;
    response_from_output = false;
    is_communication_initialized = false;
    is_socket_opened = false;
    read_buffer = replicate 10 0;
    write_buffer = replicate 10 0;
    bytes_to_write = 0;
  };
  sequences = nothing_extracted;
  input = 10 ∷ typed;
  blocks = 0;
  draws = 0;
}

starting-IsStarting : IsStarting (λ (w : Stack). w.0 ≡ 0) typed starting
starting-IsStarting = record {
  console = refl;
  off = refl;
  fresh = refl;
  closed = refl;
  read_size = refl;
  write_size = refl;
}

main-picture_example :
    (c1 c2 c3 : Console (Server Stack) Sequences) × (bytes : List ℕ) × (get_output
        (led_server counting true 1 7)
        (json_to_leds one_file tokenizer granting 4)
        granting
        (λ n. n)
        starting
      ≡ done tt c1)
    × (c2.server.world.1 ≡ c1.server.world.1 ++ bytes)
    × (server_close counting true 7 c2.server ≡ done tt c3.server)
    × (main
          (led_server counting true 1 7)
          (json_to_leds one_file tokenizer granting 4)
          granting
          (λ n. n)
          2
          0
          starting
        ≡ done 0 c3)
    × (c3.server.is_socket_opened ≡ false)
    × (c3.input ≡ b'x' ∷ [])
    × (events : ℕ) × (o' : Output World Grid) × (each
          (λ (event, sender). led_communication loop (simulated memory) true event sender)
          (replicate events (ev_rd, 1))
          (output_with bytes)
        ≡ done tt o')
    × IsOutput IsGrid o'
    × (leds_of o'.device ≡ session_picture 2 3 (shown ∷ []) (leds_of (output_with bytes).device))
    × (o'.world.0 ≡ [])
unfolding low_byte
main-picture_example =
    main-picture counting true counting-IsWritable 1 2 3 counting-Handshake counting-Closes one_file
      tokenizer loop (simulated memory) true (simulated-IsFrame memory) 1 (loop-IsStream 1) 7
      (omega arith) (λ w. omega arith) 4 (omega arith) granting granting (λ n. refl) (λ n. refl)
      (λ n. n) 0 0 2 1 refl (omega arith, inr (omega arith)) (omega arith, inr (omega arith))
      (omega arith, inr (omega arith)) (shown ∷ []) typed (b'x' ∷ []) [] starting output_with
      starting-IsStarting typed-FileSession (omega arith)
      (record { array = inr (refl, refl); number = refl; room = omega arith; bounded = tt })
      ((one_file-Describes, ((omega arith, led-HasPlaces), tt)), tt) output_with-IsOutput
      (λ bytes. refl)
