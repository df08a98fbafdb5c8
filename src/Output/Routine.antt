-- ===== src/Output/Routine.antt =====
-- Output/LEDConsoleOut.c: the callback ledCommunication, the network routine and main.
pub mod Invariant
pub mod Main
pub mod Events
use ledcontroller.Prelude.{
  is_not_zero, is_not_positive, ℕ, zero, suc, Bool, true, false, List, [], ◌∷◌, Option, none, some,
  ℤ, is_negative, ltb, if◌then◌else◌, take, set, put, leb, length,
}
use ledcontroller.Led.{CommError}
use ledcontroller.Network.{Network, ev_rd, ev_wr, ev_conn, ev_close, ev_err, has}
use ledcontroller.Run.{
  Outcome, done, exited, fault, waiting, Run, pure, gets, exit, wait, modify, ◌>>=◌, ◌>>◌, when,
  each, wait_while,
}
use ledcontroller.Device.{Device}
use ledcontroller.Output.{Setup, Output, is_error, on_device, process_socket_reading}

module _ {W D : Type 0} (net : Network W) (device : Device D) (signed : Bool) where
  -- The PICO_SOCK_EV_WR branch: what is queued goes out in one call, and the buffer is emptied
  -- whatever part of it was taken. It is undefined to queue more than the buffer has.
  emptied : Option (List ℕ) → Run (Output W D) (Unit {0})
  emptied none s = fault
  emptied (some buffer) s = done tt (record s { write_buffer = buffer; bytes_to_write = 0 })

  write_reply : ℕ → Run (Output W D) (Unit {0})
  unfolding emptied
  write_reply sender s =
      let (world', w) = net.socket_write s.world sender (take s.bytes_to_write s.write_buffer) in
      let s' = record s { world = world' } in
      let written =
        if is_negative w
        then exited CommError.socket_error_write s'
        else emptied (put (some s.write_buffer) 0 0) s' in
      if ltb 0 s.bytes_to_write
      then (if leb s.bytes_to_write (length s.write_buffer) then written else fault)
      else done tt s

  accept : ℕ → Run (Output W D) (Unit {0})
  accept sender s = done tt (record s { world = (net.socket_accept s.world sender).0 })

  close : ℕ → Run (Output W D) (Unit {0})
  close sender s = done tt (record s { world = net.socket_close s.world sender })

  read_command : ℕ → Run (Output W D) (Unit {0})
  read_command sender = do
    result ← process_socket_reading net device signed sender
    when (is_negative result) (exit CommError.socket_error_read)

  -- The callback; PICO_SOCK_EV_FIN only prints.
  pub led_communication : ℕ → ℕ → Run (Output W D) (Unit {0})
  unfolding read_command write_reply accept close
  led_communication event sender = do
    when (has event ev_rd) (read_command sender)
    when (has event ev_wr) (write_reply sender)
    when (has event ev_conn) (accept sender)
    when (has event ev_err) (exit CommError.socket_error)
    when (has event ev_close) (close sender)

  -- One pico_stack_tick, with the callbacks that it makes.
  tick : Run (Output W D) (Unit {0})
  tick s =
      let (world', events) = net.stack_tick s.world in
      each (λ (event, sender). led_communication event sender) events (record s { world = world' })

  -- while (1 == isSocketOpened): the fuel counts ticks.
  pub serve : ℕ → Run (Output W D) (Unit {0})
  unfolding tick
  serve fuel = wait_while fuel (λ s. s.is_socket_opened) tick

  module _ (setup_network : W → ℕ → Setup W) where
    set_up : Run (Output W D) (Unit {0})
    set_up s =
        let ready = setup_network s.world s.my_ipv4_addr in
        let s' = record s { world = ready.world; my_ipv4_addr = ready.address } in
        if is_error ready.result then exited ready.result s' else done tt s'

    opened_with : Option ℕ → Run (Output W D) ℕ
    opened_with none s = exited CommError.socket_cannot_open s
    opened_with (some handle) s = done handle (record s { is_socket_opened = true })

    open_socket : Run (Output W D) ℕ
    unfolding opened_with
    open_socket s =
        let (world', socket) = net.socket_open s.world in
        opened_with socket (record s { world = world'; led_socket = socket })

    bind : ℕ → Run (Output W D) (Unit {0})
    bind socket s =
        let (world', ret) = net.socket_bind s.world socket s.my_ipv4_addr s.port in
        let s' = record s { world = world' } in
        if is_not_zero ret then exited CommError.socket_cannot_bind s' else done tt s'

    listen : ℕ → Run (Output W D) (Unit {0})
    listen socket s =
        let (world', ret) = net.socket_listen s.world socket 1 in
        let s' = record s { world = world' } in
        if is_not_zero ret then exited CommError.socket_cannot_listen s' else done tt s'

    pub start_network_routine : ℕ → Run (Output W D) (Unit {0})
    unfolding set_up open_socket bind listen
    start_network_routine fuel = do
      modify λ s. record s { world = net.stack_init s.world; port = net.short_be 7777 }
      set_up
      socket ← open_socket
      bind socket
      listen socket
      serve fuel

    -- outputCleanUp, which atexit runs.
    pub output_clean_up : Output W D → Output W D
    output_clean_up s = record s {
      device = device.clean_led_grid s.device;
      world = elim s.led_socket [ none ↦ s.world | some socket ↦ net.socket_close s.world socket ];
      is_socket_opened = false;
    }

    at_exit : Outcome (Output W D) (Unit {0}) → Outcome (Output W D) (Unit {0})
    at_exit (done a s) = done a (output_clean_up s)
    at_exit (exited code s) = exited code (output_clean_up s)
    at_exit fault = fault
    at_exit (waiting s) = waiting s

    init : ℕ → Run (Output W D) (Unit {0})
    init fuel s = elim (device.init_led_grid fuel s.device) [
      | done a d ↦ done a (record s { device = d })
      | exited code d ↦ exited code (record s { device = d })
      | fault ↦ fault
      | waiting d ↦ waiting (record s { device = d })
    ]

    -- The body of main, up to the first call of exit.
    body : ℕ → ℕ → Run (Output W D) (Unit {0})
    unfolding init
    body lines fuel = do init lines; on_device device.print_led_grid; start_network_routine fuel

    -- `lines` bounds the lines asked of the console, `fuel` the ticks.
    pub main : ℕ → ℕ → Run (Output W D) (Unit {0})
    unfolding body at_exit
    main lines fuel s = at_exit (body lines fuel s)
