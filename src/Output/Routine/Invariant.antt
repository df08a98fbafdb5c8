-- ===== src/Output/Routine/Invariant.antt =====
-- Output/LEDConsoleOut.c: the invariant of the statics, under ledCommunication and the routine.
use ledcontroller.Prelude.{
  is_not_zero, ℕ, ◌∙◌, Bool, List, Option, none, some, arith, is_negative, ltb, length-set, take,
  leb, length, ◌≡◌, true, put, put-set, set,
}
use ledcontroller.Led.{Rgb, CommError}
use ledcontroller.Network.{Network, ev_rd, ev_wr, ev_conn, ev_close, ev_err, has}
use ledcontroller.Run.Keeps.{
  Keeps, Safe, Keeps-exit, Keeps-modify, Keeps-when, Keeps-bind, Keeps-each, Keeps-wait_while,
  Safe-if, Safe-holds,
}
use ledcontroller.Device.{Device, IsFrame}
use ledcontroller.Output.{Setup, Output, is_error}
use ledcontroller.Output.Routine.{
  write_reply, emptied, accept, close, read_command, led_communication, tick, serve, set_up,
  opened_with, open_socket, bind, listen, start_network_routine,
}
use ledcontroller.Output.Valid.{IsOutput}
use ledcontroller.Output.Invariant.{process_socket_reading-Keeps}

module _ {W D : Type 0} (net : Network W) (device : Device D) (signed : Bool) {IsReady : D → Type 0}
    {leds : D → List Rgb} (frame : IsFrame device IsReady leds) where
  -- A step that touches neither the device nor the buffers.
  with_network :
      (s : Output W D) (world : W) (socket : Option ℕ) (address port : ℕ) (opened : Bool)
      → IsOutput IsReady s
      → IsOutput IsReady (record s {
        world = world;
        led_socket = socket;
        my_ipv4_addr = address;
        port = port;
        is_socket_opened = opened;
      })
  with_network s world socket address port opened v = record {
    ready = v.ready;
    read_size = v.read_size;
    write_size = v.write_size;
    queued = v.queued;
  }

  write_reply-Keeps : (sender : ℕ) → Keeps (IsOutput IsReady) (write_reply net device signed sender)
  unfolding write_reply emptied
  write_reply-Keeps sender = record {
    at = λ s v.
        let (world', w) = net.socket_write s.world sender (take s.bytes_to_write s.write_buffer) in
        Safe-if (IsOutput IsReady) (ltb 0 s.bytes_to_write) _ _
          (Safe-holds (IsOutput IsReady) (leb s.bytes_to_write (length s.write_buffer)) _ _
            (room s v)
            (Safe-if (IsOutput IsReady) (is_negative w) _ _ (with_network s world' _ _ _ _ v) (
              rw (start s v) (record {
                ready = v.ready;
                read_size = v.read_size;
                write_size = length-set s.write_buffer 0 0 ∙ v.write_size;
                queued = omega arith;
              }))))
          v;
  }
    where
      room :
          (s : Output W D)
          → IsOutput IsReady s
          → leb s.bytes_to_write (length s.write_buffer) ≡ true
      room s v = let ten = v.write_size in let few = v.queued in ground arith

      start :
          (s : Output W D)
          → IsOutput IsReady s
          → put (some s.write_buffer) 0 0 ≡ some (set s.write_buffer 0 0)
      start s v = let ten = v.write_size in put-set s.write_buffer 0 0 (omega (arith, ten))

  read_command-Keeps :
      (sender : ℕ) → Keeps (IsOutput IsReady) (read_command net device signed sender)
  unfolding read_command
  read_command-Keeps sender =
      Keeps-bind (process_socket_reading-Keeps net device signed frame sender)
        λ result. Keeps-when (is_negative result) (Keeps-exit CommError.socket_error_read)

  -- The callback keeps the invariant, whatever the events and the network's answers.
  pub led_communication-Keeps :
      (event sender : ℕ)
      → Keeps (IsOutput IsReady) (led_communication net device signed event sender)
  unfolding led_communication
  led_communication-Keeps event sender =
      Keeps-bind (Keeps-when (has event ev_rd) (read_command-Keeps sender)) λ _.
        Keeps-bind (Keeps-when (has event ev_wr) (write_reply-Keeps sender)) λ _.
          Keeps-bind (Keeps-when (has event ev_conn) (accept-Keeps sender)) λ _.
            Keeps-bind (Keeps-when (has event ev_err) (Keeps-exit CommError.socket_error))
              λ _. Keeps-when (has event ev_close) (close-Keeps sender)
    where
      accept-Keeps : (sender : ℕ) → Keeps (IsOutput IsReady) (accept net device signed sender)
      accept-Keeps sender = record { at = λ s v. with_network s _ _ _ _ _ v }

      close-Keeps : (sender : ℕ) → Keeps (IsOutput IsReady) (close net device signed sender)
      close-Keeps sender = record { at = λ s v. with_network s _ _ _ _ _ v }

  tick-Keeps : Keeps (IsOutput IsReady) (tick net device signed)
  unfolding tick
  tick-Keeps = record {
    at = λ s v.
        let (world', events) = net.stack_tick s.world in
        (Keeps-each _ events λ (event, sender). led_communication-Keeps event sender).at
          (record s { world = world' })
          (with_network s world' s.led_socket s.my_ipv4_addr s.port s.is_socket_opened v);
  }

  -- Over a device that fulfils IsFrame, the callback never faults on a valid state: it writes
  -- nothing outside its two buffers of ten chars, and asks the network for no more bytes than they
  -- hold and gives it no more. It leaves a valid state where it returns or the program exits,
  -- whatever the events, the bytes received and the network's other answers.
  pub led_communication-IsOutput :
      (event sender : ℕ) (s : Output W D)
      → IsOutput IsReady s
      → Safe (IsOutput IsReady) (led_communication net device signed event sender s)
  led_communication-IsOutput event sender = (led_communication-Keeps event sender).at

  pub serve-Keeps : (fuel : ℕ) → Keeps (IsOutput IsReady) (serve net device signed fuel)
  unfolding serve
  serve-Keeps fuel = Keeps-wait_while fuel _ _ tick-Keeps

  module _ (setup_network : W → ℕ → Setup W) where
    set_up-Keeps : Keeps (IsOutput IsReady) (set_up net device signed setup_network)
    unfolding set_up
    set_up-Keeps = record {
      at = λ s v.
          let ready = setup_network s.world s.my_ipv4_addr in
          let v' =
            with_network s ready.world s.led_socket ready.address s.port s.is_socket_opened v in
          Safe-if (IsOutput IsReady) (is_error ready.result) _ _ v' v';
    }

    open_socket-Keeps : Keeps (IsOutput IsReady) (open_socket net device signed setup_network)
    unfolding open_socket
    open_socket-Keeps = record { at = λ s v. opened s v (net.socket_open s.world).1 }
      where
        opened :
            (s : Output W D) (v : IsOutput IsReady s) (socket : Option ℕ)
            → Safe (IsOutput IsReady) (
                opened_with net device signed setup_network socket
                  (record s { world = (net.socket_open s.world).0; led_socket = socket }))
        opened s v none = with_network s _ _ _ _ _ v
        opened s v (some handle) = with_network s _ _ _ _ _ v

    bind-Keeps :
        (socket : ℕ) → Keeps (IsOutput IsReady) (bind net device signed setup_network socket)
    unfolding bind
    bind-Keeps socket = record {
      at = λ s v.
          let (world', ret) = net.socket_bind s.world socket s.my_ipv4_addr s.port in
          let v' = with_network s world' s.led_socket s.my_ipv4_addr s.port s.is_socket_opened v in
          Safe-if (IsOutput IsReady) (is_not_zero ret) _ _ v' v';
    }

    listen-Keeps :
        (socket : ℕ) → Keeps (IsOutput IsReady) (listen net device signed setup_network socket)
    unfolding listen
    listen-Keeps socket = record {
      at = λ s v.
          let (world', ret) = net.socket_listen s.world socket 1 in
          let v' = with_network s world' s.led_socket s.my_ipv4_addr s.port s.is_socket_opened v in
          Safe-if (IsOutput IsReady) (is_not_zero ret) _ _ v' v';
    }

    -- The whole network routine keeps the invariant for any number of ticks.
    pub start_network_routine-Keeps :
        (fuel : ℕ)
        → Keeps (IsOutput IsReady) (start_network_routine net device signed setup_network fuel)
    unfolding start_network_routine
    start_network_routine-Keeps fuel =
        Keeps-bind (Keeps-modify _ λ s v. with_network s _ _ _ _ _ v) λ _.
          Keeps-bind set_up-Keeps λ _. Keeps-bind open_socket-Keeps λ socket.
            Keeps-bind (bind-Keeps socket)
              λ _. Keeps-bind (listen-Keeps socket) λ _. serve-Keeps fuel
