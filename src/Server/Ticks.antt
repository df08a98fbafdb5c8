-- ===== src/Server/Ticks.antt =====
-- Server/LEDServer.c: ticks of the stack with at most one callback.
use ledcontroller.Prelude.{
  ℕ, ◌<◌, ◌≡◌, Bool, true, false, List, [], ◌∷◌, lt→ltb, leb, ◌≤◌, arith, put-set, length, take,
  set, pos,
}
use ledcontroller.Network.{Network, ev_rd, ev_wr, ev_conn, ev_fin, has}
use ledcontroller.Run.{done, each}
use ledcontroller.Server.{
  Server, tick, output_communication, set_opened, emptied, write_queue, read_answer,
  process_socket_reading,
}

-- The server's state after its queue went out: what the waits change.
abbrev pub sent_out : {W : Type 0} → Server W → W → List ℕ → Server W
sent_out s world buffer = record s { world = world; write_buffer = buffer; bytes_to_write = 0 }

module _ {W : Type 0} (net : Network W) (signed : Bool) where
  pub tick-idle :
      (s : Server W) (world : W)
      → net.stack_tick s.world ≡ (world, [])
      → tick net signed s ≡ done tt (record s { world = world })
  unfolding tick each
  tick-idle s world e = rw e

  pub tick-write :
      (s : Server W) (world world' : W) (socket : ℕ)
      → net.stack_tick s.world ≡ (world, (ev_wr, socket) ∷ [])
      → 0 < s.bytes_to_write
      → s.bytes_to_write ≤ length s.write_buffer
      → net.socket_write world socket (take s.bytes_to_write s.write_buffer)
        ≡ (world', pos (length (take s.bytes_to_write s.write_buffer)))
      → tick net signed s ≡ done tt (sent_out s world' (set s.write_buffer 0 0))
  unfolding tick output_communication write_queue emptied each has
  tick-write s world world' socket e some_queued fits writes =
      let room : leb s.bytes_to_write (length s.write_buffer) ≡ true = ground arith in
      rw (
        e,
        writes,
        lt→ltb 0 s.bytes_to_write some_queued,
        room,
        put-set s.write_buffer 0 0 (omega (arith, some_queued, fits)),
      )

  -- The connection is up.
  pub tick-connected :
      (s : Server W) (world : W) (socket : ℕ)
      → net.stack_tick s.world ≡ (world, (ev_conn, socket) ∷ [])
      → tick net signed s ≡ done tt (record s { world = world; is_socket_opened = true })
  unfolding tick output_communication set_opened each has
  tick-connected s world socket e = rw e

  -- A message is read.
  pub tick-read :
      (s s' : Server W) (world : W) (socket : ℕ)
      → net.stack_tick s.world ≡ (world, (ev_rd, socket) ∷ [])
      → process_socket_reading net signed socket (record s { world = world }) ≡ done (pos 0) s'
      → tick net signed s ≡ done tt s'
  unfolding tick output_communication read_answer each has
  tick-read s s' world socket e reads = rw (e, reads)

  -- The connection is finished.
  pub tick-finished :
      (s : Server W) (world : W) (socket : ℕ)
      → net.stack_tick s.world ≡ (world, (ev_fin, socket) ∷ [])
      → tick net signed s ≡ done tt (record s { world = world; is_socket_opened = false })
  unfolding tick output_communication set_opened each has
  tick-finished s world socket e = rw e
