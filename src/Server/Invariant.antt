-- ===== src/Server/Invariant.antt =====
-- Server/LEDServer.c: the invariant of the statics, under the callback.
use ledcontroller.Prelude.{
  set, ℕ, ◌≤◌, ◌≡◌, ◌∙◌, Bool, true, false, arith, pos, is_negative, is_not_positive, ltb, ◌==◌,
  ◌||◌, length, take, leb, put, put-set, some, length-set,
}
use ledcontroller.Led.{CommError, led_size, led_reset, led_set}
use ledcontroller.Network.{
  Network, length-stored, ev_rd, ev_wr, ev_conn, ev_close, ev_fin, ev_err, has,
}
use ledcontroller.Run.Keeps.{
  Safe, Keeps, Keeps-pure, Keeps-gets, Keeps-exit, Keeps-if, Keeps-when, Keeps-bind, Keeps-each,
  Safe-if, Safe-holds,
}
use ledcontroller.Server.{
  Server, max_read_size, max_write_size, command_in, receive, store_size, answer_size, dispatch,
  process_socket_reading, read_answer, set_opened, close, emptied, write_queue,
  output_communication, tick,
}

-- Both buffers have their ten chars, and no more than that is queued.
pub record IsServer {W : Type 0} (s : Server W) : Type 0 where
  pub read_size : length s.read_buffer ≡ max_read_size
  pub write_size : length s.write_buffer ≡ max_write_size
  pub queued : s.bytes_to_write ≤ max_write_size

module _ {W : Type 0} (net : Network W) (signed : Bool) where
  pub receive-Keeps :
      (sender count : ℕ) → count ≤ 10 → Keeps IsServer (receive net signed sender count)
  unfolding receive
  receive-Keeps sender count fits = record {
    at = λ s v.
        Safe-holds IsServer (leb count (length s.read_buffer)) _ _ (in_range fits v) (record {
          read_size =
              length-stored (net.socket_read s.world sender count).1 s.read_buffer ∙ v.read_size;
          write_size = v.write_size;
          queued = v.queued;
        });
  }
    where
      in_range : {s : Server W} → count ≤ 10 → IsServer s → leb count (length s.read_buffer) ≡ true
      in_range fits v = let ten = v.read_size in ground arith

  store_size-Keeps : Keeps IsServer (store_size net signed)
  unfolding store_size
  store_size-Keeps = record {
    at = λ s v. record { read_size = v.read_size; write_size = v.write_size; queued = v.queued };
  }

  dispatch-Keeps : (sender word : ℕ) → Keeps IsServer (dispatch net signed sender word)
  unfolding dispatch answer_size
  dispatch-Keeps sender word =
      Keeps-if (word == led_size)
        (Keeps-bind (receive-Keeps sender 4 (omega arith))
          λ bytes. Keeps-if (is_negative bytes) (Keeps-pure bytes) store_size-Keeps)
        (Keeps-if (word == led_reset || word == led_set) (Keeps-pure (pos 0)) (Keeps-pure (pos 1)))

  process_socket_reading-Keeps :
      (sender : ℕ) → Keeps IsServer (process_socket_reading net signed sender)
  unfolding process_socket_reading
  process_socket_reading-Keeps sender = Keeps-bind (receive-Keeps sender 4 (omega arith)) λ bytes.
      Keeps-if (is_not_positive bytes) (Keeps-pure bytes)
        (Keeps-bind (Keeps-gets (command_in signed)) λ word. dispatch-Keeps sender word)

  read_answer-Keeps : (sender : ℕ) → Keeps IsServer (read_answer net signed sender)
  unfolding read_answer
  read_answer-Keeps sender =
      Keeps-bind (process_socket_reading-Keeps sender)
        λ result. Keeps-when (is_negative result) (Keeps-exit CommError.socket_error_read)

  set_opened-Keeps : (opened : Bool) → Keeps IsServer (set_opened net signed opened)
  unfolding set_opened
  set_opened-Keeps opened = record {
    at = λ s v. record { read_size = v.read_size; write_size = v.write_size; queued = v.queued };
  }

  close-Keeps : (sender : ℕ) → Keeps IsServer (close net signed sender)
  unfolding close
  close-Keeps sender = record {
    at = λ s v. record { read_size = v.read_size; write_size = v.write_size; queued = v.queued };
  }

  write_queue-Keeps : (sender : ℕ) → Keeps IsServer (write_queue net signed sender)
  unfolding write_queue emptied
  write_queue-Keeps sender = record {
    at = λ s v.
        let (world', w) = net.socket_write s.world sender (take s.bytes_to_write s.write_buffer) in
        Safe-if IsServer (ltb 0 s.bytes_to_write) _ _
          (Safe-holds IsServer (leb s.bytes_to_write (length s.write_buffer)) _ _ (room s v) (
            Safe-if IsServer (is_negative w) _ _
              (record { read_size = v.read_size; write_size = v.write_size; queued = v.queued })
              (rw (start s v) (record {
                read_size = v.read_size;
                write_size = length-set s.write_buffer 0 0 ∙ v.write_size;
                queued = omega arith;
              }))))
          v;
  }
    where
      room : (s : Server W) → IsServer s → leb s.bytes_to_write (length s.write_buffer) ≡ true
      room s v = let ten = v.write_size in let few = v.queued in ground arith

      start :
          (s : Server W)
          → IsServer s
          → put (some s.write_buffer) 0 0 ≡ some (set s.write_buffer 0 0)
      start s v = let ten = v.write_size in put-set s.write_buffer 0 0 (omega (arith, ten))

  -- The callback keeps the invariant, whatever the events and the network's answers.
  pub output_communication-Keeps :
      (event sender : ℕ) → Keeps IsServer (output_communication net signed event sender)
  unfolding output_communication
  output_communication-Keeps event sender =
      Keeps-bind (Keeps-when (has event ev_rd) (read_answer-Keeps sender)) λ _.
        Keeps-bind (Keeps-when (has event ev_conn) (set_opened-Keeps true)) λ _.
          Keeps-bind (Keeps-when (has event ev_fin) (set_opened-Keeps false)) λ _.
            Keeps-bind (Keeps-when (has event ev_err) (Keeps-exit CommError.socket_error)) λ _.
              Keeps-bind (Keeps-when (has event ev_close) (close-Keeps sender))
                λ _. Keeps-when (has event ev_wr) (write_queue-Keeps sender)

  -- The server's callback never faults on a valid state: it writes nothing outside its two buffers
  -- of ten chars, and asks the network for no more bytes than they hold and gives it no more. It
  -- leaves a valid state where it returns or the program exits, whatever the events, the bytes
  -- received and the network's other answers.
  pub output_communication-IsServer :
      (event sender : ℕ) (s : Server W)
      → IsServer s
      → Safe IsServer (output_communication net signed event sender s)
  output_communication-IsServer event sender = (output_communication-Keeps event sender).at

  pub tick-Keeps : Keeps IsServer (tick net signed)
  unfolding tick
  tick-Keeps = record {
    at = λ s v.
        let (world', events) = net.stack_tick s.world in
        (Keeps-each _ events λ (event, sender). output_communication-Keeps event sender).at
          (record s { world = world' })
          (record { read_size = v.read_size; write_size = v.write_size; queued = v.queued });
  }
