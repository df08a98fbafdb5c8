-- ===== src/Server/Types.antt =====
-- Server/LEDServer.c: the statics keep to their C types.
use ledcontroller.Prelude.{
  true, leb, put, put-set, ℕ, zero, suc, ◌≤◌, ◌<◌, ◌^◌, ◌≡◌, refl, ◌∙◌, Bool, List, [], ◌∷◌, arith,
  pos, is_negative, is_not_positive, ltb, ◌==◌, ◌||◌, All, length, take, leb, put, put-set, some,
  set, overwrite, length-set,
}
use ledcontroller.Led.{CommError, led_size, led_reset, led_set}
use ledcontroller.Wire.{read_u16}
use ledcontroller.Network.{
  Network, Recv, failed, received, stored, length-stored, ev_rd, ev_wr, ev_conn, ev_close, ev_fin,
  ev_err, has,
}
use ledcontroller.Network.Links.{IsChar, ReadsChars}
use ledcontroller.Run.Keeps.{
  Keeps, Keeps-pure, Keeps-gets, Keeps-exit, Keeps-if, Keeps-when, Keeps-bind, Keeps-each, Safe-if,
  Safe-holds,
}
use ledcontroller.Server.{
  Server, max_read_size, max_write_size, byte_at, command_in, receive, store_size, answer_size,
  dispatch, process_socket_reading, read_answer, set_opened, close, emptied, write_queue,
  output_communication, tick,
}

-- The lengths and the port are of type uint16_t, each buffer is an array of ten chars, and the
-- number of bytes to write does not exceed the buffer.
pub record IsTypedAs (rows columns port : ℕ) (read_buffer write_buffer : List ℕ)
    (bytes_to_write : ℕ) : Type 0 where
  pub rows_word : rows < 2 ^ 16
  pub columns_word : columns < 2 ^ 16
  pub port_word : port < 2 ^ 16
  pub read_chars : All IsChar read_buffer
  pub read_size : length read_buffer ≡ max_read_size
  pub write_chars : All IsChar write_buffer
  pub write_size : length write_buffer ≡ max_write_size
  pub queued : bytes_to_write ≤ max_write_size

abbrev pub IsTyped : {W : Type 0} → Server W → Type 0
IsTyped s =
    IsTypedAs s.number_of_rows s.number_of_columns s.port s.read_buffer s.write_buffer
      s.bytes_to_write

overwrite-IsChar :
    (buffer bytes : List ℕ)
    → All IsChar buffer
    → All IsChar bytes
    → All IsChar (overwrite buffer bytes)
overwrite-IsChar [] [] h h' = tt
overwrite-IsChar (x ∷ buffer) [] h h' = h
overwrite-IsChar [] (y ∷ bytes) h h' = tt
overwrite-IsChar (x ∷ buffer) (y ∷ bytes) h h' = (h'.0, overwrite-IsChar buffer bytes h.1 h'.1)

set-IsChar :
    (buffer : List ℕ) (i c : ℕ) → All IsChar buffer → IsChar c → All IsChar (set buffer i c)
set-IsChar [] i c h h' = tt
set-IsChar (x ∷ buffer) zero c h h' = (h', h.1)
set-IsChar (x ∷ buffer) (suc i) c h h' = (h.0, set-IsChar buffer i c h.1 h')

read_u16-lt : (signed : Bool) (hi lo : ℕ) → read_u16 signed hi lo < 2 ^ 16
unfolding read_u16
read_u16-lt signed hi lo = omega arith

module _ {W : Type 0} (net : Network W) (signed : Bool) (chars : ReadsChars net) where
  stored-IsChar :
      (got : Recv) (buffer : List ℕ)
      → ((bytes : List ℕ) → got ≡ received bytes → All IsChar bytes)
      → All IsChar buffer
      → All IsChar (stored got buffer)
  stored-IsChar (failed n) buffer h h' = h'
  stored-IsChar (received bytes) buffer h h' = overwrite-IsChar buffer bytes h' (h bytes refl)

  receive-IsTyped :
      (sender count : ℕ) → count ≤ 10 → Keeps IsTyped (receive net signed sender count)
  unfolding receive
  receive-IsTyped sender count fits = record {
    at = λ s v.
        let got = (net.socket_read s.world sender count).1 in
        Safe-holds IsTyped (leb count (length s.read_buffer)) _ _ (in_range s fits v) (record {
          rows_word = v.rows_word;
          columns_word = v.columns_word;
          port_word = v.port_word;
          read_chars =
              stored-IsChar got s.read_buffer (chars.read_chars s.world sender count) v.read_chars;
          read_size = length-stored got s.read_buffer ∙ v.read_size;
          write_chars = v.write_chars;
          write_size = v.write_size;
          queued = v.queued;
        });
  }
    where
      in_range : (s : Server W) → count ≤ 10 → IsTyped s → leb count (length s.read_buffer) ≡ true
      in_range s fits v = let ten = v.read_size in ground arith

  store_size-IsTyped : Keeps IsTyped (store_size net signed)
  unfolding store_size
  store_size-IsTyped = record {
    at = λ s v. record {
      rows_word = read_u16-lt signed (byte_at s 0) (byte_at s 1);
      columns_word = read_u16-lt signed (byte_at s 2) (byte_at s 3);
      port_word = v.port_word;
      read_chars = v.read_chars;
      read_size = v.read_size;
      write_chars = v.write_chars;
      write_size = v.write_size;
      queued = v.queued;
    };
  }

  dispatch-IsTyped : (sender word : ℕ) → Keeps IsTyped (dispatch net signed sender word)
  unfolding dispatch answer_size
  dispatch-IsTyped sender word =
      Keeps-if (word == led_size)
        (Keeps-bind (receive-IsTyped sender 4 (omega arith))
          λ bytes. Keeps-if (is_negative bytes) (Keeps-pure bytes) store_size-IsTyped)
        (Keeps-if (word == led_reset || word == led_set) (Keeps-pure (pos 0)) (Keeps-pure (pos 1)))

  read_answer-IsTyped : (sender : ℕ) → Keeps IsTyped (read_answer net signed sender)
  unfolding read_answer process_socket_reading
  read_answer-IsTyped sender =
      Keeps-bind
        (Keeps-bind (receive-IsTyped sender 4 (omega arith)) λ bytes.
          Keeps-if (is_not_positive bytes) (Keeps-pure bytes)
            (Keeps-bind (Keeps-gets (command_in signed)) λ word. dispatch-IsTyped sender word))
        λ result. Keeps-when (is_negative result) (Keeps-exit CommError.socket_error_read)

  write_queue-IsTyped : (sender : ℕ) → Keeps IsTyped (write_queue net signed sender)
  unfolding write_queue emptied
  write_queue-IsTyped sender = record {
    at = λ s v.
        let (world', w) = net.socket_write s.world sender (take s.bytes_to_write s.write_buffer) in
        Safe-if IsTyped (ltb 0 s.bytes_to_write) _ _
          (Safe-holds IsTyped (leb s.bytes_to_write (length s.write_buffer)) _ _ (room s v) (
            Safe-if IsTyped (is_negative w) _ _ v (
              rw (start s v) (record {
                rows_word = v.rows_word;
                columns_word = v.columns_word;
                port_word = v.port_word;
                read_chars = v.read_chars;
                read_size = v.read_size;
                write_chars = set-IsChar s.write_buffer 0 0 v.write_chars (omega arith);
                write_size = length-set s.write_buffer 0 0 ∙ v.write_size;
                queued = omega arith;
              }))))
          v;
  }
    where
      room : (s : Server W) → IsTyped s → leb s.bytes_to_write (length s.write_buffer) ≡ true
      room s v = let ten = v.write_size in let few = v.queued in ground arith

      start :
          (s : Server W) → IsTyped s → put (some s.write_buffer) 0 0 ≡ some (set s.write_buffer 0 0)
      start s v = let ten = v.write_size in put-set s.write_buffer 0 0 (omega (arith, ten))

  output_communication-IsTyped :
      (event sender : ℕ) → Keeps IsTyped (output_communication net signed event sender)
  unfolding output_communication set_opened close
  output_communication-IsTyped event sender =
      Keeps-bind (Keeps-when (has event ev_rd) (read_answer-IsTyped sender)) λ _.
        Keeps-bind (Keeps-when (has event ev_conn) (record { at = λ s v. v })) λ _.
          Keeps-bind (Keeps-when (has event ev_fin) (record { at = λ s v. v })) λ _.
            Keeps-bind (Keeps-when (has event ev_err) (Keeps-exit CommError.socket_error)) λ _.
              Keeps-bind (Keeps-when (has event ev_close) (record { at = λ s v. v }))
                λ _. Keeps-when (has event ev_wr) (write_queue-IsTyped sender)

  pub tick-IsTyped : Keeps IsTyped (tick net signed)
  unfolding tick
  tick-IsTyped = record {
    at = λ s v.
        let (world', events) = net.stack_tick s.world in
        (Keeps-each _ events λ (event, sender). output_communication-IsTyped event sender).at
          (record s { world = world' }) v;
  }
