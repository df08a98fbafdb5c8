-- ===== src/Server.antt =====
-- Server/LEDServer.c: the program's side of the connection to the output. The state, what it
-- reads from the socket, and the callback. The stack is a parameter, as is whether a plain
-- `char` is signed. Messages on the console are left out.
pub mod Connect
pub mod Translate
pub mod Invariant
pub mod Size
pub mod Ticks
pub mod Header
pub mod Contract
pub mod Types
use ledcontroller.Prelude.{
  ℕ, ◌^◌, Bool, true, false, List, [], ◌∷◌, Option, none, some, ℤ, pos, negsuc, is_negative, ltb,
  leb, ◌==◌, ◌||◌, if◌then◌else◌, take, set, get_or, overwrite, put, length, is_not_positive,
}
use ledcontroller.Led.{CommError, led_size, led_reset, led_set}
use ledcontroller.Wire.{read_u16, command}
use ledcontroller.Network.{
  Network, Recv, bytes_read, stored, ev_rd, ev_wr, ev_conn, ev_close, ev_fin, ev_err, has,
}
use ledcontroller.Run.{
  Outcome, done, exited, fault, Run, pure, gets, exit, modify, ◌>>=◌, ◌>>◌, when, each, wait_while,
}

abbrev pub max_read_size : ℕ
max_read_size = 10

abbrev pub max_write_size : ℕ
max_write_size = 10

-- The statics of the file, with the stack and stdin.
pub record Server (W : Type 0) : Type 0 where
  pub world : W
  pub input : List ℕ
  pub number_of_rows : ℕ
  pub number_of_columns : ℕ
  pub output_socket : Option ℕ
  pub vde_device : Option ℕ
  pub dest_ipv4_addr : ℕ
  pub ipv4_addr : ℕ
  pub net_mask : ℕ
  pub port : ℕ
  pub response_from_output : Bool
  pub is_communication_initialized : Bool
  pub is_socket_opened : Bool
  pub read_buffer : List ℕ
  pub write_buffer : List ℕ
  pub bytes_to_write : ℕ

byte_at : {W : Type 0} → Server W → ℕ → ℕ
byte_at s i = get_or s.read_buffer i 0

-- The command word in the read buffer.
command_in : {W : Type 0} → Bool → Server W → ℕ
unfolding byte_at
command_in signed s = command signed (byte_at s 0) (byte_at s 1) (byte_at s 2) (byte_at s 3)

-- getRowSize and getColumnSize.
pub row_size : {W : Type 0} → Server W → ℕ
row_size s = s.number_of_rows

pub column_size : {W : Type 0} → Server W → ℕ
column_size s = s.number_of_columns

module _ {W : Type 0} (net : Network W) (signed : Bool) where
  -- bytesRead = pico_socket_read(sender, &readBuffer, count), which copies at most `count` bytes. It
  -- is undefined to offer more than the array has.
  pub receive : ℕ → ℕ → Run (Server W) ℤ
  receive sender count s =
      let (world', got) = net.socket_read s.world sender count in
      let s' = record s { world = world'; read_buffer = stored got s.read_buffer } in
      if leb count (length s.read_buffer) then done (bytes_read got) s' else fault

  store_size : Run (Server W) ℤ
  store_size s = done (pos 0) (record s {
    number_of_rows = read_u16 signed (byte_at s 0) (byte_at s 1);
    number_of_columns = read_u16 signed (byte_at s 2) (byte_at s 3);
    response_from_output = true;
  })

  answer_size : ℕ → Run (Server W) ℤ
  unfolding receive store_size byte_at
  answer_size sender = do
    bytes ← receive sender 4
    if is_negative bytes then pure bytes else store_size

  -- The switch over the command: acknowledgements want nothing, any other word is unknown.
  pub dispatch : ℕ → ℕ → Run (Server W) ℤ
  dispatch sender word =
      if word == led_size
      then answer_size sender
      else if word == led_reset || word == led_set
      then pure (pos 0)
      else pure (pos 1)

  pub process_socket_reading : ℕ → Run (Server W) ℤ
  unfolding receive
  process_socket_reading sender = do
    bytes ← receive sender 4
    if is_not_positive bytes
        then pure bytes
        else (do word ← gets (command_in signed); dispatch sender word)

  read_answer : ℕ → Run (Server W) (Unit {0})
  read_answer sender = do
    result ← process_socket_reading sender
    when (is_negative result) (exit CommError.socket_error_read)

  set_opened : Bool → Run (Server W) (Unit {0})
  set_opened opened s = done tt (record s { is_socket_opened = opened })

  close : ℕ → Run (Server W) (Unit {0})
  close sender s = done tt (record s { world = net.socket_close s.world sender })

  -- strcpy(writeBuffer, "") and bytesToWrite = 0, if the buffer has room for the NUL.
  emptied : Option (List ℕ) → Run (Server W) (Unit {0})
  emptied none s = fault
  emptied (some buffer) s = done tt (record s { write_buffer = buffer; bytes_to_write = 0 })

  -- The PICO_SOCK_EV_WR branch: what is queued goes out in one call, and the buffer is emptied
  -- whatever part of it was taken. It is undefined to queue more than the buffer has.
  pub write_queue : ℕ → Run (Server W) (Unit {0})
  unfolding emptied
  write_queue sender s =
      let (world', w) = net.socket_write s.world sender (take s.bytes_to_write s.write_buffer) in
      let s' = record s { world = world' } in
      let written =
        if is_negative w
        then exited CommError.socket_error_write s'
        else emptied (put (some s.write_buffer) 0 0) s' in
      if ltb 0 s.bytes_to_write
      then (if leb s.bytes_to_write (length s.write_buffer) then written else fault)
      else done tt s

  -- The callback outputCommunication.
  pub output_communication : ℕ → ℕ → Run (Server W) (Unit {0})
  unfolding read_answer set_opened close write_queue
  output_communication event sender = do
    when (has event ev_rd) (read_answer sender)
    when (has event ev_conn) (set_opened true)
    when (has event ev_fin) (set_opened false)
    when (has event ev_err) (exit CommError.socket_error)
    when (has event ev_close) (close sender)
    when (has event ev_wr) (write_queue sender)

  -- One pico_stack_tick, with the callbacks that it makes.
  pub tick : Run (Server W) (Unit {0})
  tick s =
      let (world', events) = net.stack_tick s.world in
      each (λ (event, sender). output_communication event sender) events
        (record s { world = world' })
