-- ===== src/Output.antt =====
-- Output/LEDConsoleOut.c: the program that drives the LEDs. It answers commands that come over
-- a socket. The stack, the device and its setupNetwork are parameters, as is whether a plain
-- `char` is signed. Messages on the console are left out, but for what the device draws.
pub mod Routine
pub mod Valid
pub mod Switch
pub mod Commands
pub mod Invariant
pub mod Refused
use ledcontroller.Prelude.{
  ℕ, zero, suc, ◌*◌, ◌^◌, Bool, true, false, List, [], ◌∷◌, ◌++◌, Option, none, some, ℤ, pos,
  negsuc, is_negative, ltb, leb, ◌==◌, if◌then◌else◌, take, set, get_or, overwrite, put, copy,
  length, is_not_positive,
}
use ledcontroller.Led.{Rgb, CommError, led_size, led_reset, led_set, led_update}
use ledcontroller.Led
use ledcontroller.Wire.{low_byte, high_byte, read_u16, command, size_text}
use ledcontroller.Network.{
  Network, Recv, failed, received, bytes_read, stored, ev_rd, ev_wr, ev_conn, ev_close, ev_err, has,
}
use ledcontroller.Run.{
  Outcome, done, exited, fault, waiting, Run, pure, gets, exit, wait, modify, ◌>>=◌, ◌>>◌, when,
}
use ledcontroller.Device.{Device, for_leds}

-- What setupNetwork leaves: the stack, the address it stored, and its result.
pub record Setup (W : Type 0) : Type 0 where
  pub world : W
  pub address : ℕ
  pub result : CommError

abbrev pub max_read_size : ℕ
max_read_size = 10

abbrev pub max_write_size : ℕ
max_write_size = 10

-- The statics of the file, with the stack and the device.
pub record Output (W D : Type 0) : Type 0 where
  pub world : W
  pub device : D
  pub led_socket : Option ℕ
  pub my_ipv4_addr : ℕ
  pub port : ℕ
  pub read_buffer : List ℕ
  pub write_buffer : List ℕ
  pub bytes_to_write : ℕ
  pub is_socket_opened : Bool

-- `ret != 0`, for a result that is one of E_CommError.
abbrev pub is_error : CommError → Bool
is_error Led.CommError.success = false
is_error _ = true

pub on_device : {W D : Type 0} → (D → Option D) → Run (Output W D) (Unit {0})
on_device f s = elim (f s.device) [ none ↦ fault | some d ↦ done tt (record s { device = d }) ]

-- The answer to SIZE: the text with its NUL, and both lengths over it.
unfoldable pub size_reply : List ℕ → ℕ → ℕ → Option (List ℕ)
size_reply buffer rows columns =
    put
      (put (put (put (copy buffer (size_text ++ 0 ∷ [])) 4 (high_byte rows)) 5 (low_byte rows)) 6
        (high_byte columns))
      7 (low_byte columns)

-- initRGBListTo. A product that an `int` cannot hold is undefined.
pub init_rgb_list_to : {D : Type 0} → Device D → Rgb → D → Option D
init_rgb_list_to device rgb d =
    let count = device.row_length d * device.column_length d in
    if leb (2 ^ 31) count then none else for_leds device.set_led count 0 rgb d

byte_at : {W D : Type 0} → Output W D → ℕ → ℕ
byte_at s i = get_or s.read_buffer i 0

-- The colour in three bytes of the read buffer.
rgb_at : {W D : Type 0} → Output W D → ℕ → ℕ → ℕ → Rgb
unfolding byte_at
rgb_at s i j k = record { red = byte_at s i; green = byte_at s j; blue = byte_at s k }

-- The command word in the read buffer.
command_in : {W D : Type 0} → Bool → Output W D → ℕ
unfolding byte_at
command_in signed s = command signed (byte_at s 0) (byte_at s 1) (byte_at s 2) (byte_at s 3)

module _ {W D : Type 0} (net : Network W) (device : Device D) (signed : Bool) where
  -- bytesRead = pico_socket_read(sender, &readBuffer, count), which copies at most `count` bytes. It
  -- is undefined to offer more than the array has.
  receive : ℕ → ℕ → Run (Output W D) ℤ
  receive sender count s =
      let (world', got) = net.socket_read s.world sender count in
      let s' = record s { world = world'; read_buffer = stored got s.read_buffer } in
      if leb count (length s.read_buffer) then done (bytes_read got) s' else fault

  -- readBuffer[4] = '\0'
  ended_text : Option (List ℕ) → Run (Output W D) (Unit {0})
  ended_text none s = fault
  ended_text (some buffer) s = done tt (record s { read_buffer = buffer })

  end_text : Run (Output W D) (Unit {0})
  unfolding ended_text
  end_text s = ended_text (put (some s.read_buffer) 4 0) s

  queue_reply : Option (List ℕ) → Run (Output W D) ℤ
  queue_reply none s = fault
  queue_reply (some buffer) s =
      done (pos 0) (record s { write_buffer = buffer; bytes_to_write = 8 })

  answer_size : Run (Output W D) ℤ
  unfolding queue_reply
  answer_size s =
      queue_reply
        (size_reply s.write_buffer (device.row_length s.device) (device.column_length s.device)) s

  answer_reset : ℕ → Run (Output W D) ℤ
  unfolding receive on_device rgb_at
  answer_reset sender = do
    bytes ← receive sender 3
    rgb ← gets (λ s. rgb_at s 0 1 2)
    if is_negative bytes
        then pure bytes
        else (do on_device (init_rgb_list_to device rgb); pure (pos 0))

  answer_set : ℕ → Run (Output W D) ℤ
  unfolding receive on_device rgb_at
  answer_set sender = do
    bytes ← receive sender 5
    address ← gets (λ s. read_u16 signed (byte_at s 0) (byte_at s 1))
    rgb ← gets (λ s. rgb_at s 2 3 4)
    if is_negative bytes
        then pure bytes
        else (do on_device (device.set_led address rgb); pure (pos 0))

  answer_update : Run (Output W D) ℤ
  unfolding on_device
  answer_update = do on_device device.print_led_grid; pure (pos 0)

  -- The switch over the command.
  pub dispatch : ℕ → ℕ → Run (Output W D) ℤ
  dispatch sender word =
      if word == led_size
      then answer_size
      else if word == led_reset
      then answer_reset sender
      else if word == led_set
      then answer_set sender
      else if word == led_update
      then answer_update
      else pure (pos 1)

  pub process_socket_reading : ℕ → Run (Output W D) ℤ
  unfolding receive end_text
  process_socket_reading sender = do
    bytes ← receive sender 4
    if is_not_positive bytes
        then pure bytes
        else (do end_text; word ← gets (command_in signed); dispatch sender word)
