-- ===== src/Server/Translate.antt =====
-- Server/LEDServer.c: translateToOutput, which sends a sequence of LEDs to the output.
pub mod Frames
pub mod Drain
pub mod Sending
use ledcontroller.Prelude.{
  ℕ, zero, suc, ◌+◌, ◌*◌, ◌%◌, ◌^◌, Bool, not, ◌&&◌, List, [], ◌∷◌, ◌++◌, Option, none, some, ltb,
  leb, ◌==◌, if◌then◌else◌, get_elem?, put, copy,
}
use ledcontroller.Led.{Rgb, AddressableLed}
use ledcontroller.Wire.{low_byte, high_byte, reset_text, set_text, update_text}
use ledcontroller.Network.{Network}
use ledcontroller.Run.{
  Outcome, done, fault, Run, pure, gets, modify, undefined, ◌>>=◌, ◌>>◌, when, wait_while,
}
use ledcontroller.Server.{Server, tick}
use ledcontroller.Server.Connect.{connect_to_output}

-- The three chars of a colour from place `i` on.
put_rgb : Option (List ℕ) → ℕ → Rgb → Option (List ℕ)
put_rgb buffer i rgb = put (put (put buffer i rgb.red) (suc i) rgb.green) (suc (suc i)) rgb.blue

-- strcpy copies the NUL too.
pub copy_text : List ℕ → List ℕ → Option (List ℕ)
copy_text buffer text = copy buffer (text ++ 0 ∷ [])

-- The write buffer with that many bytes to send, if no write lay past its end.
queued : {W : Type 0} → Option (List ℕ) → ℕ → Server W → Option (Server W)
queued none count s = none
queued (some buffer) count s = some (record s { write_buffer = buffer; bytes_to_write = count })

-- The special address that stands for all LEDs: USHRT_MAX twice.
abbrev pub is_all : AddressableLed → Bool
is_all led = led.address.row == 65535 && led.address.column == 65535

-- What one LED puts into the write buffer, and how many bytes of it; an address off the grid
-- changes nothing. `none` is an address that an `int` cannot hold, or a write past the buffer.
pub prepare : {W : Type 0} → AddressableLed → Server W → Option (Server W)
unfolding put_rgb copy_text queued
prepare led s =
    let place = led.address.row * s.number_of_columns + led.address.column in
    let address = place % 2 ^ 16 in
    let all = put_rgb (copy_text s.write_buffer reset_text) 4 led.led_value in
    let one =
      put_rgb
        (put (put (copy_text s.write_buffer set_text) 4 (high_byte address)) 5 (low_byte address)) 6
        led.led_value in
    if is_all led
    then queued all 7 s
    else if ltb led.address.row s.number_of_rows && ltb led.address.column s.number_of_columns
    then (if leb (2 ^ 31) place then none else queued one 9 s)
    else some s

module _ {W : Type 0} (net : Network W) (signed : Bool) (ticks : ℕ) where
  -- while (0 < bytesToWrite): each wait has `ticks` ticks of fuel.
  pub drain : Run (Server W) (Unit {0})
  drain = wait_while ticks (λ s. ltb 0 s.bytes_to_write) (tick net signed)

  prepared : Option (Server W) → Run (Server W) (Unit {0})
  prepared none s = fault
  prepared (some s') s = done tt s'

  queue_update : Run (Server W) (Unit {0})
  unfolding copy_text queued prepared
  queue_update s = prepared (queued (copy_text s.write_buffer update_text) 4 s) s

  prepare_led : List AddressableLed → ℕ → Run (Server W) (Unit {0})
  unfolding prepare
  prepare_led sequence index s = elim (get_elem? sequence index) [
    | none ↦ fault
    | some led ↦ (elim (prepare led s) [ none ↦ fault | some s' ↦ done tt s' ])
  ]

  -- The loop over the sequence, with `left` rounds to go; reading past the array is undefined.
  send_leds : List AddressableLed → ℕ → ℕ → Run (Server W) (Unit {0})
  unfolding prepare_led
  send_leds sequence zero index = pure tt
  send_leds sequence (suc left) index = do
    prepare_led sequence index
    drain
    send_leds sequence left (suc index)

  pub translate_to_output : List AddressableLed → ℕ → Run (Server W) (Unit {0})
  unfolding send_leds queue_update
  translate_to_output sequence sequence_length = do
    opened ← gets (λ s. s.is_socket_opened)
    when (not opened) (connect_to_output net signed ticks)
    send_leds sequence sequence_length 0
    queue_update
    drain
