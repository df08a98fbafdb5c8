-- ===== src/Output/Switch.antt =====
-- processSocketReading up to its switch, and initRGBListTo.
use ledcontroller.Prelude.{
  ℕ, ◌*◌, ◌<◌, ◌≡◌, refl, ◌∙◌, Bool, true, leb, put, put-set, List, [], ◌∷◌, some, arith, length,
  set, get_or, overwrite, replicate, length-set, length-overwrite, get_or-overwrite, get_or-set_ne,
}
use ledcontroller.Led.{Rgb}
use ledcontroller.Wire.{command}
use ledcontroller.Network.{Network, received}
use ledcontroller.Device.{Device, IsFrame}
use ledcontroller.Device.Paint.{for_leds-paint, paint-all}
use ledcontroller.Output.{
  Output, init_rgb_list_to, receive, end_text, ended_text, command_in, dispatch,
  process_socket_reading,
}

module _ {D : Type 0} (device : Device D) {IsReady : D → Type 0} {leds : D → List Rgb}
    (frame : IsFrame device IsReady leds) where
  -- On a ready device `initRGBListTo` never faults and gives every LED the colour; the device stays
  -- ready and keeps its size.
  pub init_rgb_list_to-replicate :
      (rgb : Rgb) (d : D)
      → IsReady d
      → (d' : D) × (init_rgb_list_to device rgb d ≡ some d')
        × IsReady d'
        × (leds d' ≡ replicate (length (leds d)) rgb)
        × (device.row_length d' ≡ device.row_length d)
        × (device.column_length d' ≡ device.column_length d)
  unfolding init_rgb_list_to
  init_rgb_list_to-replicate rgb d r =
      let size = frame.size_ready d r in
      let count = device.row_length d * device.column_length d in
      let (d', runs, r', painted, rows, columns) = for_leds-paint device frame count 0 rgb d r in
      (
        d',
        ground (arith, runs, size),
        r',
        painted ∙ paint-all count rgb (leds d) (omega (arith, size)) (omega (arith, size)),
        rows,
        columns,
      )

-- The read buffer after the text of a command, with its NUL.
abbrev pub after_text : List ℕ → List ℕ → List ℕ
after_text bytes buffer = set (overwrite buffer bytes) 4 0

pub length-after_text : (bytes buffer : List ℕ) → length (after_text bytes buffer) ≡ length buffer
length-after_text bytes buffer = length-set _ 4 0 ∙ length-overwrite buffer bytes

after_text-get_or :
    (bytes buffer : List ℕ) (i : ℕ)
    → length bytes ≡ 4
    → length buffer ≡ 10
    → i < 4
    → get_or (after_text bytes buffer) i 0 ≡ get_or bytes i 0
after_text-get_or bytes buffer i four ten below =
    get_or-set_ne (overwrite buffer bytes) 4 i 0 0 (omega arith)
    ∙ get_or-overwrite buffer bytes i 0 (omega arith) (omega arith)

command_in-after_text :
    {W D : Type 0} (signed : Bool) (b0 b1 b2 b3 : ℕ) (s : Output W D) (w : W)
    → length s.read_buffer ≡ 10
    → command_in signed
        (record s { world = w; read_buffer = after_text (b0 ∷ b1 ∷ b2 ∷ b3 ∷ []) s.read_buffer })
      ≡ command signed b0 b1 b2 b3
unfolding command_in
command_in-after_text signed b0 b1 b2 b3 s w ten =
    let bytes = b0 ∷ b1 ∷ b2 ∷ b3 ∷ [] in
    rw (
      after_text-get_or bytes s.read_buffer 0 refl ten (omega arith),
      after_text-get_or bytes s.read_buffer 1 refl ten (omega arith),
      after_text-get_or bytes s.read_buffer 2 refl ten (omega arith),
      after_text-get_or bytes s.read_buffer 3 refl ten (omega arith),
    )

module _ {W D : Type 0} (net : Network W) (device : Device D) (signed : Bool) where
  -- A first read of four bytes leads to the switch over their command word.
  pub process-dispatch :
      (sender b0 b1 b2 b3 : ℕ) (s : Output W D) (w1 : W)
      → length s.read_buffer ≡ 10
      → net.socket_read s.world sender 4 ≡ (w1, received (b0 ∷ b1 ∷ b2 ∷ b3 ∷ []))
      → process_socket_reading net device signed sender s
        ≡ dispatch net device signed sender (command signed b0 b1 b2 b3) (record s {
          world = w1;
          read_buffer = after_text (b0 ∷ b1 ∷ b2 ∷ b3 ∷ []) s.read_buffer;
        })
  unfolding process_socket_reading receive end_text ended_text
  process-dispatch sender b0 b1 b2 b3 s w1 ten read =
      let bytes = b0 ∷ b1 ∷ b2 ∷ b3 ∷ [] in
      let room : leb 4 (length s.read_buffer) ≡ true = ground arith in
      let ended : put (some (overwrite s.read_buffer bytes)) 4 0
          ≡ some (after_text bytes s.read_buffer) =
        put-set (overwrite s.read_buffer bytes) 4 0
          (omega (arith, ten, length-overwrite s.read_buffer bytes)) in
      rw (room, read, ended, command_in-after_text signed b0 b1 b2 b3 s w1 ten)
