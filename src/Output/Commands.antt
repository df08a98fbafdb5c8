-- ===== src/Output/Commands.antt =====
-- Output/LEDConsoleOut.c: processSocketReading on the messages of the protocol.
use ledcontroller.Prelude.{
  ℕ, true, ◌+◌, ◌%◌, ◌^◌, ◌≤◌, ◌<◌, ◌≡◌, refl, ap, ◌∙◌, Bool, List, [], ◌∷◌, ◌++◌, arith, pos,
  length, take, set, overwrite, length-set, length-overwrite, get_or-overwrite, leb, some, put-set,
  copy-overwrite,
}
use ledcontroller.Led.{Rgb}
use ledcontroller.Wire.{low_byte, high_byte, read_u16, size_text, set_text}
use ledcontroller.Wire.Words.{read_u16-split, read_u16_off}
use ledcontroller.Wire.Messages.{
  Message, ask_size, update, reset_all, set_led, text, payload, rgb_bytes, apply, IsReadable,
}
use ledcontroller.Network.{Network, received}
use ledcontroller.Run.{done}
use ledcontroller.Device.{Device, IsFrame}
use ledcontroller.Output.{
  Output, receive, on_device, size_reply, queue_reply, answer_size, rgb_at, answer_reset,
  answer_set, answer_update, dispatch, process_socket_reading,
}
use ledcontroller.Output.Valid.{IsOutput}
use ledcontroller.Output.Switch.{
  after_text, length-after_text, process-dispatch, init_rgb_list_to-replicate,
}
use ledcontroller.Wire.Commands.{command_texts}

-- The reads of one message: its text, and its payload if it has one, then the stack is `w'`.
abbrev pub Delivers : {W : Type 0} → Network W → ℕ → Message → W → W → Type 0
Delivers net sender ask_size w w' = net.socket_read w sender 4 ≡ (w', received (text ask_size))
Delivers net sender update w w' = net.socket_read w sender 4 ≡ (w', received (text update))
Delivers {W} net sender (reset_all rgb) w w' =
    (w1 : W) × (net.socket_read w sender 4 ≡ (w1, received (text (reset_all rgb))))
    × (net.socket_read w1 sender 3 ≡ (w', received (payload (reset_all rgb))))
Delivers {W} net sender (set_led address rgb) w w' =
    (w1 : W) × (net.socket_read w sender 4 ≡ (w1, received (text (set_led address rgb))))
    × (net.socket_read w1 sender 5 ≡ (w', received (payload (set_led address rgb))))

abbrev pub queue : {W D : Type 0} → Output W D → List ℕ
queue s = take s.bytes_to_write s.write_buffer

-- What is queued after a message: the answer to SIZE, and otherwise what was queued before.
abbrev pub reply : Message → ℕ → ℕ → List ℕ → List ℕ
reply ask_size rows columns before =
    size_text ++ (high_byte rows ∷ low_byte rows ∷ high_byte columns ∷ low_byte columns ∷ [])
reply _ rows columns before = before

-- The write buffer with the answer to SIZE.
abbrev pub sized : List ℕ → ℕ → ℕ → List ℕ
sized buffer rows columns =
    set
      (set (set (set (overwrite buffer (size_text ++ 0 ∷ [])) 4 (high_byte rows)) 5 (low_byte rows))
        6 (high_byte columns))
      7 (low_byte columns)

pub length-sized :
    (buffer : List ℕ) (rows columns : ℕ) → length (sized buffer rows columns) ≡ length buffer
length-sized buffer rows columns = simp (length-set, length-overwrite)

-- All its writes lie within a buffer of ten chars.
pub size_reply-sized :
    (buffer : List ℕ) (rows columns : ℕ)
    → length buffer ≡ 10
    → size_reply buffer rows columns ≡ some (sized buffer rows columns)
unfolding size_reply
size_reply-sized buffer rows columns ten =
    let text = overwrite buffer (size_text ++ 0 ∷ []) in
    let b4 = set text 4 (high_byte rows) in
    let b5 = set b4 5 (low_byte rows) in
    let b6 = set b5 6 (high_byte columns) in
    let l3 : length text ≡ 10 = length-overwrite buffer (size_text ++ 0 ∷ []) ∙ ten in
    let l4 : length b4 ≡ 10 = length-set text 4 (high_byte rows) ∙ l3 in
    let l5 : length b5 ≡ 10 = length-set b4 5 (low_byte rows) ∙ l4 in
    let l6 : length b6 ≡ 10 = length-set b5 6 (high_byte columns) ∙ l5 in
    rw (
      copy-overwrite buffer (size_text ++ 0 ∷ []) (omega (arith, ten)),
      put-set text 4 (high_byte rows) (omega (arith, l3)),
      put-set b4 5 (low_byte rows) (omega (arith, l4)),
      put-set b5 6 (high_byte columns) (omega (arith, l5)),
      put-set b6 7 (low_byte columns) (omega (arith, l6)),
    )

pub take-sized :
    (buffer : List ℕ) (rows columns : ℕ)
    → length buffer ≡ 10
    → take 8 (sized buffer rows columns)
      ≡ size_text ++ (high_byte rows ∷ low_byte rows ∷ high_byte columns ∷ low_byte columns ∷ [])
take-sized (a ∷ b ∷ c ∷ d ∷ e ∷ f ∷ g ∷ h ∷ rest) rows columns ten = refl
take-sized _ rows columns ten = absurd (omega arith)

-- The state after a message was obeyed.
pub record Obeys {W D : Type 0} (device : Device D) (IsReady : D → Type 0) (leds : D → List Rgb)
    (m : Message) (w : W) (s s' : Output W D) : Type 0 where
  pub world : s'.world ≡ w
  pub valid : IsOutput IsReady s'
  pub shown : leds s'.device ≡ apply m (leds s.device)
  pub rows : device.row_length s'.device ≡ device.row_length s.device
  pub columns : device.column_length s'.device ≡ device.column_length s.device
  pub queued :
      queue s' ≡ reply m (device.row_length s.device) (device.column_length s.device) (queue s)

module _ {W D : Type 0} (net : Network W) (device : Device D) (signed : Bool) {IsReady : D → Type 0}
    {leds : D → List Rgb} (frame : IsFrame device IsReady leds) (sender : ℕ) (s : Output W D)
    (v : IsOutput IsReady s) (w : W) where
  -- One round of `process_socket_reading` that ends well.
  abbrev pub Processed : Message → Type 0
  Processed m =
      (s' : Output W D) × (process_socket_reading net device signed sender s ≡ done (pos 0) s')
      × Obeys device IsReady leds m w s s'

  obey_size : Delivers net sender ask_size s.world w → Processed ask_size
  unfolding dispatch answer_size queue_reply
  obey_size read =
      let rows = device.row_length s.device in
      let columns = device.column_length s.device in
      let s' : Output W D = record s {
        world = w;
        read_buffer = after_text size_text s.read_buffer;
        write_buffer = sized s.write_buffer rows columns;
        bytes_to_write = 8;
      } in
      (
        s',
        process-dispatch net device signed sender _ _ _ _ s w v.read_size read
            ∙ rw (
              (command_texts signed).0,
              size_reply-sized s.write_buffer rows columns v.write_size,
            ),
        record {
          world = refl;
          valid = record {
            ready = v.ready;
            read_size = length-after_text size_text s.read_buffer ∙ v.read_size;
            write_size = length-sized s.write_buffer rows columns ∙ v.write_size;
            queued = omega arith;
          };
          shown = refl;
          rows = refl;
          columns = refl;
          queued = take-sized s.write_buffer rows columns v.write_size;
        },
      )

  obey_update : Delivers net sender update s.world w → Processed update
  unfolding dispatch answer_update on_device
  obey_update read =
      let (d, prints, ready, same, rows, columns) = frame.print_ready s.device v.ready in
      let s' : Output W D = record s {
        world = w;
        device = d;
        read_buffer = after_text (text update) s.read_buffer;
      } in
      (
        s',
        process-dispatch net device signed sender _ _ _ _ s w v.read_size read
            ∙ rw ((command_texts signed).3, prints, answer_update, on_device),
        record {
          world = refl;
          valid = record {
            ready = ready;
            read_size = length-after_text (text update) s.read_buffer ∙ v.read_size;
            write_size = v.write_size;
            queued = v.queued;
          };
          shown = same;
          rows = rows;
          columns = columns;
          queued = refl;
        },
      )

  obey_reset :
      (rgb : Rgb) → Delivers net sender (reset_all rgb) s.world w → Processed (reset_all rgb)
  unfolding dispatch answer_reset receive on_device rgb_at
  obey_reset rgb (w1, first, second) =
      let buffer = after_text (text (reset_all rgb)) s.read_buffer in
      let ten : length buffer ≡ 10 =
        length-after_text (text (reset_all rgb)) s.read_buffer ∙ v.read_size in
      let (d, paints, ready, painted, rows, columns) =
        init_rgb_list_to-replicate device frame rgb s.device v.ready in
      let room : leb 3 (length buffer) ≡ true = ground arith in
      let s' : Output W D = record s {
        world = w;
        device = d;
        read_buffer = overwrite buffer (rgb_bytes rgb);
      } in
      (
        s',
        process-dispatch net device signed sender _ _ _ _ s w1 v.read_size first
            ∙ rw (
              (command_texts signed).1,
              room,
              second,
              get_or-overwrite buffer (rgb_bytes rgb) 0 0 (omega arith) (omega (arith, ten)),
              get_or-overwrite buffer (rgb_bytes rgb) 1 0 (omega arith) (omega (arith, ten)),
              get_or-overwrite buffer (rgb_bytes rgb) 2 0 (omega arith) (omega (arith, ten)),
              paints,
              on_device,
            ),
        record {
          world = refl;
          valid = record {
            ready = ready;
            read_size = length-overwrite buffer (rgb_bytes rgb) ∙ ten;
            write_size = v.write_size;
            queued = v.queued;
          };
          shown = painted;
          rows = rows;
          columns = columns;
          queued = refl;
        },
      )

  -- SLED with the address in two bytes that are read as `address`.
  obey_set_at :
      (hi lo address : ℕ) (rgb : Rgb) (w1 : W)
      → read_u16 signed hi lo ≡ address
      → address < 2 ^ 16
      → net.socket_read s.world sender 4 ≡ (w1, received set_text)
      → net.socket_read w1 sender 5 ≡ (w, received (hi ∷ lo ∷ rgb_bytes rgb))
      → Processed (set_led address rgb)
  unfolding dispatch answer_set receive on_device rgb_at
  obey_set_at hi lo address rgb w1 read fits first second =
      let buffer = after_text set_text s.read_buffer in
      let bytes = hi ∷ lo ∷ rgb_bytes rgb in
      let ten : length buffer ≡ 10 = length-after_text set_text s.read_buffer ∙ v.read_size in
      let (d, writes, ready, written, rows, columns) =
        frame.set_ready address rgb s.device v.ready in
      let room : leb 5 (length buffer) ≡ true = ground arith in
      let s' : Output W D = record s {
        world = w;
        device = d;
        read_buffer = overwrite buffer bytes;
      } in
      let same : address % 2 ^ 16 ≡ address = omega arith in
      (
        s',
        process-dispatch net device signed sender _ _ _ _ s w1 v.read_size first
            ∙ rw (
              (command_texts signed).2,
              room,
              second,
              get_or-overwrite buffer bytes 0 0 (omega arith) (omega (arith, ten)),
              get_or-overwrite buffer bytes 1 0 (omega arith) (omega (arith, ten)),
              get_or-overwrite buffer bytes 2 0 (omega arith) (omega (arith, ten)),
              get_or-overwrite buffer bytes 3 0 (omega arith) (omega (arith, ten)),
              get_or-overwrite buffer bytes 4 0 (omega arith) (omega (arith, ten)),
              read,
              writes,
              on_device,
            ),
        record {
          world = refl;
          valid = record {
            ready = ready;
            read_size = length-overwrite buffer bytes ∙ ten;
            write_size = v.write_size;
            queued = v.queued;
          };
          shown = written ∙ ap (λ i. set (leds s.device) i rgb) same;
          rows = rows;
          columns = columns;
          queued = refl;
        },
      )

  -- If the state is valid and the socket delivers a message of the protocol, `processSocketReading`
  -- returns 0 and obeys it:
  -- the LEDs change as the message says and in no other way, SIZE queues the text SIZE with both
  -- lengths, any other message leaves what is queued, and the program's state stays valid. Where
  -- `char` is signed, the low byte of a SLED address must lie below 128.
  pub process_socket_reading-Obeys :
      (m : Message) → IsReadable signed m → Delivers net sender m s.world w → Processed m
  process_socket_reading-Obeys ask_size readable read = obey_size read
  process_socket_reading-Obeys update readable read = obey_update read
  process_socket_reading-Obeys (reset_all rgb) readable read = obey_reset rgb read
  process_socket_reading-Obeys (set_led address rgb) (fits, readable) (w1, first, second) =
      obey_set_at (high_byte address) (low_byte address) address rgb w1
        (read_u16-split signed address fits readable) fits first second

-- Where `char` is signed, a SLED message with an address whose low byte is 128 or more is obeyed as
-- if it named the LED 256 places before, modulo 65536: that LED is coloured if it exists, and no
-- other. The state is valid before and after.
pub process_socket_reading_misread :
    {W D : Type 0} (net : Network W) (device : Device D) {IsReady : D → Type 0}
    {leds : D → List Rgb} (frame : IsFrame device IsReady leds) (sender : ℕ) (s : Output W D)
    (v : IsOutput IsReady s) (w : W) (address : ℕ) (rgb : Rgb)
    → address < 2 ^ 16
    → 128 ≤ low_byte address
    → Delivers net sender (set_led address rgb) s.world w
    → Processed net device true frame sender s v w (set_led ((address + 65280) % 2 ^ 16) rgb)
process_socket_reading_misread net device frame sender s v w address rgb fits high
      (w1, first, second) =
    obey_set_at net device true frame sender s v w (high_byte address) (low_byte address) _ rgb w1
      (read_u16_off address fits high) (omega arith) first second
