-- ===== src/Link/Sequence.antt =====
-- The bytes of a sequence from Server/LEDServer.c, read by Output/LEDConsoleOut.c.
use mathlib.Core.List.{append-nil, append_assoc}
use ledcontroller.Prelude.{
  ℕ, zero, suc, ◌+◌, ◌*◌, ◌%◌, ◌^◌, ◌≤◌, ◌<◌, ◌≡◌, refl, sym, ap, ◌∙◌, Bool, true, false, ◌&&◌, ◌⊎◌,
  inl, inr, List, [], ◌∷◌, ◌++◌, Option, none, some, arith, ltb, if◌then◌else◌, Bool-cases, length,
  replicate, set,
}
use ledcontroller.Led.{Rgb, AddressableLed}
use ledcontroller.Wire.{low_byte, update_text}
use ledcontroller.Wire.Messages.{Message, update, apply, IsReadable}
use ledcontroller.Network.{Network, ev_rd}
use ledcontroller.Network.Links.{IsStream}
use ledcontroller.Run.{done, each}
use ledcontroller.Device.{Device, IsFrame}
use ledcontroller.Server.Translate.Frames.{names_all, message_for, frame_or_nothing}
use ledcontroller.Server.Translate.Sending.{sequence_bytes}
use ledcontroller.Output.{Output}
use ledcontroller.Output.Routine.{led_communication}
use ledcontroller.Output.Valid.{IsOutput}
use ledcontroller.Link.{frames, apply_all}
use ledcontroller.Link.Reading.{AllReadable, read_events-apply_all}

-- What one LED of a sequence means for a picture of `rows * columns` colours, in rows.
abbrev pub picture_one : ℕ → ℕ → AddressableLed → List Rgb → List Rgb
picture_one rows columns led leds =
    if names_all led
    then replicate (length leds) led.led_value
    else if ltb led.address.row rows && ltb led.address.column columns
    then set leds (led.address.row * columns + led.address.column) led.led_value
    else leds

-- What a whole sequence means: later LEDs paint over earlier ones.
abbrev pub picture : ℕ → ℕ → List AddressableLed → List Rgb → List Rgb
picture rows columns [] leds = leds
picture rows columns (led ∷ rest) leds =
    picture rows columns rest (picture_one rows columns led leds)

-- A message, if there is one, before others.
abbrev first : Option Message → List Message → List Message
first none ms = ms
first (some m) ms = m ∷ ms

-- What the server sends for a sequence, as messages.
abbrev pub messages : ℕ → ℕ → List AddressableLed → List Message
messages rows columns [] = update ∷ []
messages rows columns (led ∷ rest) =
    first (message_for rows columns led) (messages rows columns rest)

frames-first :
    (m : Option Message) (ms : List Message) → frames (first m ms) ≡ frame_or_nothing m ++ frames ms
frames-first none ms = refl
frames-first (some m) ms = refl

pub frames-messages :
    (rows columns : ℕ) (sequence : List AddressableLed)
    → frames (messages rows columns sequence) ≡ sequence_bytes rows columns sequence ++ update_text
frames-messages rows columns [] = refl
frames-messages rows columns (led ∷ rest) =
    frames-first (message_for rows columns led) (messages rows columns rest)
    ∙ ap (λ bytes. frame_or_nothing (message_for rows columns led) ++ bytes)
        (frames-messages rows columns rest)
    ∙ sym (
        append_assoc (frame_or_nothing (message_for rows columns led))
          (sequence_bytes rows columns rest) update_text)

-- A place on the grid lies before its end.
place-lt :
    (row column rows columns : ℕ)
    → row < rows
    → column < columns
    → row * columns + column < rows * columns
place-lt row column zero columns below beside = absurd (omega arith)
place-lt zero column (suc rows) columns below beside = omega arith
place-lt (suc row) column (suc rows) columns below beside =
    omega (arith, place-lt row column rows columns (omega arith) beside)

on_grid-lt :
    (row column rows columns : ℕ)
    → ltb row rows && ltb column columns ≡ true
    → row * columns + column < rows * columns
on_grid-lt row column rows columns on =
    place-lt row column rows columns (ground arith) (ground arith)

-- The grids on which every address is read back.
abbrev pub IsReadableSize : Bool → ℕ → ℕ → Type 0
IsReadableSize signed rows columns =
    (rows * columns ≤ 2 ^ 16) × ((signed ≡ false) ⊎ (rows * columns ≤ 128))

IsReadableOrNone : Bool → Option Message → Type 0
IsReadableOrNone signed none = Unit
IsReadableOrNone signed (some m) = IsReadable signed m

apply_first : Option Message → List Rgb → List Rgb
apply_first none leds = leds
apply_first (some m) leds = apply m leds

module _ (signed : Bool) (rows columns : ℕ) (size : IsReadableSize signed rows columns) where
  readable-low :
      (address : ℕ) → address < rows * columns → (signed ≡ false) ⊎ (low_byte address < 128)
  unfolding low_byte
  readable-low address on = elim size.1 [ inl plain ↦ inl plain | inr small ↦ inr (omega arith) ]

  place-same :
      (led : AddressableLed)
      → ltb led.address.row rows && ltb led.address.column columns ≡ true
      → (led.address.row * columns + led.address.column < rows * columns)
        × ((led.address.row * columns + led.address.column) % 2 ^ 16
            ≡ led.address.row * columns + led.address.column)
  place-same led on =
      let on' = on_grid-lt led.address.row led.address.column rows columns on in
      (on', omega (arith, on', size.0))

  message_for-IsReadable :
      (led : AddressableLed) → IsReadableOrNone signed (message_for rows columns led)
  unfolding IsReadableOrNone
  message_for-IsReadable led = elim (Bool-cases (names_all led)) [
    | inl all ↦ rw all tt
    | inr one ↦ (elim (Bool-cases (ltb led.address.row rows && ltb led.address.column columns)) [
      | inl on ↦
          let (inside, same) = place-same led on in
          rw (one, on, same) (omega (arith, inside, size.0), readable-low _ inside)
      | inr off ↦ rw (one, off) tt
    ])
  ]

  -- The message of an LED paints it.
  message_for-picture :
      (led : AddressableLed) (leds : List Rgb)
      → apply_first (message_for rows columns led) leds ≡ picture_one rows columns led leds
  unfolding apply_first
  message_for-picture led leds = elim (Bool-cases (names_all led)) [
    | inl all ↦ rw all
    | inr one ↦ (elim (Bool-cases (ltb led.address.row rows && ltb led.address.column columns)) [
      | inl on ↦ let (inside, same) = place-same led on in rw (one, on, same)
      | inr off ↦ rw (one, off)
    ])
  ]

  first-AllReadable :
      (m : Option Message) (ms : List Message)
      → IsReadableOrNone signed m
      → AllReadable signed ms
      → AllReadable signed (first m ms)
  unfolding IsReadableOrNone
  first-AllReadable none ms one all = all
  first-AllReadable (some m) ms one all = (one, all)

  pub messages-AllReadable :
      (sequence : List AddressableLed) → AllReadable signed (messages rows columns sequence)
  messages-AllReadable [] = (tt, tt)
  messages-AllReadable (led ∷ rest) =
      first-AllReadable (message_for rows columns led) (messages rows columns rest)
        (message_for-IsReadable led) (messages-AllReadable rest)

  apply_all-first :
      (m : Option Message) (ms : List Message) (leds : List Rgb)
      → apply_all (first m ms) leds ≡ apply_all ms (apply_first m leds)
  unfolding apply_first
  apply_all-first none ms leds = refl
  apply_all-first (some m) ms leds = refl

  pub messages-picture :
      (sequence : List AddressableLed) (leds : List Rgb)
      → apply_all (messages rows columns sequence) leds ≡ picture rows columns sequence leds
  messages-picture [] leds = refl
  messages-picture (led ∷ rest) leds =
      apply_all-first (message_for rows columns led) (messages rows columns rest) leds
      ∙ messages-picture rest (apply_first (message_for rows columns led) leds)
      ∙ ap (picture rows columns rest) (message_for-picture led leds)

  module _ {W D : Type 0} (net : Network W) (device : Device D) {IsReady : D → Type 0}
      {leds : D → List Rgb} (frame_of : IsFrame device IsReady leds) (socket : ℕ)
      {pending : W → List ℕ} (stream : IsStream net socket pending) where
    -- Once the bytes that `translateToOutput` sends for a sequence are what an output program in a
    -- valid state has to read, as many read events as they hold messages end well, read all of them, keep the state
    -- valid and show the sequence: `picture`, in which LED (row, column) is the colour number
    -- row * columns + column, an address (65535, 65535) paints all and an address off the grid
    -- nothing. The grid has at most 65536 LEDs, and at most 128 if `char` is signed.
    pub sequence-picture :
        (sequence : List AddressableLed) (s : Output W D)
        → IsOutput IsReady s
        → pending s.world ≡ sequence_bytes rows columns sequence ++ update_text
        → (s' : Output W D) × (each
              (λ (event, sender). led_communication net device signed event sender)
              (replicate (length (messages rows columns sequence)) (ev_rd, socket))
              s
            ≡ done tt s')
          × IsOutput IsReady s'
          × (leds s'.device ≡ picture rows columns sequence (leds s.device))
          × (pending s'.world ≡ [])
    sequence-picture sequence s v e =
        let (s', runs, v', shown, after) =
          read_events-apply_all net device signed frame_of socket stream
            (messages rows columns sequence) s [] (messages-AllReadable sequence) v
            (e
              ∙ sym (frames-messages rows columns sequence)
              ∙ sym (append-nil (frames (messages rows columns sequence)))) in
        (s', runs, v', shown ∙ messages-picture sequence (leds s.device), after)
