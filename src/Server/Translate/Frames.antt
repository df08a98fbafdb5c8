-- ===== src/Server/Translate/Frames.antt =====
-- Server/LEDServer.c: what translateToOutput puts into the write buffer.
use ledcontroller.Prelude.{
  ℕ, ◌+◌, ◌*◌, ◌%◌, ◌^◌, ◌≤◌, ◌<◌, ◌≡◌, refl, ◌∙◌, Bool, true, false, ◌==◌, ◌-◌, suc, ap, leb,
  overwrite, put, put-set, copy-overwrite, length-append, ◌&&◌, List, [], ◌∷◌, ◌++◌, Option, none,
  some, arith, ltb, if◌then◌else◌, length, take, set, length-set, length-overwrite, Bool-cases, inl,
  inr, ◌⊎◌,
}
use ledcontroller.Led.{Rgb, AddressableLed}
use ledcontroller.Wire.{low_byte, high_byte, reset_text, set_text}
use ledcontroller.Wire.Messages.{Message, reset_all, set_led, frame}
use ledcontroller.Server.{Server}
use ledcontroller.Server.Translate.{put_rgb, copy_text, queued, is_all, prepare}

-- Row and column are both the largest number of 16 bits: the address of all LEDs.
abbrev pub names_all : AddressableLed → Bool
names_all led = if led.address.row == 2 ^ 16 - 1 then led.address.column == 2 ^ 16 - 1 else false

is_all-names_all : (led : AddressableLed) → is_all led ≡ names_all led
is_all-names_all led = ground arith

-- The message for an LED on a grid of that size, if there is one.
abbrev pub message_for : ℕ → ℕ → AddressableLed → Option Message
message_for rows columns led =
    if names_all led
    then some (reset_all led.led_value)
    else if ltb led.address.row rows && ltb led.address.column columns
    then some (set_led ((led.address.row * columns + led.address.column) % 2 ^ 16) led.led_value)
    else none

abbrev pub frame_or_nothing : Option Message → List ℕ
frame_or_nothing none = []
frame_or_nothing (some m) = frame m

-- The buffer with a text, with a colour from a place on, and with both.
abbrev pub with_text : List ℕ → List ℕ → List ℕ
with_text buffer text = overwrite buffer (text ++ 0 ∷ [])

abbrev with_rgb : List ℕ → ℕ → Rgb → List ℕ
with_rgb buffer i rgb = set (set (set buffer i rgb.red) (suc i) rgb.green) (suc (suc i)) rgb.blue

abbrev reset_buffer : List ℕ → Rgb → List ℕ
reset_buffer buffer rgb = with_rgb (with_text buffer reset_text) 4 rgb

abbrev set_buffer : List ℕ → ℕ → Rgb → List ℕ
set_buffer buffer address rgb =
    with_rgb (set (set (with_text buffer set_text) 4 (high_byte address)) 5 (low_byte address)) 6
      rgb

pub length-with_text : (buffer text : List ℕ) → length (with_text buffer text) ≡ length buffer
length-with_text buffer text = length-overwrite buffer (text ++ 0 ∷ [])

length-with_rgb :
    (buffer : List ℕ) (i : ℕ) (rgb : Rgb) → length (with_rgb buffer i rgb) ≡ length buffer
length-with_rgb buffer i rgb = simp length-set

pub copy_text-with_text :
    (buffer text : List ℕ)
    → length text + 1 ≤ length buffer
    → copy_text buffer text ≡ some (with_text buffer text)
unfolding copy_text
copy_text-with_text buffer text fits =
    copy-overwrite buffer (text ++ 0 ∷ []) (omega (arith, length-append text (0 ∷ [])))

put_rgb-with_rgb :
    (buffer : List ℕ) (i : ℕ) (rgb : Rgb)
    → i + 2 < length buffer
    → put_rgb (some buffer) i rgb ≡ some (with_rgb buffer i rgb)
unfolding put_rgb
put_rgb-with_rgb buffer i rgb fits =
    let b1 = set buffer i rgb.red in
    let b2 = set b1 (suc i) rgb.green in
    let l1 : length b1 ≡ length buffer = length-set buffer i rgb.red in
    let l2 : length b2 ≡ length buffer = length-set b1 (suc i) rgb.green ∙ l1 in
    rw (
      put-set buffer i rgb.red (omega (arith, fits)),
      put-set b1 (suc i) rgb.green (omega (arith, fits, l1)),
      put-set b2 (suc (suc i)) rgb.blue (omega (arith, fits, l2)),
    )

-- Every write lies within a buffer of ten chars.
put_rgb-reset_buffer :
    (buffer : List ℕ) (rgb : Rgb)
    → length buffer ≡ 10
    → put_rgb (copy_text buffer reset_text) 4 rgb ≡ some (reset_buffer buffer rgb)
put_rgb-reset_buffer buffer rgb ten =
    ap (λ b. put_rgb b 4 rgb) (copy_text-with_text buffer reset_text (omega (arith, ten)))
    ∙ put_rgb-with_rgb (with_text buffer reset_text) 4 rgb
        (omega (arith, ten, length-with_text buffer reset_text))

put_rgb-set_buffer :
    (buffer : List ℕ) (address : ℕ) (rgb : Rgb)
    → length buffer ≡ 10
    → put_rgb
        (put (put (copy_text buffer set_text) 4 (high_byte address)) 5 (low_byte address))
        6
        rgb
      ≡ some (set_buffer buffer address rgb)
put_rgb-set_buffer buffer address rgb ten =
    let hi = high_byte address in
    let lo = low_byte address in
    let text = with_text buffer set_text in
    let b4 = set text 4 hi in
    let l3 : length text ≡ 10 = length-with_text buffer set_text ∙ ten in
    let l4 : length b4 ≡ 10 = length-set text 4 hi ∙ l3 in
    let l5 : length (set b4 5 lo) ≡ 10 = length-set b4 5 lo ∙ l4 in
    ap (λ b. put_rgb (put (put b 4 hi) 5 lo) 6 rgb)
      (copy_text-with_text buffer set_text (omega (arith, ten)))
    ∙ ap (λ b. put_rgb (put b 5 lo) 6 rgb) (put-set text 4 hi (omega (arith, l3)))
    ∙ ap (λ b. put_rgb b 6 rgb) (put-set b4 5 lo (omega (arith, l4)))
    ∙ put_rgb-with_rgb (set b4 5 lo) 6 rgb (omega (arith, l5))

take-reset :
    (buffer : List ℕ) (rgb : Rgb)
    → length buffer ≡ 10
    → take 7 (reset_buffer buffer rgb) ≡ frame (reset_all rgb)
take-reset (a ∷ b ∷ c ∷ d ∷ e ∷ f ∷ g ∷ rest) rgb ten = refl
take-reset _ rgb ten = absurd (omega arith)

take-set :
    (buffer : List ℕ) (address : ℕ) (rgb : Rgb)
    → length buffer ≡ 10
    → take 9 (set_buffer buffer address rgb) ≡ frame (set_led address rgb)
take-set (a ∷ b ∷ c ∷ d ∷ e ∷ f ∷ g ∷ h ∷ i ∷ rest) address rgb ten = refl
take-set _ address rgb ten = absurd (omega arith)

-- The place of the LED is one that an `int` holds; the address of all LEDs has none.
abbrev pub HasPlace : ℕ → AddressableLed → Type 0
HasPlace columns led =
    (names_all led ≡ true) ⊎ (led.address.row * columns + led.address.column < 2 ^ 31)

-- With an empty queue, a write buffer of ten chars and an LED whose place an `int` holds, what is
-- queued is the frame of the LED's message, or nothing if it lies off the grid; nothing but the
-- queue changes, and it fits the buffer.
pub prepare-frame :
    {W : Type 0} (led : AddressableLed) (s : Server W)
    → length s.write_buffer ≡ 10
    → s.bytes_to_write ≡ 0
    → HasPlace s.number_of_columns led
    → (buffer : List ℕ) × (count : ℕ) × (prepare led s
        ≡ some (record s { write_buffer = buffer; bytes_to_write = count }))
      × (length buffer ≡ 10)
      × (count ≤ 10)
      × (take count buffer
          ≡ frame_or_nothing (message_for s.number_of_rows s.number_of_columns led))
unfolding prepare queued
prepare-frame led s ten empty place = elim (Bool-cases (names_all led)) [
  | inl all ↦ (
    reset_buffer s.write_buffer rgb,
    7,
    rw (is_all-names_all led, all, put_rgb-reset_buffer s.write_buffer rgb ten) refl,
    length-with_rgb _ 4 rgb ∙ length-with_text s.write_buffer reset_text ∙ ten,
    omega arith,
    rw all (take-reset s.write_buffer rgb ten),
  )
  | inr one ↦ (elim (Bool-cases on_grid) [
    | inl on ↦ (
      set_buffer s.write_buffer address rgb,
      9,
      let inside : leb (2 ^ 31) (led.address.row * s.number_of_columns + led.address.column)
              ≡ false =
            ground (arith, place) in
          rw
            (
              is_all-names_all led,
              one,
              on,
              inside,
              put_rgb-set_buffer s.write_buffer address rgb ten,
            )
            refl,
      length-with_rgb _ 6 rgb
          ∙ length-set _ 5 _
          ∙ length-set _ 4 _
          ∙ length-with_text s.write_buffer set_text
          ∙ ten,
      omega arith,
      rw (one, on) (take-set s.write_buffer address rgb ten),
    )
    | inr off ↦ (
      s.write_buffer,
      s.bytes_to_write,
      rw (is_all-names_all led, one, off) refl,
      ten,
      omega (arith, empty),
      rw (one, off, empty),
    )
  ])
]
  where
    rgb : Rgb
    rgb = led.led_value

    on_grid : Bool
    on_grid = ltb led.address.row s.number_of_rows && ltb led.address.column s.number_of_columns

    address : ℕ
    address = (led.address.row * s.number_of_columns + led.address.column) % 2 ^ 16
