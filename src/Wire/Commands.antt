-- ===== src/Wire/Commands.antt =====
-- The command word of processSocketReading, and the four bytes that it was read from.
use ledcontroller.Prelude.{ℕ, ◌+◌, ◌*◌, ◌%◌, ◌^◌, ◌<◌, ◌≡◌, refl, Bool, true, false, arith}
use ledcontroller.Led.{led_size, led_reset, led_set, led_update}
use ledcontroller.Wire.{char_to_u32, command}

abbrev pub IsByte : ℕ → Type 0
IsByte b = b < 256

-- The last byte of a sum is known, and the sum of those before it to one byte less.
peel_32 :
    (signed : Bool) (x y a b : ℕ)
    → IsByte a
    → IsByte b
    → (x * 2 ^ 8 + char_to_u32 signed a) % 2 ^ 32 ≡ (y * 2 ^ 8 + char_to_u32 signed b) % 2 ^ 32
    → (x % 2 ^ 24 ≡ y % 2 ^ 24) × (a ≡ b)
unfolding char_to_u32
peel_32 true x y a b ha hb e = ground arith
peel_32 false x y a b ha hb e = ground arith

peel_24 :
    (signed : Bool) (x y a b : ℕ)
    → IsByte a
    → IsByte b
    → (x * 2 ^ 8 + char_to_u32 signed a) % 2 ^ 24 ≡ (y * 2 ^ 8 + char_to_u32 signed b) % 2 ^ 24
    → (x % 2 ^ 16 ≡ y % 2 ^ 16) × (a ≡ b)
unfolding char_to_u32
peel_24 true x y a b ha hb e = ground arith
peel_24 false x y a b ha hb e = ground arith

peel_16 :
    (signed : Bool) (x y a b : ℕ)
    → IsByte a
    → IsByte b
    → (x * 2 ^ 8 + char_to_u32 signed a) % 2 ^ 16 ≡ (y * 2 ^ 8 + char_to_u32 signed b) % 2 ^ 16
    → (x % 2 ^ 8 ≡ y % 2 ^ 8) × (a ≡ b)
unfolding char_to_u32
peel_16 true x y a b ha hb e = ground arith
peel_16 false x y a b ha hb e = ground arith

last_byte :
    (signed : Bool) (a b : ℕ)
    → IsByte a
    → IsByte b
    → char_to_u32 signed a % 2 ^ 8 ≡ char_to_u32 signed b % 2 ^ 8
    → a ≡ b
unfolding char_to_u32
last_byte true a b ha hb e = ground arith
last_byte false a b ha hb e = ground arith

-- The four bytes with the words that a compiler's `char` makes of them, left to right.
abbrev nested : Bool → ℕ → ℕ → ℕ → ℕ → ℕ
nested signed a0 a1 a2 a3 =
    ((char_to_u32 signed a0 * 2 ^ 8 + char_to_u32 signed a1) * 2 ^ 8 + char_to_u32 signed a2)
      * 2 ^ 8
    + char_to_u32 signed a3

command-nested :
    (signed : Bool) (a0 a1 a2 a3 : ℕ)
    → command signed a0 a1 a2 a3 ≡ nested signed a0 a1 a2 a3 % 2 ^ 32
unfolding command
command-nested signed a0 a1 a2 a3 = omega arith

-- The words of two times four bytes are equal only if all four bytes are, whether `char` is signed
-- or not.
pub command-injective :
    (signed : Bool) (a0 a1 a2 a3 b0 b1 b2 b3 : ℕ)
    → IsByte a0 × IsByte a1 × IsByte a2 × IsByte a3
    → IsByte b0 × IsByte b1 × IsByte b2 × IsByte b3
    → command signed a0 a1 a2 a3 ≡ command signed b0 b1 b2 b3
    → (a0 ≡ b0) × (a1 ≡ b1) × (a2 ≡ b2) × (a3 ≡ b3)
command-injective s a0 a1 a2 a3 b0 b1 b2 b3 ha hb e =
    let (e2, p3) =
      peel_32 s _ _ a3 b3 ha.3 hb.3
        (omega (arith, e, command-nested s a0 a1 a2 a3, command-nested s b0 b1 b2 b3)) in
    let (e1, p2) = peel_24 s _ _ a2 b2 ha.2 hb.2 e2 in
    let (e0, p1) = peel_16 s _ _ a1 b1 ha.1 hb.1 e1 in (last_byte s a0 b0 ha.0 hb.0 e0, p1, p2, p3)

-- The texts have the command words of E_CommMessage, whether `char` is signed or not.
pub command_texts :
    (signed : Bool)
    → (command signed 0x53 0x49 0x5A 0x45 ≡ led_size)
      × (command signed 0x52 0x53 0x45 0x54 ≡ led_reset)
      × (command signed 0x53 0x4C 0x45 0x44 ≡ led_set)
      × (command signed 0x55 0x50 0x44 0x54 ≡ led_update)
unfolding command char_to_u32
command_texts true = (refl, refl, refl, refl)
command_texts false = (refl, refl, refl, refl)
