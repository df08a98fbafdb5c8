-- ===== src/Wire.antt =====
-- How both programs turn numbers into the bytes of a message and back: the casts in
-- Server/LEDServer.c and Output/LEDConsoleOut.c. A plain `char` is held as its bit pattern, a
-- number below 256; whether it is signed is the compiler's choice, and so a parameter.
pub mod Words
pub mod Commands
pub mod Messages
use ledcontroller.Prelude.{
  ℕ, ◌+◌, ◌*◌, ◌/◌, ◌%◌, ◌^◌, Bool, true, false, List, [], ◌∷◌, ltb, if◌then◌else◌,
}

-- (uint16_t) c, which copies the sign of a signed `char`.
unfoldable pub char_to_u16 : Bool → ℕ → ℕ
char_to_u16 true c = if ltb c 128 then c else c + 65280
char_to_u16 false c = c

-- (uint32_t) c
unfoldable pub char_to_u32 : Bool → ℕ → ℕ
char_to_u32 true c = if ltb c 128 then c else c + 4294967040
char_to_u32 false c = c

-- A number stored in a `char`, then its upper byte.
unfoldable pub low_byte : ℕ → ℕ
low_byte n = n % 2 ^ 8

unfoldable pub high_byte : ℕ → ℕ
high_byte n = n / 2 ^ 8 % 2 ^ 8

-- ((uint16_t) hi << 8) + (uint16_t) lo, stored in 16 bits.
unfoldable pub read_u16 : Bool → ℕ → ℕ → ℕ
unfolding char_to_u16
read_u16 signed hi lo = (char_to_u16 signed hi * 2 ^ 8 + char_to_u16 signed lo) % 2 ^ 16

-- The command word of four received bytes, summed in uint32_t.
unfoldable pub command : Bool → ℕ → ℕ → ℕ → ℕ → ℕ
command signed b0 b1 b2 b3 =
    (char_to_u32 signed b0 * 2 ^ 24
      + char_to_u32 signed b1 * 2 ^ 16
      + char_to_u32 signed b2 * 2 ^ 8
      + char_to_u32 signed b3)
    % 2 ^ 32

-- The texts "SIZE", "RSET", "SLED" and "UPDT".
abbrev pub size_text : List ℕ
size_text = 0x53 ∷ 0x49 ∷ 0x5A ∷ 0x45 ∷ []

abbrev pub reset_text : List ℕ
reset_text = 0x52 ∷ 0x53 ∷ 0x45 ∷ 0x54 ∷ []

abbrev pub set_text : List ℕ
set_text = 0x53 ∷ 0x4C ∷ 0x45 ∷ 0x44 ∷ []

abbrev pub update_text : List ℕ
update_text = 0x55 ∷ 0x50 ∷ 0x44 ∷ 0x54 ∷ []
