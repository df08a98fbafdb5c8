-- ===== src/Wire/Words.antt =====
-- 16-bit numbers through two bytes.
use ledcontroller.Prelude.{ℕ, ◌+◌, ◌%◌, ◌^◌, ◌≤◌, ◌<◌, ◌≡◌, ◌⊎◌, Bool, true, false, arith}
use ledcontroller.Wire.{low_byte, high_byte, read_u16}

-- The receiver reads back the 16-bit number that the sender split, if `char` is unsigned or the
-- number's low byte lies below 128.
pub read_u16-split :
    (signed : Bool) (n : ℕ)
    → n < 2 ^ 16
    → (signed ≡ false) ⊎ (low_byte n < 128)
    → read_u16 signed (high_byte n) (low_byte n) ≡ n
unfolding low_byte high_byte read_u16
read_u16-split true n h ok = ground arith
read_u16-split false n h ok = ground arith

-- Otherwise the number that arrives is 256 too small, modulo 65536.
pub read_u16_off :
    (n : ℕ)
    → n < 2 ^ 16
    → 128 ≤ low_byte n
    → read_u16 true (high_byte n) (low_byte n) ≡ (n + 65280) % 2 ^ 16
unfolding low_byte high_byte read_u16
read_u16_off n h ge = ground arith
