-- ===== src/Json/Text/Decimal.antt =====
-- Decimal numbers and LED addresses in a text, and what Server/JSONToLeds.c reads from them.
use native.Mathlib.Numerals.{unary_clauses}
use ledcontroller.Prelude.{
  ℕ, zero, suc, ◌+◌, ◌*◌, ◌-◌, ◌^◌, ◌<◌, ◌≡◌, refl, ap, ◌∙◌, true, false, List, [], ◌∷◌, ◌++◌, some,
  pos, arith, length, All,
}
use ledcontroller.Stdin.{same_text, is_digit, is_space, scan_digits, skip_spaces}
use ledcontroller.Json.Text.{
  signed_int, digits_int, atoi, to_u16, to_byte, skip_delimiters, piece, piece_of, strtok,
}

-- The number that decimal digits stand for, the most significant one first, and their text.
abbrev pub value : List ℕ → ℕ
value [] = 0
value (d ∷ digits) = d * 10 ^ length digits + value digits

abbrev pub digit_text : List ℕ → List ℕ
digit_text [] = []
digit_text (d ∷ digits) = (48 + d) ∷ digit_text digits

abbrev pub IsDigits : List ℕ → Type 0
IsDigits digits = (0 < length digits) × All (λ d. d < 10) digits

-- A text of digits that stands for a number.
abbrev pub IsDecimal : List ℕ → ℕ → Type 0
IsDecimal text n =
    (digits : List ℕ) × IsDigits digits × (text ≡ digit_text digits) × (value digits ≡ n)

pub scan_step : (acc d k v : ℕ) → (acc * 10 + d) * 10 ^ k + v ≡ acc * 10 ^ suc k + (d * 10 ^ k + v)
scan_step acc d k v = simp unary_clauses (multiplied (10 ^ k))
  where
    multiplied : (p : ℕ) → (acc * 10 + d) * p + v ≡ acc * (p * 10) + (d * p + v)
    multiplied p = omega arith

pub digit-is_digit : (d : ℕ) → d < 10 → is_digit (48 + d) ≡ true
unfolding is_digit
digit-is_digit d h = ground arith

scan_digits-digit_text :
    (acc : ℕ) (digits : List ℕ)
    → All (λ d. d < 10) digits
    → scan_digits acc (digit_text digits) ≡ (acc * 10 ^ length digits + value digits, [])
unfolding scan_digits
scan_digits-digit_text acc [] h = ap (λ n. (n, [])) (omega arith)
scan_digits-digit_text acc (d ∷ digits) h =
    let shifted : acc * 10 + (48 + d - 48) ≡ acc * 10 + d = omega arith in
    rw (digit-is_digit d h.0, shifted, scan_digits-digit_text (acc * 10 + d) digits h.1)
      (ap (λ n. (n, [])) (scan_step acc d (length digits) (value digits)))

pub signed_int-small : (n : ℕ) → n < 2 ^ 31 → signed_int false n ≡ some (pos n)
unfolding signed_int
signed_int-small zero small = refl
signed_int-small (suc n) small = ground arith

atoi-digit_text :
    (d : ℕ) (digits : List ℕ)
    → All (λ d. d < 10) (d ∷ digits)
    → atoi (digit_text (d ∷ digits)) ≡ signed_int false (scan_digits 0 (digit_text (d ∷ digits))).0
unfolding atoi digits_int skip_spaces is_space
atoi-digit_text d digits h = ground arith

pub atoi-IsDecimal :
    (text : List ℕ) (n : ℕ) → IsDecimal text n → n < 2 ^ 31 → atoi text ≡ some (pos n)
atoi-IsDecimal text n ([], some_digits, e, v) small = ground arith
atoi-IsDecimal text n (d ∷ digits, some_digits, e, v) small =
    let same : 0 * 10 ^ length (d ∷ digits) + value (d ∷ digits) ≡ n = ground arith in
    rw
      (
        e,
        atoi-digit_text d digits some_digits.1,
        scan_digits-digit_text 0 (d ∷ digits) some_digits.1,
        same,
      )
      (signed_int-small n small)

piece-digit_text :
    (digits rest : List ℕ)
    → All (λ d. d < 10) digits
    → piece (digit_text digits ++ 120 ∷ rest) ≡ (digit_text digits, rest)
unfolding piece
piece-digit_text [] rest h = refl
piece-digit_text (d ∷ digits) rest h = let later = piece-digit_text digits rest h.1 in ground arith

piece-last :
    (digits : List ℕ)
    → All (λ d. d < 10) digits
    → piece (digit_text digits) ≡ (digit_text digits, [])
unfolding piece
piece-last [] h = refl
piece-last (d ∷ digits) h = let later = piece-last digits h.1 in ground arith

strtok-digit_text :
    (d : ℕ) (digits rest : List ℕ)
    → d < 10
    → strtok (digit_text (d ∷ digits) ++ rest) ≡ some (piece (digit_text (d ∷ digits) ++ rest))
unfolding strtok skip_delimiters piece_of
strtok-digit_text d digits rest h = ground arith

pub to_u16-small : (n : ℕ) → n < 2 ^ 16 → to_u16 (pos n) ≡ n
unfolding to_u16
to_u16-small n h = omega arith

pub to_byte-small : (n : ℕ) → n < 256 → to_byte (pos n) ≡ n
unfolding to_byte
to_byte-small n h = omega arith

strtok-digits :
    (d : ℕ) (digits : List ℕ)
    → d < 10
    → strtok (digit_text (d ∷ digits)) ≡ some (piece (digit_text (d ∷ digits)))
unfolding strtok skip_delimiters piece_of
strtok-digits d digits h = ground arith

-- The two pieces of an address with a row and a column.
pub strtok-first :
    (first second : List ℕ) (row : ℕ)
    → IsDecimal first row
    → strtok (first ++ 120 ∷ second) ≡ some (first, second)
strtok-first first second row ([], some_digits, e, v) = ground arith
strtok-first first second row (d ∷ digits, some_digits, e, v) = rw e (
    strtok-digit_text d digits (120 ∷ second) some_digits.1.0
    ∙ ap some (piece-digit_text (d ∷ digits) second some_digits.1))

pub strtok-last :
    (second : List ℕ) (column : ℕ) → IsDecimal second column → strtok second ≡ some (second, [])
strtok-last second column ([], some_digits, e, v) = ground arith
strtok-last second column (d ∷ digits, some_digits, e, v) =
    rw e (strtok-digits d digits some_digits.1.0 ∙ ap some (piece-last (d ∷ digits) some_digits.1))

pub same_text-digits :
    (text : List ℕ) (n : ℕ) → IsDecimal text n → same_text (b'A' ∷ b'L' ∷ b'L' ∷ []) text ≡ false
unfolding same_text
same_text-digits text n ([], some_digits, e, v) = ground arith
same_text-digits text n (d ∷ digits, some_digits, e, v) = rw e (ground arith)
