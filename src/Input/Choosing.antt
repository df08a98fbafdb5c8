-- ===== src/Input/Choosing.antt =====
-- Input/LEDInput.c: what chooseInput makes of the lines of the console.
use ledcontroller.Prelude.{
  ℕ, zero, suc, ◌+◌, ◌*◌, ◌-◌, ◌^◌, ◌<◌, ◌≤◌, ◌≡◌, refl, ap, ◌∙◌, true, false, List, [], ◌∷◌, ◌++◌,
  Option, some, ℤ, pos, negsuc, arith, ◌==◌, length, All,
}
use ledcontroller.Stdin.{
  take_line, fgets, c_string, is_space, is_digit, skip_spaces, scan_digits, scan_number,
}
use ledcontroller.Run.{done}
use ledcontroller.Json.Text.{signed_int}
use ledcontroller.Json.Text.Decimal.{
  value, digit_text, IsDecimal, digit-is_digit, scan_step, signed_int-small,
}
use ledcontroller.Input.Console.{
  Console, int_of, sscanf_sign, sscanf_d, scanned, stored_int, read_int,
}

-- A line with a number that an `int` holds: digits, perhaps after a minus sign.
pub data IsNumberText : List ℕ → ℤ → Type 0 where
  plain : {text : List ℕ} {n : ℕ} → IsDecimal text n → n < 2 ^ 31 → IsNumberText text (pos n)
  minus :
      {text : List ℕ} {n : ℕ}
      → IsDecimal text (suc n)
      → suc n ≤ 2 ^ 31
      → IsNumberText (45 ∷ text) (negsuc n)

-- Chars that end neither a string nor a line.
abbrev pub IsPlain : ℕ → Type 0
IsPlain c = 10 < c

digit_text-IsPlain : (digits : List ℕ) → All (λ d. d < 10) digits → All IsPlain (digit_text digits)
digit_text-IsPlain [] h = tt
digit_text-IsPlain (d ∷ digits) h = (omega (arith, h.0), digit_text-IsPlain digits h.1)

IsNumberText-IsPlain : {text : List ℕ} {n : ℤ} → IsNumberText text n → All IsPlain text
IsNumberText-IsPlain (plain (digits, h, e, v) small) = rw e (digit_text-IsPlain digits h.1)
IsNumberText-IsPlain (minus (digits, h, e, v) small) =
    (omega arith, rw e (digit_text-IsPlain digits h.1))

take_line-IsPlain :
    (n : ℕ) (text rest : List ℕ)
    → All IsPlain text
    → length text < n
    → take_line n (text ++ 10 ∷ rest) ≡ (text ++ 10 ∷ [], rest)
unfolding take_line
take_line-IsPlain zero text rest h short = absurd (omega (arith, short))
take_line-IsPlain (suc n) [] rest h short = refl
take_line-IsPlain (suc n) (c ∷ text) rest h short =
    let later = take_line-IsPlain n text rest h.1 (omega (arith, short)) in
    let other : (c == 10) ≡ false = ground arith in rw (other, later) refl

pub c_string-IsPlain :
    (text : List ℕ) → All IsPlain text → c_string (text ++ 10 ∷ []) ≡ text ++ 10 ∷ []
unfolding c_string
c_string-IsPlain [] h = refl
c_string-IsPlain (c ∷ text) h =
    let other : (c == 0) ≡ false = ground arith in rw (other, c_string-IsPlain text h.1) refl

scan_digits-line :
    (acc : ℕ) (digits : List ℕ)
    → All (λ d. d < 10) digits
    → scan_digits acc (digit_text digits ++ 10 ∷ [])
      ≡ (acc * 10 ^ length digits + value digits, 10 ∷ [])
unfolding scan_digits
scan_digits-line acc [] h = unfold is_digit in ap (λ n. (n, 10 ∷ [])) (omega arith)
scan_digits-line acc (d ∷ digits) h =
    let shifted : acc * 10 + (48 + d - 48) ≡ acc * 10 + d = omega arith in
    rw (digit-is_digit d h.0, shifted, scan_digits-line (acc * 10 + d) digits h.1)
      (ap (λ n. (n, 10 ∷ [])) (scan_step acc d (length digits) (value digits)))

scan_number-digits :
    (c : ℕ) (cs : List ℕ) → is_digit c ≡ true → scan_number (c ∷ cs) ≡ some (scan_digits 0 (c ∷ cs))
unfolding scan_number
scan_number-digits c cs h = rw h refl

scan_number-IsDecimal :
    (text : List ℕ) (n : ℕ) → IsDecimal text n → scan_number (text ++ 10 ∷ []) ≡ some (n, 10 ∷ [])
scan_number-IsDecimal text n ([], h, e, v) = ground arith
scan_number-IsDecimal text n (d ∷ digits, h, e, v) =
    let same : 0 * 10 ^ length (d ∷ digits) + value (d ∷ digits) ≡ n = ground arith in
    rw e (
      scan_number-digits (48 + d) (digit_text digits ++ 10 ∷ []) (digit-is_digit d h.1.0)
      ∙ ap some (scan_digits-line 0 (d ∷ digits) h.1)
      ∙ ap (λ m. some (m, 10 ∷ [])) same)

signed_int-large : (n : ℕ) → suc n ≤ 2 ^ 31 → signed_int true (suc n) ≡ some (negsuc n)
unfolding signed_int
signed_int-large n small = ground arith

pub skip_spaces-digit : (c : ℕ) (cs : List ℕ) → 32 < c → skip_spaces (c ∷ cs) ≡ c ∷ cs
unfolding skip_spaces is_space
skip_spaces-digit c cs h = ground arith

sscanf_sign-digit :
    (c : ℕ) (cs : List ℕ) (old : ℤ)
    → 45 < c
    → sscanf_sign (c ∷ cs) old ≡ int_of false (scan_number (c ∷ cs)) old
unfolding sscanf_sign
sscanf_sign-digit c cs old h =
    let minus_sign : (c == 45) ≡ false = ground arith in
    let plus_sign : (c == 43) ≡ false = ground arith in rw (minus_sign, plus_sign) refl

sscanf_d-text :
    (c : ℕ) (cs : List ℕ) (old : ℤ)
    → 32 < c
    → All IsPlain (c ∷ cs)
    → sscanf_d (c ∷ cs ++ 10 ∷ []) old ≡ sscanf_sign (c ∷ cs ++ 10 ∷ []) old
unfolding sscanf_d
sscanf_d-text c cs old above h =
    rw (c_string-IsPlain (c ∷ cs) h, skip_spaces-digit c (cs ++ 10 ∷ []) above) refl

sscanf_d-IsNumberText :
    (text : List ℕ) (n old : ℤ) → IsNumberText text n → sscanf_d (text ++ 10 ∷ []) old ≡ some n
unfolding int_of
sscanf_d-IsNumberText text (pos n) old (plain ([], h, e, v) small) = ground arith
sscanf_d-IsNumberText text (pos n) old (plain (d ∷ digits, h, e, v) small) = rw e (
    sscanf_d-text (48 + d) (digit_text digits) old (omega arith)
      (digit_text-IsPlain (d ∷ digits) h.1)
    ∙ sscanf_sign-digit (48 + d) (digit_text digits ++ 10 ∷ []) old (omega arith)
    ∙ ap (λ found. int_of false found old) (scan_number-IsDecimal _ n (d ∷ digits, h, refl, v))
    ∙ signed_int-small n small)
sscanf_d-IsNumberText text (negsuc n) old (minus {text = digits} d small) =
    sscanf_d-text 45 digits old (omega arith) (IsNumberText-IsPlain (minus d small))
    ∙ unfold sscanf_sign in
      ap (λ found. int_of true found old) (scan_number-IsDecimal digits (suc n) d)
      ∙ signed_int-large n small

pub fgets-IsPlain :
    (input text rest : List ℕ) (buffer : Option (List ℕ))
    → input ≡ text ++ 10 ∷ rest
    → All IsPlain text
    → length text < 99
    → fgets input buffer ≡ (some (text ++ 10 ∷ []), rest)
unfolding fgets
fgets-IsPlain input [] rest buffer e h short =
    rw e (ap (λ line. (some line.0, line.1)) (take_line-IsPlain 99 [] rest h short))
fgets-IsPlain input (c ∷ text) rest buffer e h short =
    rw e (ap (λ line. (some line.0, line.1)) (take_line-IsPlain 99 (c ∷ text) rest h short))

module _ {S T : Type 0} where
  -- One line is read, and nothing of what follows it.
  pub read_int-IsNumberText :
      (buffer : Option (List ℕ)) (old : ℤ) (text rest : List ℕ) (n : ℤ) (s : Console S T)
      → s.input ≡ text ++ 10 ∷ rest
      → IsNumberText text n
      → length text < 99
      → read_int buffer old s ≡ done (text ++ 10 ∷ [], n) (record s { input = rest })
  unfolding read_int scanned stored_int
  read_int-IsNumberText buffer old text rest n s e h short =
      ap (λ line. scanned line.0 old (record s { input = line.1 }))
        (fgets-IsPlain s.input text rest buffer e (IsNumberText-IsPlain h) short)
      ∙ ap (λ found. stored_int found (text ++ 10 ∷ []) (record s { input = rest }))
          (sscanf_d-IsNumberText text n old h)
