-- ===== src/Stdin.antt =====
-- Console input, as the programs read it: fgets on stdin into a buffer of 100 chars, and sscanf
-- on that buffer. Characters are bytes; stdin is the list of those that are still to come.
pub mod Bounds
use ledcontroller.Prelude.{
  ℕ, zero, suc, ◌+◌, ◌-◌, ◌*◌, ◌%◌, ◌^◌, Bool, true, false, ◌&&◌, ◌||◌, List, [], ◌∷◌, Option, none,
  some, leb, ◌==◌, if◌then◌else◌,
}

-- The characters of one fgets with room for `n`: up to the line's end, which is kept.
unfoldable pub take_line : ℕ → List ℕ → List ℕ × List ℕ
take_line zero input = ([], input)
take_line (suc n) [] = ([], [])
take_line (suc n) (c ∷ input) =
    let rest = take_line n input in if c == 10 then (c ∷ [], input) else (c ∷ rest.0, rest.1)

-- fgets(userInput, sizeof(userInput), stdin) with an array of 100: at the end of stdin the buffer
-- is left as it was. `none` is a buffer that nothing was ever written to.
unfoldable pub fgets : List ℕ → Option (List ℕ) → Option (List ℕ) × List ℕ
unfolding take_line
fgets [] buffer = (buffer, [])
fgets (c ∷ input) buffer = let line = take_line 99 (c ∷ input) in (some line.0, line.1)

-- A char array as a C string: what stands before the first NUL.
unfoldable pub c_string : List ℕ → List ℕ
c_string [] = []
c_string (c ∷ cs) = if c == 0 then [] else c ∷ c_string cs

-- strcmp(s, t) == 0 on such strings.
unfoldable pub same_text : List ℕ → List ℕ → Bool
same_text [] [] = true
same_text [] (y ∷ ys) = false
same_text (x ∷ xs) [] = false
same_text (x ∷ xs) (y ∷ ys) = x == y && same_text xs ys

-- 0 == strcmp("\n", userInput)
unfoldable pub is_empty_line : List ℕ → Bool
unfolding c_string same_text
is_empty_line line = same_text (10 ∷ []) (c_string line)

-- isspace in the C locale.
unfoldable pub is_space : ℕ → Bool
is_space c = c == 32 || (leb 9 c && leb c 13)

unfoldable pub is_digit : ℕ → Bool
is_digit c = leb 48 c && leb c 57

unfoldable pub skip_spaces : List ℕ → List ℕ
unfolding is_space
skip_spaces [] = []
skip_spaces (c ∷ cs) = if is_space c then skip_spaces cs else c ∷ cs

-- The digits at the head of a text, added to the number read so far.
unfoldable pub scan_digits : ℕ → List ℕ → ℕ × List ℕ
unfolding is_digit
scan_digits n [] = (n, [])
scan_digits n (c ∷ cs) =
    let rest = scan_digits (n * 10 + (c - 48)) cs in if is_digit c then rest else (n, c ∷ cs)

-- A number with at least one digit.
unfoldable pub scan_number : List ℕ → Option (ℕ × List ℕ)
unfolding scan_digits
scan_number [] = none
scan_number (c ∷ cs) = if is_digit c then some (scan_digits 0 (c ∷ cs)) else none

-- One %hu: blanks, a sign, digits. A number that an `unsigned short` does not hold is undefined in
-- C, and `hu_in_range` below is its test; what is stored for it here is the number modulo 2^16.
signed_hu : List ℕ → Option (ℕ × List ℕ)
signed_hu [] = none
signed_hu (c ∷ cs) =
    if c == 45
    then (elim (scan_number cs) [
      | none ↦ none
      | some (n, rest) ↦ some ((2 ^ 16 - n % 2 ^ 16) % 2 ^ 16, rest)
    ])
    else (elim (scan_number (if c == 43 then cs else c ∷ cs)) [
      | none ↦ none
      | some (n, rest) ↦ some (n % 2 ^ 16, rest)
    ])

unfoldable pub scan_hu : List ℕ → Option (ℕ × List ℕ)
unfolding signed_hu skip_spaces scan_number
scan_hu text = signed_hu (skip_spaces text)

number_at_most : ℕ → Option (ℕ × List ℕ) → Bool
number_at_most bound none = true
number_at_most bound (some (n, rest)) = leb n bound

signed_in_range : List ℕ → Bool
unfolding number_at_most scan_number
signed_in_range [] = true
signed_in_range (c ∷ cs) =
    if c == 45
    then number_at_most 0 (scan_number cs)
    else number_at_most 65535 (scan_number (if c == 43 then cs else c ∷ cs))

-- Whether an `unsigned short` holds the number that one %hu reads; true if it reads none.
unfoldable pub hu_in_range : List ℕ → Bool
unfolding skip_spaces signed_in_range
hu_in_range text = signed_in_range (skip_spaces text)

-- The second %hu, and what both conversions store.
sscanf_second : ℕ → Option (ℕ × List ℕ) → ℕ → ℕ × ℕ
sscanf_second n none b = (n, b)
sscanf_second n (some (m, rest)) b = (n, m)

sscanf_first : Option (ℕ × List ℕ) → ℕ → ℕ → ℕ × ℕ
unfolding sscanf_second
sscanf_first none a b = (a, b)
sscanf_first (some (n, rest)) a b = sscanf_second n (scan_hu rest) b

-- sscanf(line, "%hu %hu", &a, &b): a conversion that fails leaves its variable, and ends the scan.
unfoldable pub sscanf_hu_hu : List ℕ → ℕ → ℕ → ℕ × ℕ
unfolding scan_hu c_string sscanf_first
sscanf_hu_hu line a b = sscanf_first (scan_hu (c_string line)) a b

second_in_range : Option (ℕ × List ℕ) → Bool
unfolding hu_in_range
second_in_range none = true
second_in_range (some (n, rest)) = hu_in_range rest

-- Whether sscanf(line, "%hu %hu", &a, &b) is defined.
unfoldable pub hu_hu_in_range : List ℕ → Bool
unfolding c_string hu_in_range scan_hu second_in_range
hu_hu_in_range line = hu_in_range (c_string line) && second_in_range (scan_hu (c_string line))

-- One %s: blanks, then the characters up to the next blank; none is a failure.
unfoldable pub scan_word : List ℕ → List ℕ × List ℕ
unfolding is_space
scan_word [] = ([], [])
scan_word (c ∷ cs) =
    let rest = scan_word cs in if is_space c then ([], c ∷ cs) else (c ∷ rest.0, rest.1)

unfoldable pub word_then_hu : List ℕ × List ℕ → List ℕ → ℕ → List ℕ × ℕ
word_then_hu ([], rest) word n = (word, n)
word_then_hu (c ∷ cs, rest) word n = (c ∷ cs, elim (scan_hu rest) [ none ↦ n | some (m, _) ↦ m ])

-- sscanf(line, "%s %hu", word, &n), whatever room `word` has.
unfoldable pub sscanf_s_hu : List ℕ → List ℕ → ℕ → List ℕ × ℕ
unfolding c_string skip_spaces scan_word word_then_hu scan_hu
sscanf_s_hu line word n = word_then_hu (scan_word (skip_spaces (c_string line))) word n

number_after_word : List ℕ × List ℕ → Bool
unfolding hu_in_range
number_after_word ([], rest) = true
number_after_word (c ∷ cs, rest) = hu_in_range rest

-- Whether the number of that scan is one that an `unsigned short` holds.
unfoldable pub s_hu_in_range : List ℕ → Bool
unfolding c_string skip_spaces scan_word number_after_word
s_hu_in_range line = number_after_word (scan_word (skip_spaces (c_string line)))
