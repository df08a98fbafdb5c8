-- ===== src/Json/Text.antt =====
-- Text as Server/JSONToLeds.c reads it: the characters of a token, atoi, strtok and the casts.
pub mod Decimal
use ledcontroller.Prelude.{
  ℕ, zero, suc, ◌+◌, ◌-◌, ◌%◌, ◌^◌, Bool, true, false, ◌&&◌, List, [], ◌∷◌, Option, none, some, ℤ,
  pos, negsuc, ltb, leb, ◌==◌, if◌then◌else◌, length, take, drop,
}
use ledcontroller.Stdin.{same_text, scan_digits, skip_spaces}
use ledcontroller.Json.{JsmnType, Token}
use ledcontroller.Json

-- The characters of a token, as strncpy copies them into an array that is then closed by a NUL.
unfoldable pub token_text : List ℕ → Token → List ℕ
token_text json token = take (token.end - token.start) (drop token.start json)

unfoldable pub is_type : JsmnType → JsmnType → Bool
is_type Json.undefined Json.undefined = true
is_type Json.object Json.object = true
is_type Json.array Json.array = true
is_type Json.string Json.string = true
is_type Json.primitive Json.primitive = true
is_type _ _ = false

-- 0 == strTokenCompare(jSONString, token, cprString)
unfoldable pub str_token_compare : List ℕ → Token → List ℕ → Bool
unfolding is_type token_text
str_token_compare json token text =
    is_type token.type Json.string
    && (token.start + length text == token.end && same_text (token_text json token) text)

-- The value of digits after a sign; a value that an `int` cannot hold is undefined.
unfoldable pub signed_int : Bool → ℕ → Option ℤ
signed_int minus zero = some (pos 0)
signed_int false (suc n) = if ltb (suc n) (2 ^ 31) then some (pos (suc n)) else none
signed_int true (suc n) = if leb (suc n) (2 ^ 31) then some (negsuc n) else none

digits_int : List ℕ → Option ℤ
unfolding signed_int
digits_int [] = some (pos 0)
digits_int (c ∷ cs) =
    if c == 45
    then signed_int true (scan_digits 0 cs).0
    else signed_int false (scan_digits 0 (if c == 43 then cs else c ∷ cs)).0

unfoldable pub atoi : List ℕ → Option ℤ
unfolding digits_int skip_spaces scan_digits
atoi text = digits_int (skip_spaces text)

-- The casts of an `int` to unsigned short and to Byte.
unfoldable pub to_u16 : ℤ → ℕ
to_u16 (pos n) = n % 2 ^ 16
to_u16 (negsuc n) = 2 ^ 16 - 1 - n % 2 ^ 16

unfoldable pub to_byte : ℤ → ℕ
to_byte (pos n) = n % 2 ^ 8
to_byte (negsuc n) = 2 ^ 8 - 1 - n % 2 ^ 8

-- strtok with the delimiters "x": what it skips, then the piece and what a next call goes on with.
skip_delimiters : List ℕ → List ℕ
skip_delimiters [] = []
skip_delimiters (c ∷ cs) = if c == 120 then skip_delimiters cs else c ∷ cs

piece : List ℕ → List ℕ × List ℕ
piece [] = ([], [])
piece (c ∷ cs) = let rest = piece cs in if c == 120 then ([], cs) else (c ∷ rest.0, rest.1)

piece_of : List ℕ → Option (List ℕ × List ℕ)
unfolding piece
piece_of [] = none
piece_of (c ∷ cs) = some (piece (c ∷ cs))

unfoldable pub strtok : List ℕ → Option (List ℕ × List ℕ)
unfolding skip_delimiters piece_of
strtok text = piece_of (skip_delimiters text)
