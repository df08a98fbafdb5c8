-- ===== src/Json/Walk.antt =====
-- Server/JSONToLeds.c: extractRGBFromString, the walk over the tokens of a text. Indices are those
-- of the token list; a read past the tokens that jsmn wrote is undefined.
pub mod Sound
pub mod Rounds
pub mod Whole
pub mod Document
pub mod Tokens
pub mod Placed
pub mod Reading
pub mod Success
use ledcontroller.Prelude.{
  ℕ, zero, suc, ◌+◌, Bool, true, false, not, List, [], ◌∷◌, Option, none, some, ℤ, pos, negsuc, ltb,
  if◌then◌else◌, get_elem?,
}
use ledcontroller.Led.{Address, AddressableLed, Cell, LedSequence}
use ledcontroller.Stdin.{same_text}
use ledcontroller.Run.{Outcome, done, exited, fault, waiting, Run}
use ledcontroller.Run
use ledcontroller.Json.{
  JsonResult, all_ok, invalid_json, led_sequences_not_initialized, JsmnType, object, array, string,
  primitive, Token, Jsmn, Sequences,
}
use ledcontroller.Json.Text.{token_text, is_type, str_token_compare, atoi, to_u16, to_byte, strtok}
use ledcontroller.Json.Store.{
  free_led_sequences, malloc, add_new_sequence, append_to_current_sequence,
}

-- A step of the function goes on, or has returned its result.
pub data Step (A : Type 0) : Type 0 where
  go : A → Step A
  returned : JsonResult → Step A

abbrev pub Parse : Type 0 → Type 0
Parse A = Run Sequences (Step A)

module _ {A : Type 0} where
  abbrev pub go_on : A → Parse A
  go_on a s = done (go a) s

  abbrev pub give : JsonResult → Parse A
  give r s = done (returned r) s

  abbrev pub lifted : Outcome Sequences A → Outcome Sequences (Step A)
  lifted (done a s) = done (go a) s
  lifted (exited code s) = exited code s
  lifted fault = fault
  lifted (waiting s) = waiting s

module _ {A B : Type 0} where
  abbrev pub and_then : (A → Parse B) → Outcome Sequences (Step A) → Outcome Sequences (Step B)
  and_then k (done (go a) s) = k a s
  and_then k (done (returned r) s) = done (returned r) s
  and_then k (exited code s) = exited code s
  and_then k fault = fault
  and_then k (waiting s) = waiting s

  infixl 5 ◌>>=◌
  abbrev pub ◌>>=◌ : Parse A → (A → Parse B) → Parse B
  ◌>>=◌ m k s = and_then k (m s)

infixl 5 ◌>>◌
abbrev pub ◌>>◌ : {A B : Type 0} → Parse A → Parse B → Parse B
m >> n = m >>= λ _. n

-- p && q, which does not look at `q` if `p` is false.
abbrev pub both : Parse Bool → Parse Bool → Parse Bool
both p q = do first ← p; if first then q else go_on false

-- A value that C leaves undefined where there is none.
abbrev pub need : {A : Type 0} → Option A → Parse A
need none s = fault
need (some a) s = done (go a) s

-- if (0 != result) return result;
abbrev pub check : JsonResult → Parse (Unit {0})
check JsonResult.all_ok = go_on tt
check r = give r

abbrev pub name_text : List ℕ
name_text = b'N' ∷ b'a' ∷ b'm' ∷ b'e' ∷ []

abbrev pub size_text : List ℕ
size_text = b'S' ∷ b'i' ∷ b'z' ∷ b'e' ∷ []

abbrev pub seq_text : List ℕ
seq_text = b'S' ∷ b'e' ∷ b'q' ∷ []

abbrev pub delay_text : List ℕ
delay_text = b'D' ∷ b'e' ∷ b'l' ∷ b'a' ∷ b'y' ∷ []

abbrev pub led_text : List ℕ
led_text = b'L' ∷ b'e' ∷ b'd' ∷ []

abbrev pub addr_text : List ℕ
addr_text = b'A' ∷ b'd' ∷ b'd' ∷ b'r' ∷ []

abbrev pub all_text : List ℕ
all_text = b'A' ∷ b'L' ∷ b'L' ∷ []

module _ (json : List ℕ) (tokens : List Token) where
  unfoldable pub token : ℕ → Parse Token
  token i = need (get_elem? tokens i)

  unfoldable pub is_key : ℕ → List ℕ → Parse Bool
  unfolding token
  is_key i text = do t ← token i; go_on (str_token_compare json t text)

  unfoldable pub has_type : ℕ → JsmnType → Parse Bool
  unfolding token
  has_type i type = do t ← token i; go_on (is_type t.type type)

  -- incorrectJSONHandler, which names the place of the token, and the return after it.
  unfoldable pub incorrect_json : {A : Type 0} → ℕ → Parse A
  unfolding token
  incorrect_json i = do token i; (λ s. lifted (free_led_sequences s)); give invalid_json

  -- atoi of the characters of a token.
  unfoldable pub number : ℕ → Parse ℤ
  unfolding token
  number i = do t ← token i; need (atoi (token_text json t))

  -- The column, and the whole address, from what strtok gives.
  column_of : ℕ → ℕ → Option (List ℕ × List ℕ) → Parse Address
  unfolding incorrect_json
  column_of i row none = incorrect_json i
  column_of i row (some (second, _)) = do
    column ← need (atoi second)
    go_on (record { row = row; column = to_u16 column })

  address_of : ℕ → Option (List ℕ × List ℕ) → Parse Address
  unfolding column_of incorrect_json
  address_of i none = incorrect_json i
  address_of i (some (first, rest)) =
      if same_text all_text first
      then go_on (record { row = 65535; column = 65535 })
      else (do row ← need (atoi first); column_of i (to_u16 row) (strtok rest))

  unfoldable pub led_address : ℕ → Parse Address
  unfolding token address_of
  led_address i = do t ← token i; address_of i (strtok (token_text json t))

  -- The eight conditions on the tokens of an LED, from the second after `i` on.
  unfoldable pub is_led : ℕ → Parse Bool
  unfolding is_key has_type
  is_led i = both (is_key (i + 2) addr_text) (
      both (has_type (i + 3) string) (
        both (is_key (i + 4) (b'R' ∷ [])) (
          both (has_type (i + 5) primitive) (
            both (is_key (i + 6) (b'G' ∷ [])) (
              both (has_type (i + 7) primitive)
                (both (is_key (i + 8) (b'B' ∷ [])) (has_type (i + 9) primitive)))))))

  module _ (grants : ℕ → Bool) where
    -- One round of the loop over LEDs: `i` is the token before, the result the last that was read.
    unfoldable pub read_led : ℕ → Parse ℕ
    unfolding has_type incorrect_json is_led led_address number
    read_led i = do
      is_object ← has_type (i + 1) object
      if not is_object then incorrect_json (i + 1) else (do
        fits ← is_led i
        if not fits then incorrect_json (i + 2) else (do
          address ← led_address (i + 3)
          red ← number (i + 5)
          green ← number (i + 7)
          blue ← number (i + 9)
          let led : AddressableLed = record {
            address = address;
            led_value = record { red = to_byte red; green = to_byte green; blue = to_byte blue };
          }
          result ← (λ s. lifted (append_to_current_sequence grants led s))
          check result
          go_on (i + 9)))

    unfoldable pub read_leds : ℕ → ℕ → Parse ℕ
    unfolding read_led
    read_leds zero i = go_on i
    read_leds (suc left) i = do next ← read_led i; read_leds left next

    module _ (pointer_bytes : ℕ) where
      -- One round of the loop over sequences.
      unfoldable pub read_sequence : ℕ → Parse ℕ
      unfolding has_type is_key incorrect_json number token read_leds
      read_sequence i = do
        is_object ← has_type (i + 1) object
        if not is_object then incorrect_json (i + 1) else (do
          has_delay ← both (is_key (i + 2) delay_text) (has_type (i + 3) primitive)
          if not has_delay then incorrect_json (i + 2) else (do
            delay ← number (i + 3)
            result ← (λ s. lifted (add_new_sequence grants pointer_bytes delay s))
            check result
            has_leds ← both (is_key (i + 4) led_text) (has_type (i + 5) array)
            if not has_leds
                then incorrect_json (i + 4)
                else (do leds ← token (i + 5); read_leds leds.size (i + 5))))

      unfoldable pub read_sequences : ℕ → ℕ → Parse ℕ
      unfolding read_sequence
      read_sequences zero i = go_on i
      read_sequences (suc left) i = do next ← read_sequence i; read_sequences left next

      -- One round of the loop over the tokens; it ends on the last token that it read.
      unfoldable pub read_entry : ℕ → Parse ℕ
      unfolding is_key token has_type read_sequences
      read_entry i = do
        is_name ← is_key i name_text
        if is_name then (do token (i + 1); go_on (i + 1)) else (do
          is_size ← is_key i size_text
          if is_size then (do token (i + 1); go_on (i + 1)) else (do
            is_seq ← is_key i seq_text
            if not is_seq then go_on i else (do
              is_array ← has_type (i + 1) array
              if not is_array
                  then go_on i
                  else (do list ← token (i + 1); read_sequences list.size (i + 1)))))

      unfoldable pub read_entries : ℕ → ℕ → ℕ → Parse (Unit {0})
      unfolding read_entry
      read_entries zero count i = if ltb i count then waiting else go_on tt
      read_entries (suc fuel) count i =
          if ltb i count
          then (do last ← read_entry i; read_entries fuel count (last + 1))
          else go_on tt

-- What a call leaves in *outSequences, if it writes it.
abbrev pub Written : Type 0
Written = Option (Option (List (Cell LedSequence)))

-- The end of the function: on success *outSequences is the array.
unfoldable pub finish :
    Outcome Sequences (Step (Unit {0})) → Outcome Sequences (JsonResult × Written)
finish (done (go _) s) =
    done (all_ok, some s.extracted_sequences) (record s { is_initialized = false })
finish (done (returned r) s) = done (r, none) s
finish (exited code s) = exited code s
finish fault = fault
finish (waiting s) = waiting s

module _ (jsmn : Jsmn) (grants : ℕ → Bool) (pointer_bytes : ℕ) where
  -- The second call of jsmn_parse has an array only if malloc gives one.
  parse_tokens : Bool → List ℕ → ℕ → ℤ × List Token
  parse_tokens granted text n = if granted then jsmn.parse text n else (jsmn.count text, [])

  -- From the result of the second call on.
  unfoldable pub walk : List ℕ → ℤ × List Token → Parse (Unit {0})
  unfolding has_type read_entries
  walk text (negsuc n, tokens) = give invalid_json
  walk text (pos zero, tokens) = give invalid_json
  walk text (pos (suc n), tokens) = do
    is_object ← has_type text tokens 0 object
    if not is_object
        then give invalid_json
        else read_entries text tokens grants pointer_bytes n (suc n) 1

  unfoldable pub parse_text : List ℕ → Parse (Unit {0})
  unfolding walk parse_tokens malloc
  parse_text text s =
      if not s.is_initialized
      then done (returned led_sequences_not_initialized) s
      else (elim (jsmn.count text) [
        | negsuc n ↦ done (returned invalid_json) s
        | pos n ↦
            ((λ t. lifted (malloc grants t)) >>= λ granted. walk text (parse_tokens granted text n))
              s
      ])

  unfoldable pub extract_rgb_from_string : List ℕ → Run Sequences (JsonResult × Written)
  unfolding finish parse_text
  extract_rgb_from_string text s = finish (parse_text text s)
