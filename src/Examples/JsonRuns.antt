-- ===== src/Examples/JsonRuns.antt =====
-- The theorems on Server/JSONToLeds.c, at the text of one small document.
use ledcontroller.Json.Store.Arrays.{closed}
use ledcontroller.Prelude.{
  ◌<◌, map, ◌↔◌, ℕ, ◌≡◌, refl, inl, Bool, true, false, List, [], ◌∷◌, some, arith, pos,
}
use ledcontroller.Led.{AddressableLed, null}
use ledcontroller.Json.Contract.{extract_rgb_from_string-init_led_sequences}
use ledcontroller.Json.Store.{init_led_sequences}
use ledcontroller.Run.{◌>>◌, done, fault}
use ledcontroller.Json.{JsmnType, object, array, string, primitive, Token, Jsmn, Sequences, all_ok}
use ledcontroller.Json.Text.{token_text, str_token_compare}
use ledcontroller.Json.Store.{add_new_sequence, append_to_current_sequence}
use ledcontroller.Json.Store.Stored.{stored, Sequence, IsStored, Ends}
use ledcontroller.Json.Store.Adding.{started, add_new_sequence-granted, add_new_sequence-fault_iff}
use ledcontroller.Json.Store.Appending.{with_led, append_to_current_sequence-granted}
use ledcontroller.Json.Walk.{extract_rgb_from_string}
use ledcontroller.Json.Walk.Document.{
  grid, LedAt, SequenceAt, no_sequence, one_more, end_of_text, name, seq,
}
use ledcontroller.Json.Walk.Placed.{IsPlaced, str_token_compare-IsPlaced}
use ledcontroller.Json.Walk.Whole.{Answer, extract_rgb_from_string-Ends}
use ledcontroller.Json.Walk.Success.{IsDocument, extract_rgb_from_string-IsDocument}

abbrev json_token : JsmnType → ℕ → ℕ → ℕ → Token
json_token type start end size = record { type = type; start = start; end = end; size = size }

-- {"Name":"n","Seq":[{"Delay":500,"Led":[{"Addr":"1x2","R":255,"G":0,"B":30}]}]}
abbrev pub text : List ℕ
text =
    b'{' ∷ 34 ∷ b'N' ∷ b'a' ∷ b'm' ∷ b'e' ∷ 34 ∷ b':' ∷ 34 ∷ b'n' ∷ 34 ∷ b',' ∷ 34 ∷ b'S' ∷ b'e'
    ∷ b'q' ∷ 34 ∷ b':' ∷ b'[' ∷ b'{' ∷ 34 ∷ b'D' ∷ b'e' ∷ b'l' ∷ b'a' ∷ b'y' ∷ 34 ∷ b':' ∷ b'5'
    ∷ b'0' ∷ b'0' ∷ b',' ∷ 34 ∷ b'L' ∷ b'e' ∷ b'd' ∷ 34 ∷ b':' ∷ b'[' ∷ b'{' ∷ 34 ∷ b'A' ∷ b'd'
    ∷ b'd' ∷ b'r' ∷ 34 ∷ b':' ∷ 34 ∷ b'1' ∷ b'x' ∷ b'2' ∷ 34 ∷ b',' ∷ 34 ∷ b'R' ∷ 34 ∷ b':' ∷ b'2'
    ∷ b'5' ∷ b'5' ∷ b',' ∷ 34 ∷ b'G' ∷ 34 ∷ b':' ∷ b'0' ∷ b',' ∷ 34 ∷ b'B' ∷ 34 ∷ b':' ∷ b'3' ∷ b'0'
    ∷ b'}' ∷ b']' ∷ b'}' ∷ b']' ∷ b'}' ∷ []

abbrev tokens : List Token
tokens =
    json_token object 0 78 2
    ∷ json_token string 2 6 1
    ∷ json_token string 9 10 0
    ∷ json_token string 13 16 1
    ∷ json_token array 18 77 1
    ∷ json_token object 19 76 2
    ∷ json_token string 21 26 1
    ∷ json_token primitive 28 31 0
    ∷ json_token string 33 36 1
    ∷ json_token array 38 75 1
    ∷ json_token object 39 74 4
    ∷ json_token string 41 45 1
    ∷ json_token string 48 51 0
    ∷ json_token string 54 55 1
    ∷ json_token primitive 57 60 0
    ∷ json_token string 62 63 1
    ∷ json_token primitive 65 66 0
    ∷ json_token string 68 69 1
    ∷ json_token primitive 71 73 0
    ∷ []

-- A tokenizer that finds these tokens.
abbrev pub tokenizer : Jsmn
tokenizer = record { count = λ t. pos 19; parse = λ t n. (pos 19, tokens) }

abbrev pub granting : ℕ → Bool
granting n = true

-- The statics after initLEDSequences.
abbrev fresh : Sequences
fresh = record {
  extracted_sequences = some (null ∷ []);
  is_initialized = true;
  number_of_sequences = 0;
  calls = 1;
}

fresh-IsStored : IsStored [] fresh
fresh-IsStored = record { array = inl refl; number = refl; room = omega arith; bounded = tt }

abbrev pub led : AddressableLed
led = record {
  address = record { row = 1; column = 2 };
  led_value = record { red = 255; green = 0; blue = 30 };
}

abbrev pub sequence : Sequence
sequence = record { delay = 500; leds = led ∷ [] }

led-LedAt : LedAt text tokens 9 led
unfolding token_text
led-LedAt = record {
  braces = (json_token object 39 74 4, refl, refl);
  addr_key = (json_token string 41 45 1, refl, (refl, refl, refl));
  addr = (
    json_token string 48 51 0,
    refl,
    (
      refl,
      grid {first = 49 ∷ []} {second = 50 ∷ []}
          (1 ∷ [], (omega arith, (omega arith, tt)), refl, refl)
          (2 ∷ [], (omega arith, (omega arith, tt)), refl, refl) (omega arith) (omega arith),
    ),
  );
  red_key = (json_token string 54 55 1, refl, (refl, refl, refl));
  red = (
    json_token primitive 57 60 0,
    refl,
    (
      refl,
      (2 ∷ 5 ∷ 5 ∷ [], (omega arith, (omega arith, (omega arith, (omega arith, tt)))), refl, refl),
      omega arith,
    ),
  );
  green_key = (json_token string 62 63 1, refl, (refl, refl, refl));
  green = (
    json_token primitive 65 66 0,
    refl,
    (refl, (0 ∷ [], (omega arith, (omega arith, tt)), refl, refl), omega arith),
  );
  blue_key = (json_token string 68 69 1, refl, (refl, refl, refl));
  blue = (
    json_token primitive 71 73 0,
    refl,
    (refl, (3 ∷ 0 ∷ [], (omega arith, (omega arith, (omega arith, tt))), refl, refl), omega arith),
  );
}

sequence-SequenceAt : SequenceAt text tokens 4 sequence 18
unfolding token_text
sequence-SequenceAt = record {
  braces = (json_token object 19 76 2, refl, refl);
  delay_key = (json_token string 21 26 1, refl, (refl, refl, refl));
  delay = (
    json_token primitive 28 31 0,
    refl,
    (
      refl,
      (5 ∷ 0 ∷ 0 ∷ [], (omega arith, (omega arith, (omega arith, (omega arith, tt)))), refl, refl),
      omega arith,
    ),
  );
  led_key = (json_token string 33 36 1, refl, (refl, refl, refl));
  led = (json_token array 38 75 1, refl, (refl, refl));
  leds = (led-LedAt, refl);
  few = omega arith;
}

pub text-IsDocument : IsDocument tokenizer text (sequence ∷ [])
unfolding token_text
text-IsDocument = record {
  tokens = tokens;
  n = 18;
  counted = refl;
  parsed = refl;
  braces = (json_token object 0 78 2, refl, refl);
  entries =
      name (omega arith) (json_token string 2 6 1, refl, (refl, refl, refl))
        (json_token string 9 10 0, refl, tt)
        (seq {new = sequence ∷ []} {rest = []} (omega arith)
          (json_token string 13 16 1, refl, (refl, refl, refl))
          (json_token array 18 77 1, refl, (refl, refl)) (one_more sequence-SequenceAt no_sequence)
          (end_of_text (omega arith)));
}

extract_rgb_from_string-IsDocument_example :
    (s' : Sequences) × (extract_rgb_from_string tokenizer granting 4 text fresh
      ≡ done (all_ok, some s'.extracted_sequences) s')
    × (s'.is_initialized ≡ false)
    × IsStored (sequence ∷ []) s'
extract_rgb_from_string-IsDocument_example =
    extract_rgb_from_string-IsDocument tokenizer granting (λ n. refl) 4 (omega arith) text
      (sequence ∷ []) [] fresh text-IsDocument refl fresh-IsStored (omega arith)

extract_rgb_from_string-Ends_example :
    Ends (λ x t. Answer x.0 x.1 t) (extract_rgb_from_string tokenizer granting 4 text fresh)
extract_rgb_from_string-Ends_example =
    extract_rgb_from_string-Ends tokenizer granting 4 text fresh ([], fresh-IsStored)

str_token_compare-IsPlaced_example :
    (str_token_compare text (json_token string 2 6 1) (b'N' ∷ b'a' ∷ b'm' ∷ b'e' ∷ []) ≡ true)
    ↔ IsPlaced text (b'N' ∷ b'a' ∷ b'm' ∷ b'e' ∷ []) (json_token string 2 6 1)
str_token_compare-IsPlaced_example =
    str_token_compare-IsPlaced text (b'N' ∷ b'a' ∷ b'm' ∷ b'e' ∷ []) (json_token string 2 6 1)
      (omega arith)

add_new_sequence-granted_example :
    (s' : Sequences) × (add_new_sequence granting 4 (pos 500) fresh ≡ done all_ok s')
    × IsStored (started (pos 500) ∷ []) s'
add_new_sequence-granted_example =
    add_new_sequence-granted [] fresh fresh-IsStored granting 4 (pos 500) (omega arith)
      (omega arith) refl refl

add_new_sequence-fault_iff_example : (add_new_sequence granting 8 (pos 500) fresh ≡ fault) ↔ (4 < 8)
add_new_sequence-fault_iff_example =
    add_new_sequence-fault_iff [] fresh fresh-IsStored granting 8 (pos 500) (omega arith) refl refl

-- The statics with one sequence, without LEDs.
abbrev waiting_sequence : Sequence
waiting_sequence = record { delay = 500; leds = [] }

abbrev one_sequence : Sequences
one_sequence = record {
  extracted_sequences = some (closed (map stored (waiting_sequence ∷ [])));
  is_initialized = false;
  number_of_sequences = 1;
  calls = 3;
}

one_sequence-IsStored : IsStored (waiting_sequence ∷ []) one_sequence
one_sequence-IsStored = record {
  array = inl refl;
  number = refl;
  room = omega arith;
  bounded = ((omega arith, omega arith, tt), tt);
}

append_to_current_sequence-granted_example :
    (s' : Sequences) × (append_to_current_sequence granting led one_sequence ≡ done all_ok s')
    × IsStored (with_led waiting_sequence led ∷ []) s'
append_to_current_sequence-granted_example =
    append_to_current_sequence-granted [] waiting_sequence one_sequence one_sequence-IsStored
      granting led (omega arith) (omega arith, omega arith, (omega arith, omega arith, omega arith))
      refl refl

extract_rgb_from_string-init_led_sequences_example :
    (s' : Sequences) × ((init_led_sequences granting
          >> extract_rgb_from_string tokenizer granting 4 text)
        one_sequence
      ≡ done (all_ok, some s'.extracted_sequences) s')
    × (s'.is_initialized ≡ false)
    × IsStored (sequence ∷ []) s'
extract_rgb_from_string-init_led_sequences_example =
    extract_rgb_from_string-init_led_sequences granting tokenizer (λ n. refl) 4 (omega arith) text
      (sequence ∷ []) one_sequence (waiting_sequence ∷ [], one_sequence-IsStored) text-IsDocument
      (omega arith)
