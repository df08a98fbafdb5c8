-- ===== src/Json/Walk/Whole.antt =====
-- Server/JSONToLeds.c: extractRGBFromString as a whole, on any text.
use ledcontroller.Prelude.{
  ℕ, zero, suc, ◌+◌, ◌≡◌, ◌≢◌, refl, Bool, true, false, not, List, none, some, ℤ, pos, negsuc,
  arith, if◌then◌else◌,
}
use ledcontroller.Run.{Outcome, done, exited, fault, waiting}
use ledcontroller.Json.{
  JsonResult, all_ok, invalid_json, led_sequences_not_initialized, object, Token, Jsmn, Sequences,
}
use ledcontroller.Json.Store.{malloc}
use ledcontroller.Json.Store.Stored.{Ends, Holds}
use ledcontroller.Json.Walk.{
  Step, go, returned, Parse, give, lifted, ◌>>=◌, Written, finish, parse_tokens, walk, parse_text,
  extract_rgb_from_string,
}
use ledcontroller.Json.Walk.Sound.{
  Good, Any, Sound, Sound-give, Sound-if, Sound-after, Sound-lifted, has_type-Sound,
}
use ledcontroller.Json.Walk.Rounds.{read_entries-Sound}

-- What a result says of *outSequences and of the statics: it is written only on success, with the
-- array, and then the statics count as not initialised.
abbrev pub Answer : JsonResult → Written → Sequences → Type 0
Answer JsonResult.all_ok written s =
    (written ≡ some s.extracted_sequences) × (s.is_initialized ≡ false) × Holds s
Answer r written s = (written ≡ none) × Holds s

failed-Answer : (r : JsonResult) (s : Sequences) → r ≢ all_ok → Holds s → Answer r none s
failed-Answer JsonResult.all_ok s bad h = absurd (bad refl)
failed-Answer JsonResult.open_file_error s bad h = (refl, h)
failed-Answer JsonResult.close_file_error s bad h = (refl, h)
failed-Answer JsonResult.allocation_error s bad h = (refl, h)
failed-Answer JsonResult.invalid_json s bad h = (refl, h)
failed-Answer JsonResult.led_sequences_not_initialized s bad h = (refl, h)

same_array : (b : Bool) (s : Sequences) → Holds s → Holds (record s { is_initialized = b })
same_array b s (qs, v) =
    (qs, record { array = v.array; number = v.number; room = v.room; bounded = v.bounded })

finish-Ends :
    (o : Outcome Sequences (Step (Unit {0})))
    → Ends (Good Any) o
    → Ends (λ x s. Answer x.0 x.1 s) (finish o)
unfolding finish
finish-Ends (done (go _) s) h = (refl, refl, same_array false s h.1)
finish-Ends (done (returned r) s) h = failed-Answer r s h.0 h.1
finish-Ends (exited code s) h = h
finish-Ends fault h = tt
finish-Ends (waiting s) h = h

asked : (n : ℕ) (s : Sequences) → Holds s → Holds (record s { calls = n })
asked n s (qs, v) =
    (qs, record { array = v.array; number = v.number; room = v.room; bounded = v.bounded })

module _ (jsmn : Jsmn) (grants : ℕ → Bool) (pointer_bytes : ℕ) where
  walk-Sound :
      (text : List ℕ) (found : ℤ × List Token)
      → Sound Any (walk jsmn grants pointer_bytes text found)
  unfolding walk
  walk-Sound text (negsuc n, tokens) = Sound-give invalid_json (λ e. cc)
  walk-Sound text (pos zero, tokens) = Sound-give invalid_json (λ e. cc)
  walk-Sound text (pos (suc n), tokens) =
      Sound-after (has_type-Sound text tokens 0 object) λ is_object.
        Sound-if (not is_object) (Sound-give invalid_json (λ e. cc))
          (read_entries-Sound text tokens grants pointer_bytes n (suc n) 1 (omega arith))

  counted : List ℕ → ℤ → Parse (Unit {0})
  counted text (negsuc n) = give invalid_json
  counted text (pos n) = (λ t. lifted (malloc grants t)) >>= λ granted.
      walk jsmn grants pointer_bytes text (parse_tokens jsmn grants pointer_bytes granted text n)

  counted-Sound : (text : List ℕ) (count : ℤ) → Sound Any (counted text count)
  unfolding counted malloc
  counted-Sound text (negsuc n) = Sound-give invalid_json (λ e. cc)
  counted-Sound text (pos n) =
      Sound-after (Sound-lifted (malloc grants) λ s h. asked (s.calls + 1) s h)
        λ granted. walk-Sound text (parse_tokens jsmn grants pointer_bytes granted text n)

  by_state :
      (text : List ℕ) (b : Bool) (count : ℤ) (s : Sequences)
      → Holds s
      → Ends (Good Any) (
          if not b then done (returned led_sequences_not_initialized) s else (elim count [
            | negsuc n ↦ done (returned invalid_json) s
            | pos n ↦
                ((λ t. lifted (malloc grants t)) >>= λ granted.
                walk jsmn grants pointer_bytes text
                  (parse_tokens jsmn grants pointer_bytes granted text n))
                  s
          ]))
  unfolding counted
  by_state text false count s h = ((λ e. cc), h)
  by_state text true (pos n) s h = (counted-Sound text (pos n)).at s h
  by_state text true (negsuc n) s h = ((λ e. cc), h)

  parse_text-Ends :
      (text : List ℕ) (s : Sequences)
      → Holds s
      → Ends (Good Any) (parse_text jsmn grants pointer_bytes text s)
  unfolding parse_text
  parse_text-Ends text s h = by_state text s.is_initialized (jsmn.count text) s h

  -- From statics that hold sequences, `extractRGBFromString` ends on any text, whatever the
  -- tokenizer and the allocator answer: it returns a result or meets undefined behaviour, and runs
  -- no loop without end. When it returns, the statics hold sequences again, in an array that NULL
  -- ends, or none and no array, with all delays, lengths, addresses and colours in the range of their types, and
  -- *outSequences is written with that pointer on success and left alone on every error.
  pub extract_rgb_from_string-Ends :
      (text : List ℕ) (s : Sequences)
      → Holds s
      → Ends (λ x t. Answer x.0 x.1 t) (extract_rgb_from_string jsmn grants pointer_bytes text s)
  unfolding extract_rgb_from_string
  extract_rgb_from_string-Ends text s h = finish-Ends _ (parse_text-Ends text s h)
