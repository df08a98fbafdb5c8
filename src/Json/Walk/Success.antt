-- ===== src/Json/Walk/Success.antt =====
-- Server/JSONToLeds.c: extractRGBFromString on the tokens of a document.
use mathlib.Core.List.{append-nil, append_assoc}
use ledcontroller.Prelude.{
  ℕ, zero, suc, ◌+◌, ◌^◌, ◌<◌, ◌≤◌, ◌≡◌, refl, ap, ◌∙◌, Bool, true, false, not, List, [], ◌++◌,
  some, pos, arith, ltb, lt→ltb, if◌then◌else◌, length, length-append,
}
use ledcontroller.Stdin.{same_text}
use ledcontroller.Run.{done}
use ledcontroller.Json.{all_ok, object, Token, Jsmn, Sequences}
use ledcontroller.Json.Store.{sequence_bytes, led_bytes, malloc}
use ledcontroller.Json.Store.Stored.{Sequence, IsStored}
use ledcontroller.Json.Walk.{
  name_text, size_text, read_entry, read_entries, finish, parse_tokens, walk, parse_text,
  extract_rgb_from_string,
}
use ledcontroller.Json.Walk.Document.{At, SequencesAt-le, EntriesAt, end_of_text, name, size, seq}
use ledcontroller.Json.Walk.Tokens.{token-At, is_key-IsString, is_key-other, has_type-At}
use ledcontroller.Json.Walk.Reading.{
  Gives, Gives-go, Gives-after, Gives-bind, read_sequences-SequencesAt,
}

module _ (json : List ℕ) (tokens : List Token) (grants : ℕ → Bool)
    (granted : (n : ℕ) → grants n ≡ true) (pointer_bytes : ℕ)
    (fits : sequence_bytes pointer_bytes ≤ led_bytes) (count : ℕ) where
  -- One more round, with what it reads before what follows.
  one_round :
      (fuel i last : ℕ) (before mid after : List Sequence)
      → i < count
      → Gives (read_entry json tokens grants pointer_bytes i) before mid last
      → Gives (read_entries json tokens grants pointer_bytes fuel count (last + 1)) mid after tt
      → Gives (read_entries json tokens grants pointer_bytes (suc fuel) count i) before after tt
  unfolding read_entries
  one_round fuel i last before mid after more first rest =
      rw (lt→ltb i count more) (Gives-bind _ first rest)

  past_end :
      (fuel i : ℕ) (qs : List Sequence)
      → count ≤ i
      → Gives (read_entries json tokens grants pointer_bytes fuel count i) qs qs tt
  unfolding read_entries
  past_end zero i qs h =
      let outside : ltb i count ≡ false = ground arith in rw outside (Gives-go tt qs)
  past_end (suc fuel) i qs h =
      let outside : ltb i count ≡ false = ground arith in rw outside (Gives-go tt qs)

  read_entries-EntriesAt :
      (fuel i : ℕ) (new qs : List Sequence)
      → EntriesAt json tokens count i new
      → count ≤ i + fuel
      → length qs + length new + 1 < 2 ^ 32
      → Gives (read_entries json tokens grants pointer_bytes fuel count i) qs (qs ++ new) tt
  unfolding read_entry same_text
  read_entries-EntriesAt fuel i [] qs (end_of_text h) enough few =
      rw (append-nil qs) (past_end fuel i qs h)
  read_entries-EntriesAt zero i new qs (name more key skipped rest) enough few =
      absurd (omega (arith, more, enough))
  read_entries-EntriesAt (suc fuel) i new qs (name more key skipped rest) enough few =
      one_round fuel i (i + 1) qs qs (qs ++ new) more
        (Gives-after _ (is_key-IsString json tokens i key)
          (Gives-after _ (token-At json tokens (i + 1) skipped) (Gives-go (i + 1) qs)))
        (read_entries-EntriesAt fuel (i + 1 + 1) new qs rest (omega (arith, enough)) few)
  read_entries-EntriesAt zero i new qs (size more key skipped rest) enough few =
      absurd (omega (arith, more, enough))
  read_entries-EntriesAt (suc fuel) i new qs (size more key skipped rest) enough few =
      one_round fuel i (i + 1) qs qs (qs ++ new) more
        (Gives-after _ (is_key-other json tokens i name_text key refl) (
          Gives-after _ (is_key-IsString json tokens i key)
            (Gives-after _ (token-At json tokens (i + 1) skipped) (Gives-go (i + 1) qs))))
        (read_entries-EntriesAt fuel (i + 1 + 1) new qs rest (omega (arith, enough)) few)
  read_entries-EntriesAt zero i new qs (seq more key list texts rest) enough few =
      absurd (omega (arith, more, enough))
  read_entries-EntriesAt (suc fuel) i all qs (seq {last} {new} {rest} more key list here later)
        enough few =
      let counted = length-append new rest in
      let further = SequencesAt-le json tokens here in
      one_round fuel i last qs (qs ++ new) (qs ++ (new ++ rest)) more
        (Gives-after _ (is_key-other json tokens i name_text key refl) (
          Gives-after _ (is_key-other json tokens i size_text key refl) (
            Gives-after _ (is_key-IsString json tokens i key) (
              Gives-after _ (has_type-At json tokens (i + 1) list list.2.0) (
                Gives-after _ (token-At json tokens (i + 1) list) (
                  rw list.2.1 (
                    read_sequences-SequencesAt json tokens grants granted pointer_bytes fits (i + 1)
                      last new qs here (omega (arith, few, counted)))))))))
        (rw (← append_assoc qs new rest) (
          read_entries-EntriesAt fuel (last + 1) rest (qs ++ new) later
            (omega (arith, enough, further))
            (rw (length-append qs new) (omega (arith, few, counted)))))

not_returned : {A : Type 0} (b : Bool) (x y : A) → b ≡ true → (if not b then x else y) ≡ y
not_returned b x y e = rw e refl

-- The tokenizer finds the tokens of a document, in both of its calls.
pub record IsDocument (jsmn : Jsmn) (text : List ℕ) (new : List Sequence) : Type 0 where
  pub tokens : List Token
  pub n : ℕ
  pub counted : jsmn.count text ≡ pos (suc n)
  pub parsed : jsmn.parse text (suc n) ≡ (pos (suc n), tokens)
  pub braces : At text tokens 0 (λ t. t.type ≡ object)
  pub entries : EntriesAt text tokens (suc n) 1 new

module _ (jsmn : Jsmn) (grants : ℕ → Bool) (granted : (n : ℕ) → grants n ≡ true) (pointer_bytes : ℕ)
    (fits : sequence_bytes pointer_bytes ≤ led_bytes) where
  walk-EntriesAt :
      (text : List ℕ) (tokens : List Token) (n : ℕ) (new qs : List Sequence)
      → At text tokens 0 (λ t. t.type ≡ object)
      → EntriesAt text tokens (suc n) 1 new
      → length qs + length new + 1 < 2 ^ 32
      → Gives (walk jsmn grants pointer_bytes text (pos (suc n), tokens)) qs (qs ++ new) tt
  unfolding walk
  walk-EntriesAt text tokens n new qs braces entries few =
      Gives-after _ (has_type-At text tokens 0 braces braces.2) (
        read_entries-EntriesAt text tokens grants granted pointer_bytes fits (suc n) n 1 new qs
          entries (omega arith) few)

  -- The second call of the tokenizer, and what is made of it.
  starts :
      (text : List ℕ) (s : Sequences) (n : ℕ)
      → s.is_initialized ≡ true
      → jsmn.count text ≡ pos (suc n)
      → parse_text jsmn grants pointer_bytes text s
        ≡ walk jsmn grants pointer_bytes text
            (jsmn.parse text (suc n))
            (record s { calls = s.calls + 1 })
  unfolding parse_text parse_tokens malloc
  starts text s n ready counted =
      not_returned s.is_initialized _ _ ready ∙ rw (counted, granted s.calls) refl

  -- On the tokens of a document of sequences, `extractRGBFromString` succeeds: *outSequences is the
  -- array of the sequences that were there and, after them in order, those of the document, with its
  -- delays, addresses and colours, and the statics count as not initialised. This is where the statics
  -- count as initialised and hold sequences, where every request for memory is granted and where a
  -- pointer is small enough for the block that a sequence gets, and as long as the sequences can be
  -- counted in an unsigned int.
  pub extract_rgb_from_string-IsDocument :
      (text : List ℕ) (new qs : List Sequence) (s : Sequences)
      → IsDocument jsmn text new
      → s.is_initialized ≡ true
      → IsStored qs s
      → length qs + length new + 1 < 2 ^ 32
      → (s' : Sequences) × (extract_rgb_from_string jsmn grants pointer_bytes text s
          ≡ done (all_ok, some s'.extracted_sequences) s')
        × (s'.is_initialized ≡ false)
        × IsStored (qs ++ new) s'
  unfolding extract_rgb_from_string finish
  extract_rgb_from_string-IsDocument text new qs s d ready v few =
      let read : Gives (walk jsmn grants pointer_bytes text (jsmn.parse text (suc d.n))) qs
          (qs ++ new) tt =
        rw d.parsed (walk-EntriesAt text d.tokens d.n new qs d.braces d.entries few) in
      let (s', e, v') =
        read.at (record s { calls = s.calls + 1 })
          (record { array = v.array; number = v.number; room = v.room; bounded = v.bounded }) in
      (
        record s' { is_initialized = false },
        ap finish (starts text s d.n ready d.counted ∙ e),
        refl,
        record { array = v'.array; number = v'.number; room = v'.room; bounded = v'.bounded },
      )
