-- ===== src/Json/Contract.antt =====
-- Server/JSONToLeds.h: initLEDSequences before extractRGBFromString.
use ledcontroller.Prelude.{
  ℕ, ◌+◌, ◌^◌, ◌<◌, ◌≤◌, ◌≡◌, refl, inl, inr, ap, map, ◌∙◌, Bool, true, false, List, [], ◌∷◌, some,
  arith, length,
}
use ledcontroller.Led.{null}
use ledcontroller.Run.{done, continue, ◌>>◌}
use ledcontroller.Json.{all_ok, Jsmn, Sequences}
use ledcontroller.Json.Store.{led_bytes, sequence_bytes, malloc, init_led_sequences}
use ledcontroller.Json.Store.Stored.{
  Sequence, stored, IsStored, Holds, freed, freed-IsStored, free-array,
}
use ledcontroller.Json.Store.Arrays.{closed}
use ledcontroller.Json.File.{Files, read_file, in_block, extract_rgb_from_file}
use ledcontroller.Json.Header.{Extracts, json_to_leds}
use ledcontroller.Stdin.{c_string}
use ledcontroller.Json.Walk.{extract_rgb_from_string}
use ledcontroller.Json.Walk.Success.{IsDocument, extract_rgb_from_string-IsDocument}

-- The array that initLEDSequences promises: one entry, NULL; the statics count as initialised.
pub record IsFresh (s : Sequences) : Type 0 where
  pub array : s.extracted_sequences ≡ some (null ∷ [])
  pub ready : s.is_initialized ≡ true
  pub number : s.number_of_sequences ≡ 0

pub IsFresh-IsStored : (s : Sequences) → IsFresh s → IsStored [] s
IsFresh-IsStored s f = record {
  array = inl f.array;
  number = f.number;
  room = omega arith;
  bounded = tt;
}

module _ (grants : ℕ → Bool) where
  -- Whatever sequences the statics hold, initLEDSequences frees them and leaves the array that it
  -- promises, where malloc gives the block.
  pub init_led_sequences-IsFresh :
      (s : Sequences)
      → Holds s
      → grants s.calls ≡ true
      → (s' : Sequences) × (init_led_sequences grants s ≡ done tt s') × IsFresh s'
  unfolding init_led_sequences malloc
  init_led_sequences-IsFresh s (qs, v) granted = (
    record s {
      extracted_sequences = some (null ∷ []);
      is_initialized = true;
      number_of_sequences = 0;
      calls = s.calls + 1;
    },
    rw (free-array s qs v.array, granted) refl,
    record { array = refl; ready = refl; number = refl },
  )

  module _ (jsmn : Jsmn) (granted : (n : ℕ) → grants n ≡ true) (pointer_bytes : ℕ)
      (fits : sequence_bytes pointer_bytes ≤ led_bytes) where
    -- As the header asks, initLEDSequences and then extractRGBFromString: whatever sequences the
    -- statics held, they hold those of the document and no others, and *outSequences is their array.
    -- This is where all memory is granted, a pointer is small enough for the block of a sequence, and
    -- the sequences can be counted in an unsigned int.
    pub extract_rgb_from_string-init_led_sequences :
        (text : List ℕ) (new : List Sequence) (s : Sequences)
        → Holds s
        → IsDocument jsmn text new
        → length new + 1 < 2 ^ 32
        → (s' : Sequences) × ((init_led_sequences grants
                >> extract_rgb_from_string jsmn grants pointer_bytes text)
              s
            ≡ done (all_ok, some s'.extracted_sequences) s')
          × (s'.is_initialized ≡ false)
          × IsStored new s'
    extract_rgb_from_string-init_led_sequences text new s h d few =
        let (fresh, runs, f) = init_led_sequences-IsFresh s h (granted s.calls) in
        let (s', runs', off, v) =
          extract_rgb_from_string-IsDocument jsmn grants granted pointer_bytes fits text new []
            fresh d f.ready (IsFresh-IsStored fresh f) (omega (arith, few)) in
        (
          s',
          ap (continue λ _. extract_rgb_from_string jsmn grants pointer_bytes text) runs ∙ runs',
          off,
          v,
        )

-- A document of sequences, no more than an unsigned int counts.
pub record IsSmallDocument (jsmn : Jsmn) (text : List ℕ) (new : List Sequence) : Type 0 where
  pub document : IsDocument jsmn text new
  pub few : length new + 1 < 2 ^ 32

-- The file with that path can be opened and closed, and its text is such a document.
pub record Describes (files : Files) (jsmn : Jsmn) (path : List ℕ) (new : List Sequence)
    : Type 0 where
  pub characters : List ℕ
  pub opens : files.contents path ≡ some characters
  pub closes : files.closes path ≡ true
  pub says : IsSmallDocument jsmn (c_string characters) new

array-IsStored :
    (q : Sequence) (qs : List Sequence) (s : Sequences)
    → IsStored (q ∷ qs) s
    → s.extracted_sequences ≡ some (closed (map stored (q ∷ qs)))
array-IsStored q qs s v = elim v.array [ inl e ↦ e | inr (e, empty) ↦ cc ]

module _ (files : Files) (jsmn : Jsmn) (grants : ℕ → Bool) (granted : (n : ℕ) → grants n ≡ true)
    (pointer_bytes : ℕ) (fits : sequence_bytes pointer_bytes ≤ led_bytes) where
  opened :
      (path : List ℕ) (new : List Sequence) (s : Sequences)
      → (d : Describes files jsmn path new)
      → extract_rgb_from_file files jsmn grants pointer_bytes path s
        ≡ extract_rgb_from_string jsmn grants pointer_bytes
            (c_string d.characters)
            (record s { calls = s.calls + 1 })
  unfolding extract_rgb_from_file read_file malloc in_block
  opened path new s d =
      let asked : Sequences = record s { calls = s.calls + 1 } in
      ap (λ o. read_file files jsmn grants pointer_bytes path o s) d.opens
      ∙ ap (λ g. in_block files jsmn grants pointer_bytes path d.characters g asked)
          (granted s.calls)
      ∙ rw d.closes refl

  text-IsFresh :
      (text : List ℕ) (q : Sequence) (qs : List Sequence) (s : Sequences)
      → IsFresh s
      → IsSmallDocument jsmn text (q ∷ qs)
      → (s' : Sequences) × (extract_rgb_from_string jsmn grants pointer_bytes text s
          ≡ done (all_ok, some (some (closed (map stored (q ∷ qs))))) s')
        × IsStored (q ∷ qs) s'
  text-IsFresh text q qs s f d =
      let few = d.few in
      let (s', runs, off, v) =
        extract_rgb_from_string-IsDocument jsmn grants granted pointer_bytes fits text (q ∷ qs) [] s
          d.document f.ready (IsFresh-IsStored s f) (omega (arith, few)) in
      (s', runs ∙ ap (λ array. done (all_ok, some array) s') (array-IsStored q qs s' v), v)

  file-IsFresh :
      (path : List ℕ) (q : Sequence) (qs : List Sequence) (s : Sequences)
      → IsFresh s
      → Describes files jsmn path (q ∷ qs)
      → (s' : Sequences) × (extract_rgb_from_file files jsmn grants pointer_bytes path s
          ≡ done (all_ok, some (some (closed (map stored (q ∷ qs))))) s')
        × IsStored (q ∷ qs) s'
  file-IsFresh path q qs s f d =
      let (s', runs, v) =
        text-IsFresh (c_string d.characters) q qs (record s { calls = s.calls + 1 })
          (record { array = f.array; ready = f.ready; number = f.number }) d.says in
      (s', opened path (q ∷ qs) s d ∙ runs, v)

  -- With the memory that it asks for, in blocks that have room for a sequence, the program keeps to
  -- the protocol of its header.
  pub json_to_leds-Extracts :
      Extracts
        (json_to_leds files jsmn grants pointer_bytes)
        IsStored
        IsFresh
        (IsSmallDocument jsmn)
        (Describes files jsmn)
  json_to_leds-Extracts = record {
    initialises = λ qs s v. init_led_sequences-IsFresh grants s (qs, v) (granted s.calls);
    reads = text-IsFresh;
    extracts = file-IsFresh;
    frees = λ qs s v. (freed s, free-array s qs v.array, freed-IsStored s);
  }
