-- ===== src/Json/Store.antt =====
-- Server/JSONToLeds.c: the array of sequences, and how it grows and is freed. `grants` is the
-- allocator's answer to each call of malloc or realloc, `pointer_bytes` the size of a pointer.
pub mod Arrays
pub mod Stored
pub mod Adding
pub mod Pointers
pub mod Appending
pub mod Ending
use ledcontroller.Prelude.{
  ℕ, zero, suc, ◌+◌, ◌-◌, ◌*◌, ◌%◌, ◌^◌, Bool, true, false, List, [], ◌∷◌, ◌++◌, Option, none, some,
  ℤ, ltb, leb, if◌then◌else◌, length, get_elem?, set, take, replicate,
}
use mathlib.Core.Option
use ledcontroller.Led.{AddressableLed, Cell, unset, null, holds, LedSequence}
use ledcontroller.Run.{Outcome, done, fault, Run, pure, gets, modify, undefined, ◌>>=◌, ◌>>◌}
use ledcontroller.Json.{JsonResult, all_ok, allocation_error, Sequences}
use ledcontroller.Json.Text.{to_u16}

-- sizeof(struct AddressableLED): two unsigned shorts and three bytes, in units of two.
abbrev pub led_bytes : ℕ
led_bytes = 8

-- sizeof(struct LEDSequence): two unsigned shorts in the room of a pointer, and a pointer.
abbrev pub sequence_bytes : ℕ → ℕ
sequence_bytes pointer_bytes = 2 * pointer_bytes

module _ {A : Type 0} where
  -- An array after realloc to `n` entries; NULL is an array of none.
  unfoldable pub resize : ℕ → Option (List (Cell A)) → List (Cell A)
  resize n old =
      let cells = Option.get_or old [] in take n cells ++ replicate (n - length cells) unset

  -- A write to an entry, which must be one of the array's.
  unfoldable pub write : List (Cell A) → ℕ → Cell A → Option (List (Cell A))
  write cells i cell = if ltb i (length cells) then some (set cells i cell) else none

  -- array[n - 1] = cell
  unfoldable pub write_last : List (Cell A) → ℕ → Cell A → Option (List (Cell A))
  unfolding write
  write_last cells zero cell = none
  write_last cells (suc i) cell = write cells i cell

  -- array[n - 1] = first; array[n] = second
  unfoldable pub write_two : List (Cell A) → ℕ → Cell A → Cell A → Option (List (Cell A))
  unfolding write
  write_two cells zero first second = none
  write_two cells (suc i) first second = elim (write cells i first) [
    | none ↦ none
    | some cells' ↦ write cells' (suc i) second
  ]

  -- The loop up to NULL reads entries that were written.
  unfoldable pub is_closed : List (Cell A) → Bool
  is_closed [] = false
  is_closed (unset ∷ rest) = false
  is_closed (null ∷ rest) = true
  is_closed (holds a ∷ rest) = is_closed rest

unfoldable pub free_led_sequences : Run Sequences (Unit {0})
unfolding is_closed
free_led_sequences s = elim s.extracted_sequences [
  | none ↦ done tt (record s { number_of_sequences = 0 })
  | some cells ↦
      if is_closed cells
      then done tt (record s { extracted_sequences = none; number_of_sequences = 0 })
      else fault
]

-- The array after a write, if the write is one to it, and what follows.
with_array : Option (List (Cell LedSequence)) → Run Sequences JsonResult → Run Sequences JsonResult
with_array none k s = fault
with_array (some cells) k s = k (record s { extracted_sequences = some cells })

module _ (grants : ℕ → Bool) where
  -- One call of malloc or realloc: whether it gives a block.
  unfoldable pub malloc : Run Sequences Bool
  malloc s = done (grants s.calls) (record s { calls = s.calls + 1 })

  -- "Not enough memory": everything is freed.
  unfoldable pub out_of_memory : Run Sequences JsonResult
  unfolding free_led_sequences
  out_of_memory = do free_led_sequences; pure allocation_error

  unfoldable pub init_led_sequences : Run Sequences (Unit {0})
  unfolding free_led_sequences malloc
  init_led_sequences = do
    free_led_sequences
    granted ← malloc
    modify λ s.
        if granted
        then record s { extracted_sequences = some (null ∷ []); is_initialized = true }
        else record s { extracted_sequences = none }

  module _ (pointer_bytes : ℕ) where
    -- The pointer to a new sequence and NULL. The block of the sequence has the size of an LED.
    place_sequence : List (Cell LedSequence) → ℕ → ℤ → Option (List (Cell LedSequence))
    unfolding write_two
    place_sequence cells n delay =
        let sequence : LedSequence = record {
          delay = to_u16 delay;
          sequence_length = 0;
          led_to_change = none;
        } in
        if leb (sequence_bytes pointer_bytes) led_bytes
        then write_two cells n (holds sequence) null
        else none

    -- The array has been given its room; now the block of the sequence.
    store_sequence : ℤ → ℕ → Run Sequences JsonResult
    unfolding place_sequence with_array out_of_memory write_last
    store_sequence delay n s =
        let cells = resize ((n + 1) % 2 ^ 32) s.extracted_sequences in
        let s' = record s { calls = s.calls + 1 } in
        if grants s.calls
        then with_array (place_sequence cells n delay) (pure all_ok) s'
        else with_array (write_last cells n null) out_of_memory s'

    unfoldable pub add_new_sequence : ℤ → Run Sequences JsonResult
    unfolding store_sequence out_of_memory
    add_new_sequence delay s =
        let n = (s.number_of_sequences + 1) % 2 ^ 32 in
        let s' = record s {
          is_initialized = false;
          number_of_sequences = n;
          calls = s.calls + 1;
        } in
        if grants s.calls then store_sequence delay n s' else out_of_memory s'

-- The sequence that extractedSequences[numberOfSequences - 1] points to.
current : Option (List (Cell LedSequence)) → ℕ → Option LedSequence
current none n = none
current (some cells) zero = none
current (some cells) (suc i) = elim (get_elem? cells i) [
  | some (holds sequence) ↦ some sequence
  | _ ↦ none
]

-- The block behind that pointer changes.
pub store_back : LedSequence → Run Sequences JsonResult → Run Sequences JsonResult
unfolding with_array write_last
store_back sequence k s =
    with_array
      (write_last (Option.get_or s.extracted_sequences []) s.number_of_sequences (holds sequence)) k
      s

-- The array of its LEDs after a write, if the write is one to it.
store_leds :
    LedSequence
    → Option (List (Cell AddressableLed))
    → Run Sequences JsonResult
    → Run Sequences JsonResult
unfolding store_back
store_leds sequence none k s = fault
store_leds sequence (some cells) k s =
    store_back (record sequence { led_to_change = some cells }) k s

module _ (grants : ℕ → Bool) where
  -- The array of LEDs has been given its room; now the block of the LED.
  pub store_led : LedSequence → AddressableLed → Run Sequences JsonResult
  unfolding store_leds write_two write_last out_of_memory
  store_led sequence led_values s =
      let n = sequence.sequence_length in
      let cells = resize (n + 1) sequence.led_to_change in
      let s' = record s { calls = s.calls + 1 } in
      if grants s.calls
      then store_leds sequence (write_two cells n (holds led_values) null) (pure all_ok) s'
      else store_leds sequence (write_last cells n null) (out_of_memory grants) s'

  append_to : LedSequence → AddressableLed → Run Sequences JsonResult
  unfolding store_led store_back out_of_memory
  append_to old led_values s =
      let sequence = record old { sequence_length = (old.sequence_length + 1) % 2 ^ 16 } in
      let s' = record s { calls = s.calls + 1 } in
      if grants s.calls
      then store_led sequence led_values s'
      else store_back sequence (out_of_memory grants) s'

  unfoldable pub append_to_current_sequence : AddressableLed → Run Sequences JsonResult
  unfolding current append_to
  append_to_current_sequence led_values s =
      elim (current s.extracted_sequences s.number_of_sequences) [
        | none ↦ fault
        | some old ↦ append_to old led_values s
      ]
