-- ===== src/Json/Store/Stored.antt =====
-- What the statics of Server/JSONToLeds.c stand for: a list of sequences.
use ledcontroller.Prelude.{
  ℕ, suc, ◌+◌, ◌^◌, ◌<◌, ◌≡◌, refl, ap, ◌⊎◌, inl, inr, Bool, List, [], ◌∷◌, ◌++◌, map, Option, none,
  some, arith, length, All,
}
use ledcontroller.Led.{AddressableLed, IsRgb, Cell, null, LedSequence}
use ledcontroller.Run.{Outcome, done, exited, fault, waiting}
use ledcontroller.Json.{allocation_error, Sequences}
use ledcontroller.Json.Store.{free_led_sequences, out_of_memory}
use ledcontroller.Json.Store.Arrays.{cells, closed, is_closed-cells}

-- A sequence of LEDs to change, as an abstract value.
pub record Sequence : Type 0 where
  pub delay : ℕ
  pub leds : List AddressableLed

abbrev pub pointers : List AddressableLed → Option (List (Cell AddressableLed))
pointers [] = none
pointers (led ∷ leds) = some (closed (led ∷ leds))

-- The struct that holds it.
abbrev pub stored : Sequence → LedSequence
stored q = record {
  delay = q.delay;
  sequence_length = length q.leds;
  led_to_change = pointers q.leds;
}

abbrev pub IsLed : AddressableLed → Type 0
IsLed led = (led.address.row < 2 ^ 16) × (led.address.column < 2 ^ 16) × IsRgb led.led_value

abbrev pub IsSequence : Sequence → Type 0
IsSequence q = (q.delay < 2 ^ 16) × (length q.leds < 2 ^ 16) × All IsLed q.leds

-- The statics hold these sequences: an array that NULL ends, or none; all values are those of
-- their types.
pub record IsStored (qs : List Sequence) (s : Sequences) : Type 0 where
  pub array :
      (s.extracted_sequences ≡ some (closed (map stored qs)))
      ⊎ ((s.extracted_sequences ≡ none) × (qs ≡ []))
  pub number : s.number_of_sequences ≡ length qs
  pub room : length qs + 1 < 2 ^ 32
  pub bounded : All IsSequence qs

abbrev pub freed : Sequences → Sequences
freed s = record s { extracted_sequences = none; number_of_sequences = 0 }

pub freed-IsStored : (s : Sequences) → IsStored [] (freed s)
freed-IsStored s = record {
  array = inr (refl, refl);
  number = refl;
  room = omega arith;
  bounded = tt;
}

-- Freeing an array that NULL ends, or none.
module _ (s : Sequences) where
  pub free-closed :
      (xs : List LedSequence) (tail : List (Cell LedSequence))
      → s.extracted_sequences ≡ some (cells xs (null ∷ tail))
      → free_led_sequences s ≡ done tt (freed s)
  unfolding free_led_sequences
  free-closed xs tail e = rw (e, is_closed-cells xs tail)

  pub free-none : s.extracted_sequences ≡ none → free_led_sequences s ≡ done tt (freed s)
  unfolding free_led_sequences
  free-none e = ground arith

  pub free-array :
      (qs : List Sequence)
      → (s.extracted_sequences ≡ some (closed (map stored qs)))
        ⊎ ((s.extracted_sequences ≡ none) × (qs ≡ []))
      → free_led_sequences s ≡ done tt (freed s)
  free-array qs (inl e) = free-closed (map stored qs) [] e
  free-array qs (inr (e, _)) = free-none e

  -- "Not enough memory", where freeing goes well.
  pub out_of_memory-freed :
      (grants : ℕ → Bool)
      → free_led_sequences s ≡ done tt (freed s)
      → out_of_memory grants s ≡ done allocation_error (freed s)
  unfolding out_of_memory
  out_of_memory-freed grants e = rw e

pub length-map-stored : (qs : List Sequence) → length (map stored qs) ≡ length qs
length-map-stored [] = refl
length-map-stored (q ∷ qs) = ap suc (length-map-stored qs)

pub map-stored-concat :
    (qs : List Sequence) (q : Sequence) → map stored (qs ++ q ∷ []) ≡ map stored qs ++ stored q ∷ []
map-stored-concat [] q = refl
map-stored-concat (r ∷ qs) q = ap (◌∷◌ (stored r)) (map-stored-concat qs q)

-- The run returns a value and statics of which `P` holds, or meets undefined behaviour.
abbrev pub Ends : {S A : Type 0} → (A → S → Type 0) → Outcome S A → Type 0
Ends P (done a s) = P a s
Ends P (exited code s) = ⊥
Ends P fault = Unit
Ends P (waiting s) = ⊥

pub Ends-eq :
    {S A : Type 0} (P : A → S → Type 0) (o o' : Outcome S A) → o ≡ o' → Ends P o' → Ends P o
Ends-eq P o o' e h = rw e h

-- The statics hold some sequences.
abbrev pub Holds : Sequences → Type 0
Holds s = (qs : List Sequence) × IsStored qs s

pub freed-Holds : (s : Sequences) → Holds (freed s)
freed-Holds s = ([], freed-IsStored s)
