-- ===== src/Json/Store/Pointers.antt =====
-- Server/JSONToLeds.c: the array of pointers to the LEDs of a sequence.
use ledcontroller.Prelude.{
  ℕ, suc, ◌+◌, ◌≡◌, refl, Bool, true, false, List, [], ◌∷◌, ◌++◌, some, arith, length, All,
}
use ledcontroller.Led.{AddressableLed, Cell, unset, null, holds, LedSequence}
use ledcontroller.Run.{pure}
use ledcontroller.Json.{all_ok, Sequences}
use ledcontroller.Json.Store.{
  resize, write_last, write_two, out_of_memory, store_back, store_leds, store_led,
}
use ledcontroller.Json.Store.Arrays.{cells, closed, resize-closed}
use ledcontroller.Json.Store.Stored.{pointers}

pub All-prefix {ℓ κ} :
    {A : Type ℓ} (P : A → Type κ) (xs : List A) (x : A) → All P (xs ++ x ∷ []) → All P xs × P x
All-prefix P [] x h = (tt, h.0)
All-prefix P (y ∷ xs) x h = let (rest, last) = All-prefix P xs x h.1 in ((h.0, rest), last)

pub pointers-concat :
    (leds : List AddressableLed) (led : AddressableLed)
    → pointers (leds ++ led ∷ []) ≡ some (closed (leds ++ led ∷ []))
pointers-concat [] led = refl
pointers-concat (l ∷ leds) led = refl

-- Room for one more LED.
pub resize-pointers :
    (leds : List AddressableLed)
    → (c : Cell AddressableLed) × (resize (suc (suc (length leds))) (pointers leds)
        ≡ cells leds (c ∷ unset ∷ []))
unfolding resize
resize-pointers [] = (unset, refl)
resize-pointers (led ∷ leds) = (null, resize-closed (led ∷ leds))

-- The second half of appendToCurrentSequence, by what its writes to the array give.
module _ (grants : ℕ → Bool) (led : AddressableLed) (block : LedSequence) (t : Sequences)
    (array array' : List (Cell AddressableLed))
    (grown : resize (block.sequence_length + 1) block.led_to_change ≡ array) where
  pub store_led-granted :
      grants t.calls ≡ true
      → write_two array block.sequence_length (holds led) null ≡ some array'
      → store_led grants block led t
        ≡ store_back
            (record block { led_to_change = some array' })
            (pure all_ok)
            (record t { calls = t.calls + 1 })
  unfolding store_led store_leds
  store_led-granted granted written = ground arith

  pub store_led-refused :
      grants t.calls ≡ false
      → write_last array block.sequence_length null ≡ some array'
      → store_led grants block led t
        ≡ store_back
            (record block { led_to_change = some array' })
            (out_of_memory grants)
            (record t { calls = t.calls + 1 })
  unfolding store_led store_leds
  store_led-refused refused written = ground arith
