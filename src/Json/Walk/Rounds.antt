-- ===== src/Json/Walk/Rounds.antt =====
-- Server/JSONToLeds.c: the rounds of the loops over tokens, with any answers of the allocator.
use ledcontroller.Prelude.{ℕ, zero, suc, ◌+◌, ◌≤◌, Bool, not, List, arith, ltb, if◌then◌else◌}
use ledcontroller.Led.{AddressableLed}
use ledcontroller.Json.{object, array, primitive, Token}
use ledcontroller.Json.Text.{to_byte}
use ledcontroller.Json.Store.{add_new_sequence, append_to_current_sequence}
use ledcontroller.Json.Store.Stored.{IsLed}
use ledcontroller.Json.Store.Adding.{add_new_sequence-Ends}
use ledcontroller.Json.Store.Ending.{append-Ends}
use ledcontroller.Json.Walk.{
  token, is_key, has_type, incorrect_json, both, ◌>>=◌, ◌>>◌, go_on, delay_text, led_text,
  name_text, size_text, seq_text, read_led, read_leds, read_sequence, read_sequences, read_entry,
  read_entries,
}
use ledcontroller.Json.Walk.Sound.{
  Any, Sound, Sound-go, Sound-if, Sound-bind, Sound-after, Sound-lifted, Sound-check, Sound-both,
  to_byte-lt, token-Sound, is_key-Sound, has_type-Sound, incorrect_json-Sound, number-Sound,
  led_address-Sound, is_led-Sound,
}

module _ (json : List ℕ) (tokens : List Token) (grants : ℕ → Bool) (from : ℕ) where
  read_led-Sound : (i : ℕ) → from ≤ i → Sound (λ next. from ≤ next) (read_led json tokens grants i)
  unfolding read_led
  read_led-Sound i later = Sound-after (has_type-Sound json tokens (i + 1) object) λ is_object.
      Sound-if (not is_object) (incorrect_json-Sound json tokens (i + 1)) (
        Sound-after (is_led-Sound json tokens i) λ fits.
          Sound-if (not fits) (incorrect_json-Sound json tokens (i + 2)) (
            Sound-bind (led_address-Sound json tokens (i + 3)) λ address small.
              Sound-after (number-Sound json tokens (i + 5)) λ red.
                Sound-after (number-Sound json tokens (i + 7)) λ green.
                  Sound-after (number-Sound json tokens (i + 9)) λ blue.
                    let led : AddressableLed = record {
                      address = address;
                      led_value = record {
                        red = to_byte red;
                        green = to_byte green;
                        blue = to_byte blue;
                      };
                    } in
                    let bytes : IsLed led =
                      (small.0, small.1, (to_byte-lt red, to_byte-lt green, to_byte-lt blue)) in
                    Sound-after
                      (Sound-lifted (append_to_current_sequence grants led)
                        (append-Ends grants led bytes))
                      λ result.
                        Sound-after (Sound-check result) λ _. Sound-go (i + 9) (omega arith)))

  read_leds-Sound :
      (left i : ℕ) → from ≤ i → Sound (λ next. from ≤ next) (read_leds json tokens grants left i)
  unfolding read_leds
  read_leds-Sound zero i later = Sound-go i later
  read_leds-Sound (suc left) i later =
      Sound-bind (read_led-Sound i later) λ next further. read_leds-Sound left next further

  module _ (pointer_bytes : ℕ) where
    read_sequence-Sound :
        (i : ℕ)
        → from ≤ i
        → Sound (λ next. from ≤ next) (read_sequence json tokens grants pointer_bytes i)
    unfolding read_sequence
    read_sequence-Sound i later =
        Sound-after (has_type-Sound json tokens (i + 1) object) λ is_object.
          Sound-if (not is_object) (incorrect_json-Sound json tokens (i + 1)) (
            Sound-after
              (Sound-both (is_key-Sound json tokens (i + 2) delay_text)
                (has_type-Sound json tokens (i + 3) primitive))
              λ has_delay. Sound-if (not has_delay) (incorrect_json-Sound json tokens (i + 2)) (
                Sound-after (number-Sound json tokens (i + 3)) λ delay.
                  Sound-after
                    (Sound-lifted (add_new_sequence grants pointer_bytes delay)
                      λ s held. add_new_sequence-Ends held.0 s held.1 grants pointer_bytes delay)
                    λ result. Sound-after (Sound-check result) λ _. list_of_leds i later))
      where
        list_of_leds :
            (i : ℕ)
            → from ≤ i
            → Sound
                (λ next. from ≤ next)
                (do
                  has_leds ←
                      both
                        (is_key json tokens (i + 4) led_text)
                        (has_type json tokens (i + 5) array)
                  if not has_leds then incorrect_json json tokens (i + 4) else (do
                    leds ← token json tokens (i + 5)
                    read_leds json tokens grants leds.size (i + 5)))
        list_of_leds i later =
            Sound-after
              (Sound-both (is_key-Sound json tokens (i + 4) led_text)
                (has_type-Sound json tokens (i + 5) array))
              λ has_leds. Sound-if (not has_leds) (incorrect_json-Sound json tokens (i + 4)) (
                Sound-after (token-Sound json tokens (i + 5))
                  λ leds. read_leds-Sound leds.size (i + 5) (omega (arith, later)))

    read_sequences-Sound :
        (left i : ℕ)
        → from ≤ i
        → Sound (λ next. from ≤ next) (read_sequences json tokens grants pointer_bytes left i)
    unfolding read_sequences
    read_sequences-Sound zero i later = Sound-go i later
    read_sequences-Sound (suc left) i later =
        Sound-bind (read_sequence-Sound i later)
          λ next further. read_sequences-Sound left next further

module _ (json : List ℕ) (tokens : List Token) (grants : ℕ → Bool) (pointer_bytes : ℕ) where
  read_entry-Sound :
      (i : ℕ) → Sound (λ last. i ≤ last) (read_entry json tokens grants pointer_bytes i)
  unfolding read_entry
  read_entry-Sound i = Sound-after (is_key-Sound json tokens i name_text) λ is_name.
      Sound-if is_name skipped (
        Sound-after (is_key-Sound json tokens i size_text) λ is_size. Sound-if is_size skipped (
          Sound-after (is_key-Sound json tokens i seq_text) λ is_seq.
            Sound-if (not is_seq) (Sound-go i (omega arith)) (
              Sound-after (has_type-Sound json tokens (i + 1) array) λ is_array.
                Sound-if (not is_array) (Sound-go i (omega arith)) (
                  Sound-after (token-Sound json tokens (i + 1)) λ list.
                    read_sequences-Sound json tokens grants i pointer_bytes list.size (i + 1)
                      (omega arith)))))
    where
      skipped : Sound (λ last. i ≤ last) (do token json tokens (i + 1); go_on (i + 1))
      skipped = Sound-after (token-Sound json tokens (i + 1)) λ t. Sound-go (i + 1) (omega arith)

  -- Each round leaves fewer tokens, so that as many rounds as there are tokens are enough.
  pub read_entries-Sound :
      (fuel count i : ℕ)
      → count ≤ i + fuel
      → Sound Any (read_entries json tokens grants pointer_bytes fuel count i)
  unfolding read_entries
  read_entries-Sound zero count i enough = ground arith
  read_entries-Sound (suc fuel) count i enough =
      Sound-if (ltb i count)
        (Sound-bind (read_entry-Sound i)
          λ last further. read_entries-Sound fuel count (last + 1) (omega (arith, enough, further)))
        (Sound-go tt tt)
