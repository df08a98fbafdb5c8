-- ===== src/Json/Header.antt =====
-- Server/JSONToLeds.h: the functions on sequences, as a client sees them. `T` is the state of the
-- statics behind them.
use ledcontroller.Prelude.{ℕ, ◌≡◌, Bool, List, [], ◌∷◌, map, some}
use ledcontroller.Run.{done, Run}
use ledcontroller.Json.{JsonResult, all_ok, Jsmn, Sequences}
use ledcontroller.Json.Store.{init_led_sequences, free_led_sequences}
use ledcontroller.Json.Store.Arrays.{closed}
use ledcontroller.Json.Store.Stored.{Sequence, stored}
use ledcontroller.Json.Walk.{Written, extract_rgb_from_string}
use ledcontroller.Json.File.{Files, extract_rgb_from_file}

pub record JsonToLeds (T : Type 0) : Type 0 where
  -- From the file with that path: the result, and what *outSequences is if it is written.
  pub extract_rgb_from_file : List ℕ → Run T (JsonResult × Written)
  -- From a text.
  pub extract_rgb_from_string : List ℕ → Run T (JsonResult × Written)
  pub init_led_sequences : Run T (Unit {0})
  pub free_led_sequences : Run T (Unit {0})

-- The protocol that the header asks for. `Holding` says which sequences the statics hold, `Fresh`
-- that they are initialised, `Says` that a text describes sequences, `Describes` that the file with
-- a path does.
pub record Extracts {T : Type 0} (json : JsonToLeds T) (Holding : List Sequence → T → Type 0)
    (Fresh : T → Type 0) (Says : List ℕ → List Sequence → Type 0)
    (Describes : List ℕ → List Sequence → Type 0) : Type 0 where
  pub initialises :
      (qs : List Sequence) (t : T)
      → Holding qs t
      → (t' : T) × (json.init_led_sequences t ≡ done tt t') × Fresh t'
  -- The array that comes out ends with NULL.
  pub reads :
      (text : List ℕ) (q : Sequence) (qs : List Sequence) (t : T)
      → Fresh t
      → Says text (q ∷ qs)
      → (t' : T) × (json.extract_rgb_from_string text t
          ≡ done (all_ok, some (some (closed (map stored (q ∷ qs))))) t')
        × Holding (q ∷ qs) t'
  pub extracts :
      (path : List ℕ) (q : Sequence) (qs : List Sequence) (t : T)
      → Fresh t
      → Describes path (q ∷ qs)
      → (t' : T) × (json.extract_rgb_from_file path t
          ≡ done (all_ok, some (some (closed (map stored (q ∷ qs))))) t')
        × Holding (q ∷ qs) t'
  pub frees :
      (qs : List Sequence) (t : T)
      → Holding qs t
      → (t' : T) × (json.free_led_sequences t ≡ done tt t') × Holding [] t'

-- Server/JSONToLeds.c.
abbrev pub json_to_leds : Files → Jsmn → (ℕ → Bool) → ℕ → JsonToLeds Sequences
json_to_leds files jsmn grants pointer_bytes = record {
  extract_rgb_from_file = extract_rgb_from_file files jsmn grants pointer_bytes;
  extract_rgb_from_string = extract_rgb_from_string jsmn grants pointer_bytes;
  init_led_sequences = init_led_sequences grants;
  free_led_sequences = free_led_sequences;
}
