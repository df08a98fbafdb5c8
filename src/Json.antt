-- ===== src/Json.antt =====
-- Server/JSONToLeds.c: a JSON text becomes the sequences of LEDs that the server plays. The tokens
-- come from jsmn, a parameter. Messages and the freeing of the text and the tokens are left out.
pub mod Text
pub mod Store
pub mod Walk
pub mod File
pub mod Contract
pub mod Header
use ledcontroller.Prelude.{ℕ, Bool, List, Option, ℤ}
use ledcontroller.Led.{Cell, LedSequence}

-- What the functions return: 0, or a value of jsonToLedErr.
pub data JsonResult : Type 0 where
  all_ok open_file_error close_file_error allocation_error invalid_json
        led_sequences_not_initialized :
      JsonResult

-- jsmntype_t and jsmntok_t. A token's place lies in the text.
pub data JsmnType : Type 0 where
  undefined object array string primitive : JsmnType

pub record Token : Type 0 where
  pub type : JsmnType
  pub start : ℕ
  pub end : ℕ
  pub size : ℕ

-- jsmn_parse without tokens, which counts them, and into an array with room for some: its result
-- and the tokens that it wrote.
pub record Jsmn : Type 0 where
  pub count : List ℕ → ℤ
  pub parse : List ℕ → ℕ → ℤ × List Token

-- The statics of the file, and the number of blocks asked of the allocator so far.
pub record Sequences : Type 0 where
  pub extracted_sequences : Option (List (Cell LedSequence))
  pub is_initialized : Bool
  pub number_of_sequences : ℕ
  pub calls : ℕ
