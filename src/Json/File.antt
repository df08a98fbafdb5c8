-- ===== src/Json/File.antt =====
-- Server/JSONToLeds.c: extractRGBFromFile. The file system is a parameter.
use ledcontroller.Prelude.{ℕ, Bool, true, false, List, Option, none, some, if◌then◌else◌}
use ledcontroller.Stdin.{c_string}
use ledcontroller.Run.{Run, pure, ◌>>=◌}
use ledcontroller.Json.{
  JsonResult, open_file_error, close_file_error, allocation_error, Jsmn, Sequences,
}
use ledcontroller.Json.Store.{malloc}
use ledcontroller.Json.Walk.{Written, extract_rgb_from_string}

-- fopen and fread: the characters of the file with that path, if it can be opened; and whether
-- fclose succeeds.
pub record Files : Type 0 where
  pub contents : List ℕ → Option (List ℕ)
  pub closes : List ℕ → Bool

module _ (files : Files) (jsmn : Jsmn) (grants : ℕ → Bool) (pointer_bytes : ℕ) where
  -- malloc has answered.
  unfoldable pub in_block : List ℕ → List ℕ → Bool → Run Sequences (JsonResult × Written)
  in_block path characters false = pure (allocation_error, none)
  in_block path characters true =
      if files.closes path
      then extract_rgb_from_string jsmn grants pointer_bytes (c_string characters)
      else pure (close_file_error, none)

  -- fopen has answered; the text of the file, as a C string, is read into a block.
  unfoldable pub read_file : List ℕ → Option (List ℕ) → Run Sequences (JsonResult × Written)
  unfolding malloc in_block
  read_file path none = pure (open_file_error, none)
  read_file path (some characters) = do granted ← malloc grants; in_block path characters granted

  unfoldable pub extract_rgb_from_file : List ℕ → Run Sequences (JsonResult × Written)
  unfolding read_file
  extract_rgb_from_file path = read_file path (files.contents path)
