-- ===== src/Input/Console.antt =====
-- Input/LEDInput.c: the state behind the menus, and how they read a number.
use ledcontroller.Prelude.{
  ℕ, ◌+◌, Bool, true, false, List, [], ◌∷◌, Option, none, some, ℤ, pos, negsuc, ltb, ◌==◌,
  if◌then◌else◌,
}
use ledcontroller.Stdin.{fgets, c_string, skip_spaces, scan_number}
use ledcontroller.Run.{Outcome, done, exited, fault, waiting, Run}
use ledcontroller.Json.Text.{signed_int}

-- The state of the server and of the sequences, what is typed, how many blocks the menus asked of
-- malloc so far, and how often they called rand.
pub record Console (S T : Type 0) : Type 0 where
  pub server : S
  pub sequences : T
  pub input : List ℕ
  pub blocks : ℕ
  pub draws : ℕ

module _ {S T A : Type 0} where
  abbrev pub lift_server : Console S T → Outcome S A → Outcome (Console S T) A
  lift_server c (done a s) = done a (record c { server = s })
  lift_server c (exited code s) = exited code (record c { server = s })
  lift_server c fault = fault
  lift_server c (waiting s) = waiting (record c { server = s })

  -- What a function of the server does.
  abbrev pub on_server : Run S A → Run (Console S T) A
  on_server m c = lift_server c (m c.server)

  abbrev pub lift_sequences : Console S T → Outcome T A → Outcome (Console S T) A
  lift_sequences c (done a s) = done a (record c { sequences = s })
  lift_sequences c (exited code s) = exited code (record c { sequences = s })
  lift_sequences c fault = fault
  lift_sequences c (waiting s) = waiting (record c { sequences = s })

  -- What a function on sequences does.
  abbrev pub on_sequences : Run T A → Run (Console S T) A
  on_sequences m c = lift_sequences c (m c.sequences)

-- One call of malloc; `gives` is the allocator's answer to each.
unfoldable pub block : {S T : Type 0} → (ℕ → Bool) → Run (Console S T) Bool
block gives c = done (gives c.blocks) (record c { blocks = c.blocks + 1 })

-- The number after an optional sign; a value that an `int` cannot hold is undefined.
unfoldable pub int_of : Bool → Option (ℕ × List ℕ) → ℤ → Option ℤ
unfolding signed_int
int_of minus none old = some old
int_of minus (some (n, rest)) old = signed_int minus n

unfoldable pub sscanf_sign : List ℕ → ℤ → Option ℤ
unfolding int_of
sscanf_sign [] old = some old
sscanf_sign (c ∷ cs) old =
    if c == 45
    then int_of true (scan_number cs) old
    else int_of false (scan_number (if c == 43 then cs else c ∷ cs)) old

-- sscanf(line, "%d", &old): what `old` is then.
unfoldable pub sscanf_d : List ℕ → ℤ → Option ℤ
unfolding sscanf_sign
sscanf_d line old = sscanf_sign (skip_spaces (c_string line)) old

module _ {S T : Type 0} where
  unfoldable pub stored_int : Option ℤ → List ℕ → Run (Console S T) (List ℕ × ℤ)
  stored_int none line s = fault
  stored_int (some n) line s = done (line, n) s

  -- The line that fgets leaves in the array, if anything was written to it yet.
  unfoldable pub scanned : Option (List ℕ) → ℤ → Run (Console S T) (List ℕ × ℤ)
  unfolding stored_int
  scanned none old s = fault
  scanned (some line) old s = stored_int (sscanf_d line old) line s

  -- fgets(userInput, 100, stdin); sscanf(userInput, "%d", &old);
  unfoldable pub read_int : Option (List ℕ) → ℤ → Run (Console S T) (List ℕ × ℤ)
  unfolding scanned
  read_int buffer old s =
      let (buffer', rest) = fgets s.input buffer in scanned buffer' old (record s { input = rest })

-- n < bound, for an int and a number
abbrev pub below : ℤ → ℕ → Bool
below (pos n) bound = ltb n bound
below (negsuc n) bound = true

abbrev pub is_below_zero : ℤ → Bool
is_below_zero (pos n) = false
is_below_zero (negsuc n) = true
