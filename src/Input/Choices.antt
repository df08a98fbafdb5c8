-- ===== src/Input/Choices.antt =====
-- Input/LEDInput.c: chooseInput, on lines with numbers.
use ledcontroller.Prelude.{
  ℕ, zero, suc, ◌<◌, ◌≤◌, ◌≡◌, refl, ap, ◌∙◌, true, false, List, ◌∷◌, ◌++◌, none, some, ℤ, pos,
  arith, length,
}
use ledcontroller.Run.{done, continue}
use ledcontroller.Input.Console.{Console, below}
use ledcontroller.Input.Choosing.{IsNumberText, read_int-IsNumberText}
use ledcontroller.Input.Menus.{max_led_input, choose_again, choose_input}

-- The lines that chooseInput reads: numbers that it refuses, and then one that it takes.
pub data ChoiceLines (n : ℤ) (rest : List ℕ) : List ℕ → ℕ → Type 0 where
  taken :
      {text : List ℕ}
      → IsNumberText text n
      → length text < 99
      → below n max_led_input ≡ true
      → ChoiceLines n rest (text ++ 10 ∷ rest) 0
  refused :
      {text input : List ℕ} {m : ℤ} {lines : ℕ}
      → IsNumberText text m
      → length text < 99
      → below m max_led_input ≡ false
      → ChoiceLines n rest input lines
      → ChoiceLines n rest (text ++ 10 ∷ input) (suc lines)

-- The console without what was read.
abbrev pub left_with : {S T : Type 0} → Console S T → List ℕ → Console S T
left_with s rest = record s { input = rest }

module _ {S T : Type 0} where
  choose_again-taken :
      (fuel : ℕ) (line : List ℕ) (n : ℤ) (s : Console S T)
      → below n max_led_input ≡ true
      → choose_again fuel line n s ≡ done n s
  unfolding choose_again
  choose_again-taken zero line n s h = rw h refl
  choose_again-taken (suc fuel) line n s h = rw h refl

  choose_again-refused :
      (fuel : ℕ) (line : List ℕ) (n m : ℤ) (rest input : List ℕ) (lines : ℕ) (s : Console S T)
      → below m max_led_input ≡ false
      → s.input ≡ input
      → ChoiceLines n rest input lines
      → lines < fuel
      → choose_again fuel line m s ≡ done n (left_with s rest)
  unfolding choose_again
  choose_again-refused zero line n m rest input lines s bad e h enough =
      absurd (omega (arith, enough))
  choose_again-refused (suc fuel) line n m rest input lines s bad e (taken {text} number short good)
        enough =
      rw bad (
        ap (continue λ read. choose_again fuel read.0 read.1)
          (read_int-IsNumberText (some line) m text rest n s e number short)
        ∙ choose_again-taken fuel _ n _ good)
  choose_again-refused (suc fuel) line n m rest input lines s bad e
        (refused {text} {input = input'} {m = m'} {lines = lines'} number short bad' h) enough =
      rw bad (
        ap (continue λ read. choose_again fuel read.0 read.1)
          (read_int-IsNumberText (some line) m text input' m' s e number short)
        ∙ choose_again-refused fuel _ n m' rest input' lines' (left_with s input') bad' refl h
            (omega (arith, enough)))

  -- chooseInput reads lines with numbers up to the first that is below MAXLEDINPUT, where each line
  -- is shorter than the array and holds a number that an `int` holds: with fuel for the lines after
  -- the first it returns that number, and the console is left with what follows its line.
  pub choose_input-ChoiceLines :
      (lines fuel : ℕ) (n : ℤ) (rest : List ℕ) (s : Console S T)
      → ChoiceLines n rest s.input lines
      → lines ≤ fuel
      → choose_input fuel s ≡ done n (left_with s rest)
  unfolding choose_input
  choose_input-ChoiceLines lines fuel n rest s h enough = first s.input lines refl h enough
    where
      first :
          (input : List ℕ) (lines : ℕ)
          → s.input ≡ input
          → ChoiceLines n rest input lines
          → lines ≤ fuel
          → choose_input fuel s ≡ done n (left_with s rest)
      first input zero e (taken {text} number short good) enough =
          ap (continue λ read. choose_again fuel read.0 read.1)
            (read_int-IsNumberText none (pos 0) text rest n s e number short)
          ∙ choose_again-taken fuel _ n _ good
      first input (suc lines') e (refused {text} {input = input'} {m = m'} number short bad h)
            enough =
          ap (continue λ read. choose_again fuel read.0 read.1)
            (read_int-IsNumberText none (pos 0) text input' m' s e number short)
          ∙ choose_again-refused fuel _ n m' rest input' lines' (left_with s input') bad refl h
              enough
