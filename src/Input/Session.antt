-- ===== src/Input/Session.antt =====
-- Input/LEDInput.c: the loop of beginConsoleInput, whatever the input.
use ledcontroller.Prelude.{
  ℕ, zero, suc, ◌≤◌, ◌≡◌, refl, ap, Bool, true, false, List, ◌∷◌, Option, none, some, ℤ, pos,
  negsuc, arith, if◌then◌else◌,
}
use ledcontroller.Run.{Outcome, done, exited, fault, waiting, Run, pure, continue, ◌>>=◌}
use ledcontroller.Server.Header.{LedServer}
use ledcontroller.Json.Header.{JsonToLeds}
use ledcontroller.Input.Console.{block, Console, read_int, below, is_below_zero}
use ledcontroller.Input.Menus.{
  max_led_input, choose_again, choose_input, example_menu, run_choice, go_back, begin_console_input,
}
use ledcontroller.Input.Files.{file_menu, file_path, before_break}
use ledcontroller.Stdin.{fgets, take_line, c_string}
use ledcontroller.Input.Choices.{ChoiceLines, left_with, choose_input-ChoiceLines}

-- Where the run returns a value, `P` holds of it.
abbrev pub Returned : {S A : Type 0} → (A → Type 0) → Outcome S A → Type 0
Returned P (done a s) = P a
Returned P (exited code s) = Unit
Returned P fault = Unit
Returned P (waiting s) = Unit

Returned-continue :
    {S A B : Type 0} (P : A → Type 0) (Q : B → Type 0) (k : A → Run S B) (o : Outcome S A)
    → Returned P o
    → ((a : A) (s : S) → P a → Returned Q (k a s))
    → Returned Q (continue k o)
Returned-continue P Q k (done a s) h next = next a s h
Returned-continue P Q k (exited code s) h next = tt
Returned-continue P Q k fault h next = tt
Returned-continue P Q k (waiting s) h next = tt

-- Nothing is said of the value.
Returned-any : {S A : Type 0} (o : Outcome S A) → Returned (λ a. Unit {0}) o
Returned-any (done a s) = tt
Returned-any (exited code s) = tt
Returned-any fault = tt
Returned-any (waiting s) = tt

abbrev pub IsChoice : ℤ → Type 0
IsChoice n = below n max_led_input ≡ true

module _ {S T : Type 0} where
  choose_again-IsChoice :
      (fuel : ℕ) (line : List ℕ) (n : ℤ) (b : Bool) (s : Console S T)
      → below n max_led_input ≡ b
      → Returned IsChoice (choose_again fuel line n s)
  unfolding choose_again
  choose_again-IsChoice zero line n true s e = rw e e
  choose_again-IsChoice zero line n false s e = rw e tt
  choose_again-IsChoice (suc fuel) line n true s e = rw e e
  choose_again-IsChoice (suc fuel) line n false s e = rw e (
      Returned-continue (λ read. Unit {0}) IsChoice (λ read. choose_again fuel read.0 read.1)
        (read_int (some line) n s) (Returned-any _)
        λ read t _. choose_again-IsChoice fuel read.0 read.1 _ t refl)

  -- Whatever the console's input, a number that chooseInput returns is below MAXLEDINPUT.
  pub choose_input-IsChoice : (fuel : ℕ) (s : Console S T) → Returned IsChoice (choose_input fuel s)
  unfolding choose_input
  choose_input-IsChoice fuel s =
      Returned-continue (λ read. Unit {0}) IsChoice (λ read. choose_again fuel read.0 read.1)
        (read_int none (pos 0) s) (Returned-any _)
        λ read t _. choose_again-IsChoice fuel read.0 read.1 _ t refl

module _ {S T : Type 0} (server : LedServer S) (json : JsonToLeds T) (gives : ℕ → Bool)
    (rand : ℕ → ℕ) where
  abbrev begin : ℕ → ℕ → Run (Console S T) ℕ
  begin = begin_console_input server json gives rand

  abbrev chosen_task : ℕ → ℤ → Run (Console S T) (Option ℕ)
  chosen_task = run_choice server json gives rand

  goes_on :
      (m : Run (Console S T) (Unit {0})) (s : Console S T)
      → Returned (λ (o : Option ℕ). o ≡ none) (continue (λ _. pure none) (m s))
  goes_on m s =
      Returned-continue (λ _. Unit {0}) (λ (o : Option ℕ). o ≡ none) (λ _. pure none) (m s)
        (Returned-any _) λ _ t _. refl

  -- The tasks of a choice from 0 to 3 go back to the menu.
  chosen_task-none :
      (lines : ℕ) (n : ℤ) (s : Console S T)
      → IsChoice n
      → is_below_zero n ≡ false
      → Returned (λ o. o ≡ none) (chosen_task lines n s)
  unfolding run_choice
  chosen_task-none lines (pos zero) s h e = goes_on (example_menu server json gives rand lines) s
  chosen_task-none lines (pos (suc zero)) s h e = refl
  chosen_task-none lines (pos (suc (suc zero))) s h e = goes_on (file_menu server json gives) s
  chosen_task-none lines (pos (suc (suc (suc zero)))) s h e = refl
  chosen_task-none lines (pos (suc (suc (suc (suc n))))) s h e = ground arith
  chosen_task-none lines (negsuc n) s h e = cc

  -- Back in the menu, or at its end.
  after_choice :
      (lines : ℕ) (choice : ℤ) (b : Bool) (again : Run (Console S T) ℕ) (t : Console S T)
      → is_below_zero choice ≡ b
      → IsChoice choice
      → ((t' : Console S T) → Returned (λ n. n ≡ 0) (again t'))
      → Returned
          (λ n. n ≡ 0)
          ((if is_below_zero choice
              then pure 0
              else (chosen_task lines choice >>= λ ended. go_back ended again))
            t)
  unfolding go_back
  after_choice lines choice true again t e small next = rw e refl
  after_choice lines choice false again t e small next = rw e (
      Returned-continue (λ o. o ≡ none) (λ n. n ≡ 0) (λ ended. go_back ended again)
        (chosen_task lines choice t) (chosen_task-none lines choice t small e)
        λ ended t' is_none. rw is_none (next t'))

  -- Whatever the console's input, the network and the files, beginConsoleInput returns nothing but
  -- 0: no choice leads to the default branch of its switch, which closes the program with 1.
  pub begin_console_input-zero :
      (rounds lines : ℕ) (s : Console S T)
      → Returned (λ n. n ≡ 0) (begin_console_input server json gives rand rounds lines s)
  unfolding begin_console_input
  begin_console_input-zero zero lines s = tt
  begin_console_input-zero (suc rounds) lines s =
      Returned-continue IsChoice (λ n. n ≡ 0)
        (λ choice.
          if is_below_zero choice
          then pure 0
          else (chosen_task lines choice >>= λ ended. go_back ended (begin rounds lines)))
        (choose_input lines s) (choose_input-IsChoice lines s)
        λ choice t small.
          after_choice lines choice _ (begin rounds lines) t refl small
            (begin_console_input-zero rounds lines)

  -- A negative number ends the menu: if it and the numbers on the lines before it are decimal numbers
  -- of at most 98 chars that an `int` holds, and those before it are refused (4 or more),
  -- beginConsoleInput returns 0, with fuel for these lines, and the console is left with what follows.
  pub begin_console_input-ChoiceLines :
      (rounds lines count n : ℕ) (rest : List ℕ) (s : Console S T)
      → ChoiceLines (negsuc n) rest s.input count
      → count ≤ lines
      → begin_console_input server json gives rand (suc rounds) lines s ≡ done 0 (left_with s rest)
  unfolding begin_console_input
  begin_console_input-ChoiceLines rounds lines count n rest s h enough =
      ap
        (continue λ choice.
          if is_below_zero choice
          then pure 0
          else (chosen_task lines choice >>= λ ended. go_back ended (begin rounds lines)))
        (choose_input-ChoiceLines count lines (negsuc n) rest s h enough)

module _ {S T : Type 0} (server : LedServer S) (json : JsonToLeds T) (gives : ℕ → Bool) where
  -- An empty line does not lead fileMenu back to the menu: no character is converted, and the next
  -- test reads a block that nothing was written to, which is undefined. This is where malloc gives
  -- the block.
  pub file_menu-fault :
      (rest : List ℕ) (s : Console S T)
      → s.input ≡ 10 ∷ rest
      → gives s.blocks ≡ true
      → file_menu server json gives s ≡ fault
  unfolding file_menu fgets take_line file_path before_break c_string block
  file_menu-fault rest s e granted = rw (e, granted) refl
