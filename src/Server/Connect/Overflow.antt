-- ===== src/Server/Connect/Overflow.antt =====
-- getOutputInformations when the typed word is longer than the array it is scanned into.
use ledcontroller.Prelude.{
  ℕ, suc, ◌≡◌, ap, ◌≤◌, ◌<◌, ◌++◌, ◌∷◌, refl, All, Bool, false, List, [], none, some, arith, length,
}
use ledcontroller.Network.{Network}
use ledcontroller.Run.{fault, continue}
use ledcontroller.Stdin.{
  fgets, is_empty_line, sscanf_s_hu, c_string, same_text, is_space, scan_word, word_then_hu,
}
use ledcontroller.Input.Choosing.{IsPlain, skip_spaces-digit, fgets-IsPlain, c_string-IsPlain}
use ledcontroller.Server.{Server}
use ledcontroller.Server.Connect.{chosen, answer, ask, get_output_informations}

All-above-IsPlain : (text : List ℕ) → All (λ c. 32 < c) text → All IsPlain text
All-above-IsPlain [] h = tt
All-above-IsPlain (c ∷ cs) h = (omega (arith, h.0), All-above-IsPlain cs h.1)

is_empty_line-word : (c : ℕ) (cs : List ℕ) → 32 < c → is_empty_line (c ∷ cs ++ 10 ∷ []) ≡ false
unfolding is_empty_line c_string same_text
is_empty_line-word c cs above = ground arith

scan_word-above :
    (word : List ℕ) → All (λ c. 32 < c) word → scan_word (word ++ 10 ∷ []) ≡ (word, 10 ∷ [])
unfolding scan_word is_space
scan_word-above [] h = refl
scan_word-above (c ∷ cs) h = let rest = scan_word-above cs h.1 in ground arith

-- The word is scanned whole.
sscanf_s_hu-word :
    (c : ℕ) (cs : List ℕ)
    → All (λ d. 32 < d) (c ∷ cs)
    → (sscanf_s_hu (c ∷ cs ++ 10 ∷ []) [] 0).0 ≡ c ∷ cs
unfolding sscanf_s_hu word_then_hu
sscanf_s_hu-word c cs h =
    let line = c_string-IsPlain (c ∷ cs) (All-above-IsPlain (c ∷ cs) h) in
    let word = scan_word-above (c ∷ cs) h in
    rw (line, skip_spaces-digit c (cs ++ 10 ∷ []) h.0, word) refl

module _ {W : Type 0} (net : Network W) (signed : Bool) where
  chosen-none : (address : List ℕ) → chosen net signed address 0 ≡ none
  unfolding chosen
  chosen-none address = ground arith

  answer_long :
      (line : List ℕ)
      → is_empty_line line ≡ false
      → 16 ≤ length (sscanf_s_hu line [] 0).0
      → answer net signed line [] 0 ≡ none
  unfolding answer
  answer_long line some_text long = ground arith

  ask_long :
      (line rest : List ℕ) (lines : ℕ) (s : Server W)
      → fgets s.input none ≡ (some line, rest)
      → is_empty_line line ≡ false
      → 16 ≤ length (sscanf_s_hu line [] 0).0
      → ask net signed (suc lines) none [] 0 s ≡ fault
  unfolding ask
  ask_long line rest lines s read some_text long =
      rw (chosen-none [], read, answer_long line some_text long, ask)

  -- If the console's first line is one word of 16 to 98 chars above the blank, the scan into
  -- userIpAddress writes past the array's end: undefined behaviour, for any fuel of one line or more.
  pub get_output_informations_overflow :
      (word rest : List ℕ) (lines ticks : ℕ) (s : Server W)
      → s.input ≡ word ++ 10 ∷ rest
      → All (λ c. 32 < c) word
      → 16 ≤ length word
      → length word < 99
      → get_output_informations net signed (suc lines) ticks s ≡ fault
  unfolding get_output_informations
  get_output_informations_overflow [] rest lines ticks s typed above long short =
      absurd (omega (arith, long))
  get_output_informations_overflow (c ∷ cs) rest lines ticks s typed above long short =
      let plain = All-above-IsPlain (c ∷ cs) above in
      ap (continue _) (
        ask_long (c ∷ cs ++ 10 ∷ []) rest lines s
          (fgets-IsPlain s.input (c ∷ cs) rest none typed plain short)
          (is_empty_line-word c cs above.0)
          (omega (arith, long, ap length (sscanf_s_hu-word c cs above))))
