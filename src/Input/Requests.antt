-- ===== src/Input/Requests.antt =====
-- Input/LEDInput.c: a session in which only the file menu is chosen_round.
use ledcontroller.Prelude.{
  ℕ, zero, suc, ◌+◌, ◌<◌, ◌≤◌, ◌≡◌, sym, ap, ◌∙◌, Bool, true, List, [], ◌∷◌, ◌++◌, pos, negsuc,
  none, arith, length, All, if◌then◌else◌, ℤ,
}
use mathlib.Core.List.{append-nil, append_assoc}
use ledcontroller.Run.{Outcome, done, Run, pure, continue, ◌>>=◌}
use ledcontroller.Json.Header.{JsonToLeds, Extracts}
use ledcontroller.Json.Store.Stored.{Sequence}
use ledcontroller.Server.Header.{LedServer, Translates}
use ledcontroller.Input.Console.{Console, is_below_zero}
use ledcontroller.Input.Files.{file_menu}
use ledcontroller.Input.Choices.{ChoiceLines, left_with, choose_input-ChoiceLines}
use ledcontroller.Input.Menus.{run_task, run_choice, go_back, begin_console_input}
use ledcontroller.Input.Playing.{play_bytes, IsPlayable}
use ledcontroller.Input.FileMenu.{IsAnswer, file_menu-Sends}

-- One use of the file menu: the path, how often to play, and the sequences of the file.
pub record Request : Type 0 where
  pub path : List ℕ
  pub rounds : ℕ
  pub first : Sequence
  pub later : List Sequence

abbrev pub session_bytes : ℕ → ℕ → List Request → List ℕ
session_bytes rows columns [] = []
session_bytes rows columns (r ∷ rs) =
    play_bytes rows columns (r.first ∷ r.later) r.rounds ++ session_bytes rows columns rs

-- What is typed in such a session: for every request the number of the file menu and an answer to
-- it, and a negative number at its end. At most `lines` numbers are refused before one is taken.
pub data FileSession (lines : ℕ) (rest : List ℕ) : List Request → List ℕ → Type 0 where
  ended :
      {n count : ℕ} {input : List ℕ}
      → ChoiceLines (negsuc n) rest input count
      → count ≤ lines
      → FileSession lines rest [] input
  asked :
      {count : ℕ} {r : Request} {rs : List Request} {input answer next : List ℕ}
      → ChoiceLines (pos 2) answer input count
      → count ≤ lines
      → IsAnswer r.path r.rounds next answer
      → FileSession lines rest rs next
      → FileSession lines rest (r ∷ rs) input

module _ {S T : Type 0} (server : LedServer S) (json : JsonToLeds T) (gives : ℕ → Bool)
    (rand : ℕ → ℕ) {Ready : ℕ → ℕ → S → Type 0} {sent : S → List ℕ}
    (law : Translates server Ready sent) {Holding : List Sequence → T → Type 0} {Fresh : T → Type 0}
    {Says Describes : List ℕ → List Sequence → Type 0}
    (law' : Extracts json Holding Fresh Says Describes) (given : (n : ℕ) → gives n ≡ true)
    (rows columns lines : ℕ) where
  abbrev begin : ℕ → Run (Console S T) ℕ
  begin rounds = begin_console_input server json gives rand rounds lines

  -- One round of the loop, from the choice on.
  abbrev chosen_round : ℕ → ℤ → Run (Console S T) ℕ
  chosen_round rounds choice =
      if is_below_zero choice
      then pure 0
      else (run_choice server json gives rand lines choice >>= λ over. go_back over (begin rounds))

  -- The file describes the sequences, and they can be played.
  abbrev pub IsServable : Request → Type 0
  IsServable r = Describes r.path (r.first ∷ r.later) × All (IsPlayable columns) (r.first ∷ r.later)

  -- The session returns 0, with these bytes written and what follows left on the console.
  abbrev pub Serves : List Request → List ℕ → Console S T → Outcome (Console S T) ℕ → Type 0
  Serves rs rest c o =
      (s' : S) × (t' : T) × (held : List Sequence) × (o
        ≡ done 0
            (record c { server = s'; sequences = t'; input = rest; blocks = c.blocks + length rs }))
      × Ready rows columns s'
      × Holding held t'
      × (sent s' ≡ sent c.server ++ session_bytes rows columns rs)

  abbrev counted : Console S T → ℕ → Outcome (Console S T) ℕ
  counted c n = done 0 (record c { blocks = n })

  begin-taken :
      (rounds count : ℕ) (n : ℤ) (rest : List ℕ) (c : Console S T)
      → ChoiceLines n rest c.input count
      → count ≤ lines
      → begin (suc rounds) c ≡ chosen_round rounds n (left_with c rest)
  unfolding begin_console_input
  begin-taken rounds count n rest c choice enough =
      ap (continue (chosen_round rounds))
        (choose_input-ChoiceLines count lines n rest c choice enough)

  chosen_round-file_menu :
      (rounds : ℕ) (c c' : Console S T)
      → file_menu server json gives c ≡ done tt c'
      → chosen_round rounds (pos 2) c ≡ begin rounds c'
  unfolding run_choice run_task go_back
  chosen_round-file_menu rounds c c' runs =
      ap (continue λ over. go_back over (begin rounds)) (ap (continue λ _. pure none) runs)

  pub begin_console_input-Serves :
      (rounds : ℕ) (rs : List Request) (rest : List ℕ) (held : List Sequence) (c : Console S T)
      → FileSession lines rest rs c.input
      → length rs < rounds
      → Ready rows columns c.server
      → Holding held c.sequences
      → All IsServable rs
      → Serves rs rest c (begin rounds c)
  begin_console_input-Serves zero rs rest held c typed enough ready h able =
      absurd (omega (arith, enough))
  begin_console_input-Serves (suc rounds) [] rest held c (ended {n} {count} choice few) enough ready
        h able =
      let none_more : c.blocks ≡ c.blocks + 0 = omega arith in
      (
        c.server,
        c.sequences,
        held,
        begin-taken rounds count (negsuc n) rest c choice few
            ∙ ap (counted (left_with c rest)) none_more,
        ready,
        h,
        sym (append-nil (sent c.server)),
      )
  begin_console_input-Serves (suc rounds) (r ∷ rs) rest held c
        (asked {count} {answer = answer} {next = next} choice few a typed) enough ready h able =
      let (s, t, runs, ready', sends, nothing) =
        file_menu-Sends server json gives law law' rows columns r.path next r.rounds r.first r.later
          held (left_with c answer) a (given c.blocks) ready h able.0.0 able.0.1 in
      let c' : Console S T = record c {
        server = s;
        sequences = t;
        input = next;
        blocks = c.blocks + 1;
      } in
      let (s', t', held', runs', ready'', h', sends') =
        begin_console_input-Serves rounds rs rest [] c' typed (omega (arith, enough)) ready' nothing
          able.1 in
      let one_more : c.blocks + 1 + length rs ≡ c.blocks + length (r ∷ rs) = omega arith in
      (
        s',
        t',
        held',
        begin-taken rounds count (pos 2) answer c choice few
            ∙ chosen_round-file_menu rounds (left_with c answer) c' runs
            ∙ runs'
            ∙ ap (counted (record c' { server = s'; sequences = t'; input = rest })) one_more,
        ready'',
        h',
        sends'
            ∙ ap (λ bytes. bytes ++ session_bytes rows columns rs) sends
            ∙ append_assoc (sent c.server) _ _,
      )
