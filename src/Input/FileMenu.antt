-- ===== src/Input/FileMenu.antt =====
-- Input/LEDInput.c: what the file menu does with a file of sequences, over the contracts of the
-- server and of the sequences.
use ledcontroller.Prelude.{
  ℕ, suc, ◌+◌, ◌<◌, ◌≡◌, refl, ap, ◌∙◌, Bool, true, false, ◌&&◌, ◌==◌, List, [], ◌∷◌, ◌++◌, map,
  none, some, pos, arith, length, All, ltb, if◌then◌else◌,
}
use ledcontroller.Run.{done, Run, pure, continue, ◌>>=◌, ◌>>◌}
use ledcontroller.Json.{JsonResult, all_ok}
use ledcontroller.Json.Walk.{Written}
use ledcontroller.Json.Header.{JsonToLeds, Extracts}
use ledcontroller.Json.Store.Arrays.{closed}
use ledcontroller.Json.Store.Stored.{Sequence, stored}
use ledcontroller.Server.Header.{LedServer, Translates}
use ledcontroller.Input.Console.{block, Console, on_sequences, lift_sequences}
use ledcontroller.Input.Choosing.{
  IsPlain, c_string-IsPlain, fgets-IsPlain, IsNumberText, read_int-IsNumberText,
}
use ledcontroller.Input.Files.{
  before_break, file_path, play_loops, show_file, extract_and_show, with_line, file_menu,
}
use ledcontroller.Input.Playing.{play_bytes, IsPlayable, play_loops-Sends}

before_break-IsPlain : (path : List ℕ) → All IsPlain path → before_break (path ++ 10 ∷ []) ≡ path
unfolding before_break
before_break-IsPlain [] h = refl
before_break-IsPlain (c ∷ path) h =
    let other : (c == 10) ≡ false = ground arith in
    rw other (ap (◌∷◌ c) (before_break-IsPlain path h.1))

length-line : (path : List ℕ) → length (path ++ 10 ∷ []) ≡ suc (length path)
length-line [] = refl
length-line (c ∷ path) = ap suc (length-line path)

file_path-IsPlain :
    (path : List ℕ) → All IsPlain path → 0 < length path → file_path (path ++ 10 ∷ []) ≡ some path
unfolding file_path
file_path-IsPlain path h some_path =
    rw (c_string-IsPlain path h, before_break-IsPlain path h, length-line path)
      (let room : (ltb 0 (length path) && ltb (length path) (suc (length path))) ≡ true =
          ground arith in
        rw room refl)

-- What is typed at the file menu: a path, and how often to play its sequences.
pub record IsAnswer (path : List ℕ) (n : ℕ) (rest input : List ℕ) : Type 0 where
  pub number : List ℕ
  pub typed : input ≡ path ++ 10 ∷ (number ++ 10 ∷ rest)
  pub path_chars : All IsPlain path
  pub path_some : 0 < length path
  pub path_short : length path < 99
  pub number_text : IsNumberText number (pos n)
  pub number_short : length number < 99

module _ {S T : Type 0} (server : LedServer S) (json : JsonToLeds T) (gives : ℕ → Bool) where
  -- The path is read, and the block for it is given.
  file_menu-path :
      (path : List ℕ) (n : ℕ) (rest : List ℕ) (c : Console S T)
      → (a : IsAnswer path n rest c.input) → gives c.blocks ≡ true
      → file_menu server json gives c
        ≡ extract_and_show server json gives
            (path ++ 10 ∷ [])
            (some path)
            (record c { input = a.number ++ 10 ∷ rest; blocks = c.blocks + 1 })
  unfolding file_menu with_line block
  file_menu-path path n rest c a given =
      let line = path ++ 10 ∷ [] in
      let left = a.number ++ 10 ∷ rest in
      let asked : Console S T = record c { input = left; blocks = c.blocks + 1 } in
      let show = extract_and_show server json gives line in
      ap (λ l. with_line server json gives l.0 (record c { input = l.1 }))
        (fgets-IsPlain c.input path left none a.typed a.path_chars a.path_short)
      ∙ ap (λ g. (if g then show (file_path line) else pure tt) asked) given
      ∙ ap (λ p. show p asked) (file_path-IsPlain path a.path_chars a.path_some)

  module _ {Ready : ℕ → ℕ → S → Type 0} {sent : S → List ℕ} (law : Translates server Ready sent)
      {Holding : List Sequence → T → Type 0} {Fresh : T → Type 0}
      {Says Describes : List ℕ → List Sequence → Type 0}
      (law' : Extracts json Holding Fresh Says Describes) where
    -- The sequences are known: the number is read, they are played and freed.
    show_file-Sends :
        (rows columns : ℕ) (line number rest : List ℕ) (n : ℕ) (q : Sequence) (qs : List Sequence)
        (c : Console S T)
        → c.input ≡ number ++ 10 ∷ rest
        → IsNumberText number (pos n)
        → length number < 99
        → Ready rows columns c.server
        → Holding (q ∷ qs) c.sequences
        → All (IsPlayable columns) (q ∷ qs)
        → (s' : S) × (t' : T) × (show_file server json gives line
              (all_ok, some (some (closed (map stored (q ∷ qs)))))
              c
            ≡ done tt (record c { server = s'; sequences = t'; input = rest }))
          × Ready rows columns s'
          × (sent s' ≡ sent c.server ++ play_bytes rows columns (q ∷ qs) n)
          × Holding [] t'
    unfolding show_file
    show_file-Sends rows columns line number rest n q qs c typed text short r h playable =
        let shown = some (closed (map stored (q ∷ qs))) in
        let read : Console S T = record c { input = rest } in
        let (s', plays, ready, sends) =
          play_loops-Sends server law rows columns n (q ∷ qs) read r playable in
        let (t', frees, nothing) = law'.frees (q ∷ qs) c.sequences h in
        let free : Run (Console S T) (Unit {0}) = on_sequences json.free_led_sequences in
        (
          s',
          t',
          ap (continue λ answer. do play_loops server answer.1 shown; free)
                (read_int-IsNumberText (some line) (pos 0) number rest (pos n) c typed text short)
              ∙ ap (continue λ _. free) plays
              ∙ ap (lift_sequences (record read { server = s' })) frees,
          ready,
          sends,
          nothing,
        )

    -- The file menu, on a path and a number of rounds: it returns, the sequences of the file are
    -- on the wire that many times over, none are held, and only the two lines were read.
    pub file_menu-Sends :
        (rows columns : ℕ) (path rest : List ℕ) (n : ℕ) (q : Sequence) (qs held : List Sequence)
        (c : Console S T)
        → IsAnswer path n rest c.input
        → gives c.blocks ≡ true
        → Ready rows columns c.server
        → Holding held c.sequences
        → Describes path (q ∷ qs)
        → All (IsPlayable columns) (q ∷ qs)
        → (s' : S) × (t' : T) × (file_menu server json gives c
            ≡ done tt
                (record c { server = s'; sequences = t'; input = rest; blocks = c.blocks + 1 }))
          × Ready rows columns s'
          × (sent s' ≡ sent c.server ++ play_bytes rows columns (q ∷ qs) n)
          × Holding [] t'
    unfolding extract_and_show
    file_menu-Sends rows columns path rest n q qs held c a given r h d playable =
        let line = path ++ 10 ∷ [] in
        let show = show_file server json gives line in
        let extracting : Run (Console S T) (JsonResult × Written) =
          on_sequences (json.extract_rgb_from_file path) in
        let (t, initialises, fresh) = law'.initialises held c.sequences h in
        let (t', extracts, holds) = law'.extracts path q qs t fresh d in
        let asked : Console S T = record c {
          input = a.number ++ 10 ∷ rest;
          blocks = c.blocks + 1;
        } in
        let (s', t'', shows, ready, sends, nothing) =
          show_file-Sends rows columns line a.number rest n q qs (record asked { sequences = t' })
            refl a.number_text a.number_short r holds playable in
        (
          s',
          t'',
          file_menu-path path n rest c a given
              ∙ ap (continue λ _. do answer ← extracting; show answer)
                  (ap (lift_sequences asked) initialises)
              ∙ ap (continue show) (ap (lift_sequences (record asked { sequences = t })) extracts)
              ∙ shows,
          ready,
          sends,
          nothing,
        )
