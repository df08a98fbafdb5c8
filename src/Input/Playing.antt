-- ===== src/Input/Playing.antt =====
-- Input/LEDInput.c: what playing sequences writes to an open connection.
use mathlib.Core.Option
use mathlib.Core.List.{append-nil, append_assoc}
use ledcontroller.Prelude.{
  ℕ, zero, suc, ◌*◌, ◌^◌, ◌<◌, ◌≡◌, refl, sym, ap, ◌∙◌, Bool, true, false, List, [], ◌∷◌, ◌++◌, map,
  some, pos, arith, length, All, leb,
}
use ledcontroller.Led.{AddressableLed, Cell, holds, LedSequence}
use ledcontroller.Wire.{update_text}
use ledcontroller.Run.{Outcome, done, Run, continue}
use ledcontroller.Server.Header.{LedServer, Translates}
use ledcontroller.Server.Translate.Sending.{sequence_bytes, HasPlaces}
use ledcontroller.Json.Store.Arrays.{closed}
use ledcontroller.Json.Store.Stored.{Sequence, stored, pointers}
use ledcontroller.Input.Console.{Console, on_server, lift_server}
use ledcontroller.Input.Files.{led_list, pause, play_round, play, play_loops}

led_list-closed : (leds : List AddressableLed) → led_list (closed leds) ≡ leds
led_list-closed [] = refl
led_list-closed (led ∷ leds) = ap (◌∷◌ led) (led_list-closed leds)

pub led_list-pointers :
    (leds : List AddressableLed) → led_list (Option.get_or (pointers leds) []) ≡ leds
led_list-pointers [] = refl
led_list-pointers (led ∷ leds) = led_list-closed (led ∷ leds)

-- What one round of playing sequences puts on the wire, and several rounds.
abbrev pub round_bytes : ℕ → ℕ → List Sequence → List ℕ
round_bytes rows columns [] = []
round_bytes rows columns (q ∷ qs) =
    (sequence_bytes rows columns q.leds ++ update_text) ++ round_bytes rows columns qs

abbrev pub play_bytes : ℕ → ℕ → List Sequence → ℕ → List ℕ
play_bytes rows columns qs zero = []
play_bytes rows columns qs (suc n) = round_bytes rows columns qs ++ play_bytes rows columns qs n

-- A pause whose nanoseconds an `int` holds, and LEDs with a place.
abbrev pub IsPlayable : ℕ → Sequence → Type 0
IsPlayable columns q = (q.delay < 2148) × HasPlaces columns q.leds

-- firstSequence after a round.
abbrev still : Bool → List Sequence → Bool
still first [] = first
still first (q ∷ qs) = false

module _ {S T : Type 0} (server : LedServer S) {Ready : ℕ → ℕ → S → Type 0} {sent : S → List ℕ}
    (law : Translates server Ready sent) (rows columns : ℕ) where
  -- A run that returns with the server ready again, after it has written these bytes; the
  -- sequences and what is typed stay as they are.
  abbrev pub Sends : {A : Type 0} → Console S T → Outcome (Console S T) A → A → List ℕ → Type 0
  Sends c o a bytes =
      (s' : S) × (o ≡ done a (record c { server = s' }))
      × Ready rows columns s'
      × (sent s' ≡ sent c.server ++ bytes)

  pub translate-Sends :
      (leds : List AddressableLed) (c : Console S T)
      → Ready rows columns c.server
      → HasPlaces columns leds
      → Sends c
          (on_server (server.translate_to_output leds (length leds)) c)
          tt
          (sequence_bytes rows columns leds ++ update_text)
  translate-Sends leds c r places =
      let (s', runs, r', sends) = law.translates rows columns leds c.server r places in
      (s', ap (lift_server c) runs, r', sends)

  Sends-bind :
      {A B : Type 0} (k : A → Run (Console S T) B) (c : Console S T) (o : Outcome (Console S T) A)
      (a : A) (b : B) (first second : List ℕ)
      → Sends c o a first
      → ((s' : S)
          → Ready rows columns s'
          → Sends (record c { server = s' }) (k a (record c { server = s' })) b second)
      → Sends c (continue k o) b (first ++ second)
  Sends-bind k c o a b first second (s', runs, ready, sends) rest =
      let (s'', runs', ready', sends') = rest s' ready in
      (
        s'',
        ap (continue k) runs ∙ runs',
        ready',
        sends' ∙ ap (λ bytes. bytes ++ second) sends ∙ append_assoc (sent c.server) first second,
      )

  Sends-pure :
      {A : Type 0} (a : A) (c : Console S T) → Ready rows columns c.server → Sends c (done a c) a []
  Sends-pure a c r = (c.server, refl, r, sym (append-nil (sent c.server)))

  pause-done :
      (first : Bool) (q : LedSequence) (c : Console S T)
      → q.delay < 2148
      → pause first q c ≡ done tt c
  unfolding pause
  pause-done true q c short = refl
  pause-done false q c short =
      let fits : leb (2 ^ 31) (q.delay * 1000000) ≡ false = ground arith in rw fits refl

  Sends-eq :
      {A : Type 0} (c : Console S T) (o o' : Outcome (Console S T) A) (a : A) (bytes : List ℕ)
      → o ≡ o'
      → Sends c o' a bytes
      → Sends c o a bytes
  Sends-eq c o o' a bytes e (s', runs, ready, sends) = (s', e ∙ runs, ready, sends)

  -- The sequence that the loop stands at, and what is left of the round.
  play_one-Sends :
      (first : Bool) (q : Sequence) (later : List (Cell LedSequence)) (bytes : List ℕ)
      (c : Console S T)
      → Ready rows columns c.server
      → IsPlayable columns q
      → ((s' : S)
          → Ready rows columns s'
          → Sends
              (record c { server = s' })
              (play_round server false later (record c { server = s' }))
              false
              bytes)
      → Sends c
          (play_round server first (holds (stored q) ∷ later) c)
          false
          ((sequence_bytes rows columns q.leds ++ update_text) ++ bytes)
  unfolding play_round
  play_one-Sends first q later bytes c r (short, places) rest =
      Sends-eq c _
        (continue (λ _. play_round server false later)
          (on_server (server.translate_to_output q.leds (length q.leds)) c))
        false _ (rw (pause-done first (stored q) c short, led_list-pointers q.leds) refl)
        (Sends-bind (λ _. play_round server false later) c _ tt false _ bytes
          (translate-Sends q.leds c r places) rest)

  play_rest-Sends :
      (qs : List Sequence) (c : Console S T)
      → Ready rows columns c.server
      → All (IsPlayable columns) qs
      → Sends c
          (play_round server false (closed (map stored qs)) c)
          false
          (round_bytes rows columns qs)
  play_rest-Sends [] c r h = unfold play_round in Sends-pure false c r
  play_rest-Sends (q ∷ qs) c r h =
      play_one-Sends false q (closed (map stored qs)) (round_bytes rows columns qs) c r h.0
        λ s' r'. play_rest-Sends qs (record c { server = s' }) r' h.1

  play_round-Sends :
      (first : Bool) (qs : List Sequence) (c : Console S T)
      → Ready rows columns c.server
      → All (IsPlayable columns) qs
      → Sends c
          (play_round server first (closed (map stored qs)) c)
          (still first qs)
          (round_bytes rows columns qs)
  play_round-Sends first [] c r h = unfold play_round in Sends-pure first c r
  play_round-Sends first (q ∷ qs) c r h =
      play_one-Sends first q (closed (map stored qs)) (round_bytes rows columns qs) c r h.0
        λ s' r'. play_rest-Sends qs (record c { server = s' }) r' h.1

  play-Sends :
      (n : ℕ) (first : Bool) (qs : List Sequence) (c : Console S T)
      → Ready rows columns c.server
      → All (IsPlayable columns) qs
      → Sends c (play server n first (closed (map stored qs)) c) tt (play_bytes rows columns qs n)
  unfolding play
  play-Sends zero first qs c r h = Sends-pure tt c r
  play-Sends (suc n) first qs c r h =
      Sends-bind (λ first'. play server n first' (closed (map stored qs))) c _ (still first qs) tt _
        (play_bytes rows columns qs n) (play_round-Sends first qs c r h)
        λ s' r'. play-Sends n (still first qs) qs (record c { server = s' }) r' h

  -- Playing sequences `n` times returns, where translateToOutput keeps to its contract and the
  -- server is ready for the grid, every LED has a place that an `int` holds, and no delay is longer
  -- than 2147 milliseconds: the server has written, `n` times over, for every sequence in order the
  -- frames of its LEDs and UPDT, and nothing else, and is ready again; the sequences and what is typed
  -- stay as they are.
  pub play_loops-Sends :
      (n : ℕ) (qs : List Sequence) (c : Console S T)
      → Ready rows columns c.server
      → All (IsPlayable columns) qs
      → Sends c
          (play_loops server (pos n) (some (closed (map stored qs))) c)
          tt
          (play_bytes rows columns qs n)
  unfolding play_loops
  play_loops-Sends n qs c r h = play-Sends n true qs c r h
