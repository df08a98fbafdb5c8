-- ===== src/Input/Pauses.antt =====
-- Input/LEDInput.c: the pauses between sequences that are too long.
use ledcontroller.Prelude.{
  ℕ, suc, ◌*◌, ◌^◌, ◌<◌, ◌≡◌, refl, ap, ◌∙◌, true, false, List, ◌∷◌, map, some, pos, arith, leb,
}
use ledcontroller.Led.{Cell, holds, LedSequence}
use ledcontroller.Run.{fault, continue}
use ledcontroller.Server.Translate.Sending.{HasPlaces}
use ledcontroller.Json.Store.Arrays.{closed}
use ledcontroller.Json.Store.Stored.{Sequence, stored}
use ledcontroller.Input.Console.{Console}
use ledcontroller.Input.Files.{pause, play_round, play, play_loops}
use ledcontroller.Input.Playing.{led_list-pointers, translate-Sends}
use ledcontroller.Server.Header.{LedServer, Translates}

module _ {S T : Type 0} (server : LedServer S) {Ready : ℕ → ℕ → S → Type 0} {sent : S → List ℕ}
    (law : Translates server Ready sent) (rows columns : ℕ) where
  overflow :
      (q : Sequence) (later : List (Cell LedSequence)) (c : Console S T)
      → 2147 < q.delay
      → play_round server false (holds (stored q) ∷ later) c ≡ fault
  unfolding play_round pause
  overflow q later c long =
      let wide : leb (2 ^ 31) (q.delay * 1000000) ≡ true = ground arith in rw wide refl

  second-overflow :
      (q next : Sequence) (later : List (Cell LedSequence)) (c : Console S T)
      → Ready rows columns c.server
      → HasPlaces columns q.leds
      → 2147 < next.delay
      → play_round server true (holds (stored q) ∷ holds (stored next) ∷ later) c ≡ fault
  unfolding play_round pause
  second-overflow q next later c r places long =
      let (s', runs, r', sends) = translate-Sends server law rows columns q.leds c r places in
      rw (led_list-pointers q.leds) (
        ap (continue (λ _. play_round server false (holds (stored next) ∷ later))) runs
        ∙ overflow next later (record c { server = s' }) long)

  -- Where translateToOutput keeps to its contract and the server is ready, a second sequence with a delay of more than 2147 milliseconds is never
  -- played: after the first sequence the nanoseconds of the pause, an int product, overflow, which
  -- is undefined.
  pub play_loops-overflow :
      (n : ℕ) (q next : Sequence) (qs : List Sequence) (c : Console S T)
      → Ready rows columns c.server
      → HasPlaces columns q.leds
      → 2147 < next.delay
      → play_loops server (pos (suc n)) (some (closed (map stored (q ∷ next ∷ qs)))) c ≡ fault
  unfolding play_loops play
  play_loops-overflow n q next qs c r places long =
      ap (continue (λ first. play server n first (closed (map stored (q ∷ next ∷ qs)))))
        (second-overflow q next (closed (map stored qs)) c r places long)
