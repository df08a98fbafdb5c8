-- ===== src/Link/Show.antt =====
-- The bytes of a session of Input/LEDInput.c, as messages for Output/LEDConsoleOut.c.
use mathlib.Core.List.{append_assoc}
use ledcontroller.Prelude.{ℕ, zero, suc, ◌≡◌, refl, sym, ap, ◌∙◌, Bool, List, [], ◌∷◌, ◌++◌}
use ledcontroller.Led.{Rgb}
use ledcontroller.Wire.Messages.{Message, frame, apply}
use ledcontroller.Wire.{update_text}
use ledcontroller.Server.Translate.Sending.{sequence_bytes}
use ledcontroller.Json.Store.Stored.{Sequence}
use ledcontroller.Input.Playing.{round_bytes, play_bytes}
use ledcontroller.Input.Requests.{Request, session_bytes}
use ledcontroller.Link.{frames, apply_all}
use ledcontroller.Link.Reading.{AllReadable}
use ledcontroller.Link.Sequence.{
  IsReadableSize, picture, messages, frames-messages, messages-AllReadable, messages-picture,
}

-- What the LEDs show after every sequence was played once, after several rounds, and after a
-- session.
abbrev pub round_picture : ℕ → ℕ → List Sequence → List Rgb → List Rgb
round_picture rows columns [] leds = leds
round_picture rows columns (q ∷ qs) leds =
    round_picture rows columns qs (picture rows columns q.leds leds)

abbrev pub play_picture : ℕ → ℕ → List Sequence → ℕ → List Rgb → List Rgb
play_picture rows columns qs zero leds = leds
play_picture rows columns qs (suc n) leds =
    play_picture rows columns qs n (round_picture rows columns qs leds)

abbrev pub session_picture : ℕ → ℕ → List Request → List Rgb → List Rgb
session_picture rows columns [] leds = leds
session_picture rows columns (r ∷ rs) leds =
    session_picture rows columns rs (play_picture rows columns (r.first ∷ r.later) r.rounds leds)

frames-append : (ms ms' : List Message) → frames (ms ++ ms') ≡ frames ms ++ frames ms'
frames-append [] ms' = refl
frames-append (m ∷ ms) ms' =
    ap (λ bytes. frame m ++ bytes) (frames-append ms ms')
    ∙ sym (append_assoc (frame m) (frames ms) (frames ms'))

AllReadable-append :
    (signed : Bool) (ms ms' : List Message)
    → AllReadable signed ms
    → AllReadable signed ms'
    → AllReadable signed (ms ++ ms')
AllReadable-append signed [] ms' h h' = h'
AllReadable-append signed (m ∷ ms) ms' h h' = (h.0, AllReadable-append signed ms ms' h.1 h')

apply_all-append :
    (ms ms' : List Message) (leds : List Rgb)
    → apply_all (ms ++ ms') leds ≡ apply_all ms' (apply_all ms leds)
apply_all-append [] ms' leds = refl
apply_all-append (m ∷ ms) ms' leds = apply_all-append ms ms' (apply m leds)

-- Messages that the receiver reads back, that have these bytes and that do this to the LEDs.
pub record Carries (signed : Bool) (ms : List Message) (bytes : List ℕ)
    (shows : List Rgb → List Rgb) : Type 0 where
  pub readable : AllReadable signed ms
  pub framed : frames ms ≡ bytes
  pub applied : (leds : List Rgb) → apply_all ms leds ≡ shows leds

module _ (signed : Bool) where
  Carries-append :
      (ms ms' : List Message) (bytes bytes' : List ℕ) (shows shows' : List Rgb → List Rgb)
      → Carries signed ms bytes shows
      → Carries signed ms' bytes' shows'
      → Carries signed (ms ++ ms') (bytes ++ bytes') (λ leds. shows' (shows leds))
  Carries-append ms ms' bytes bytes' shows shows' h h' = record {
    readable = AllReadable-append signed ms ms' h.readable h'.readable;
    framed = frames-append ms ms' ∙ rw (h.framed, h'.framed) refl;
    applied = λ leds.
        apply_all-append ms ms' leds
        ∙ ap (apply_all ms') (h.applied leds)
        ∙ h'.applied (shows leds);
  }

  Carries-nothing : Carries signed [] [] (λ leds. leds)
  Carries-nothing = record { readable = tt; framed = refl; applied = λ leds. refl }

  module _ (rows columns : ℕ) (size : IsReadableSize signed rows columns) where
    round-Carries :
        (qs : List Sequence)
        → (ms : List Message) × Carries signed ms
            (round_bytes rows columns qs)
            (round_picture rows columns qs)
    round-Carries [] = ([], Carries-nothing)
    round-Carries (q ∷ qs) =
        let (ms, h) = round-Carries qs in
        let one : Carries signed (messages rows columns q.leds)
            (sequence_bytes rows columns q.leds ++ update_text) (picture rows columns q.leds) =
          record {
            readable = messages-AllReadable signed rows columns size q.leds;
            framed = frames-messages rows columns q.leds;
            applied = messages-picture signed rows columns size q.leds;
          } in
        (messages rows columns q.leds ++ ms, Carries-append _ ms _ _ _ _ one h)

    play-Carries :
        (qs : List Sequence) (n : ℕ)
        → (ms : List Message) × Carries signed ms
            (play_bytes rows columns qs n)
            (play_picture rows columns qs n)
    play-Carries qs zero = ([], Carries-nothing)
    play-Carries qs (suc n) =
        let (ms, h) = round-Carries qs in
        let (ms', h') = play-Carries qs n in (ms ++ ms', Carries-append ms ms' _ _ _ _ h h')

    pub session-Carries :
        (rs : List Request)
        → (ms : List Message) × Carries signed ms
            (session_bytes rows columns rs)
            (session_picture rows columns rs)
    session-Carries [] = ([], Carries-nothing)
    session-Carries (r ∷ rs) =
        let (ms, h) = play-Carries (r.first ∷ r.later) r.rounds in
        let (ms', h') = session-Carries rs in (ms ++ ms', Carries-append ms ms' _ _ _ _ h h')
