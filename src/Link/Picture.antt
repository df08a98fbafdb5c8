-- ===== src/Link/Picture.antt =====
-- From a call of translateToOutput in the one program to the LEDs of the other.
use ledcontroller.Prelude.{
  ℕ, ◌≤◌, ◌≡◌, refl, sym, ap, ◌∙◌, Bool, true, List, [], ◌∷◌, ◌++◌, length, replicate, take, drop,
}
use ledcontroller.Led.{Rgb, AddressableLed}
use ledcontroller.Wire.{update_text}
use ledcontroller.Network.{Network, ev_rd}
use ledcontroller.Network.Links.{IsStream, IsWritable}
use ledcontroller.Run.{Outcome, done, each}
use ledcontroller.Device.{Device, IsFrame}
use ledcontroller.Server.{Server}
use ledcontroller.Server.Translate.{translate_to_output}
use ledcontroller.Server.Translate.Sending.{HasPlaces, sequence_bytes, translate_to_output-sent}
use ledcontroller.Output.{Output}
use ledcontroller.Output.Routine.{led_communication}
use ledcontroller.Output.Valid.{IsOutput}
use ledcontroller.Link.Sequence.{IsReadableSize, picture, messages, sequence-picture}

drop-append : (xs ys : List ℕ) → drop (length xs) (xs ++ ys) ≡ ys
drop-append [] [] = refl
drop-append [] (y ∷ ys) = refl
drop-append (x ∷ xs) ys = drop-append xs ys

-- The world of a state that a run returned.
abbrev world_or : {W : Type 0} → W → Outcome (Server W) (Unit {0}) → W
world_or w (done a s) = s.world
world_or w _ = w

module _ {S W D : Type 0} (net : Network S) (signed : Bool) {Up : S → Type 0} {sent : S → List ℕ}
    {bound : ℕ} (link : IsWritable net Up sent bound) (ticks : ℕ) (enough : bound ≤ ticks)
    (output_net : Network W) (device : Device D) (output_signed : Bool) {IsReady : D → Type 0}
    {leds : D → List Rgb} (frame_of : IsFrame device IsReady leds) (socket : ℕ)
    {pending : W → List ℕ} (stream : IsStream output_net socket pending) where
  -- Let `translateToOutput` of the server return from a call with the first `count` LEDs of a
  -- sequence, on an open connection that takes what is written, with an empty queue, a write buffer
  -- of ten chars and places that an `int` holds. If what it wrote is what an output program in a
  -- valid state has to read, then that program, in finitely many read events, reads all of it and
  -- shows the sequence, for the size of the grid that the server knows: at most 65536 LEDs, and at
  -- most 128 if the output's `char` is signed. Its state stays valid.
  pub translate_to_output-picture :
      (sequence : List AddressableLed) (count : ℕ) (s s' : Server S) (o : Output W D)
      → count ≤ length sequence
      → s.is_socket_opened ≡ true
      → Up s.world
      → length s.write_buffer ≡ 10
      → s.bytes_to_write ≡ 0
      → HasPlaces s.number_of_columns sequence
      → IsReadableSize output_signed s.number_of_rows s.number_of_columns
      → translate_to_output net signed ticks sequence count s ≡ done tt s'
      → IsOutput IsReady o
      → sent s'.world ≡ sent s.world ++ pending o.world
      → (events : ℕ) × (o' : Output W D) × (each
            (λ (event, sender). led_communication output_net device output_signed event sender)
            (replicate events (ev_rd, socket))
            o
          ≡ done tt o')
        × IsOutput IsReady o'
        × (leds o'.device
            ≡ picture s.number_of_rows s.number_of_columns (take count sequence) (leds o.device))
        × (pending o'.world ≡ [])
  translate_to_output-picture sequence count s s' o fits opened up ten empty places size returns v
        carried =
      let (world, buffer, runs, _, _, sends) =
        translate_to_output-sent net signed link ticks enough sequence count s fits opened up ten
          empty places in
      let same : s'.world ≡ world = ap (world_or world) (sym returns ∙ runs) in
      let bytes =
        sequence_bytes s.number_of_rows s.number_of_columns (take count sequence) ++ update_text in
      let all : pending o.world ≡ bytes =
        sym (drop-append (sent s.world) (pending o.world))
        ∙ ap (drop (length (sent s.world))) (sym carried ∙ ap sent same ∙ sends)
        ∙ drop-append (sent s.world) bytes in
      let (o', runs', v', shown, after) =
        sequence-picture output_signed s.number_of_rows s.number_of_columns size output_net device
          frame_of socket stream (take count sequence) o v all in
      (
        length (messages s.number_of_rows s.number_of_columns (take count sequence)),
        o',
        runs',
        v',
        shown,
        after,
      )
