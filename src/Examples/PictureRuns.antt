-- ===== src/Examples/PictureRuns.antt =====
-- The theorems on both programs together, and on the strip, at concrete runs.
use mathlib.Core.Option
use ledcontroller.Prelude.{
  ℕ, zero, suc, ap, ◌≡◌, refl, inl, inr, true, List, [], ◌∷◌, ◌++◌, none, arith, length, replicate,
}
use ledcontroller.Led.{AddressableLed, black}
use ledcontroller.Wire.{update_text}
use ledcontroller.Network.{ev_rd}
use ledcontroller.Run.{done, each}
use ledcontroller.Device.{IsFrame}
use ledcontroller.Grid.{Grid, simulated}
use ledcontroller.Grid.Valid.{IsGrid, leds_of}
use ledcontroller.Grid.Frame.{simulated-IsFrame}
use ledcontroller.Server.Translate.{translate_to_output}
use ledcontroller.Server.Translate.Sending.{HasPlaces, sequence_bytes, translate_to_output-sent}
use ledcontroller.Output.{Output}
use ledcontroller.Output.Routine.{led_communication}
use ledcontroller.Output.Valid.{IsOutput}
use ledcontroller.Link.Picture.{translate_to_output-picture}
use ledcontroller.Input.{cycle_leds}
use ledcontroller.Input.Cycling.{lit, cycle_leds-lit}
use ledcontroller.Link.Sequence.{picture}
use ledcontroller.Strip.{strip}
use ledcontroller.Strip.Missing.{strip-no-IsFrame}
use ledcontroller.Examples.{
  World, loop, loop-IsStream, loop-IsWritable, memory, red, output_with, output_with-IsOutput,
  server_with, led_at,
}

abbrev sample : List AddressableLed
sample = led_at 1 2 ∷ led_at 65535 65535 ∷ led_at 9 9 ∷ []

sample-HasPlaces : HasPlaces 3 sample
sample-HasPlaces zero led at =
    rw (← ap (λ found. Option.get_or found (led_at 0 0)) at) (inr (omega arith))
sample-HasPlaces (suc zero) led at =
    rw (← ap (λ found. Option.get_or found (led_at 0 0)) at) (inl refl)
sample-HasPlaces (suc (suc zero)) led at =
    rw (← ap (λ found. Option.get_or found (led_at 0 0)) at) (inr (omega arith))
sample-HasPlaces (suc (suc (suc index))) led at = cc

abbrev sample_bytes : List ℕ
sample_bytes = sequence_bytes 2 3 sample ++ update_text

sent_sample :
    (world : World) × (buffer : List ℕ) × (translate_to_output loop true 1 sample 3 (server_with [])
      ≡ done tt
          (record (server_with []) { world = world; write_buffer = buffer; bytes_to_write = 0 }))
    × Unit {0}
    × (length buffer ≡ 10)
    × (world.1 ≡ [] ++ (sequence_bytes 2 3 sample ++ update_text))
sent_sample =
    translate_to_output-sent loop true loop-IsWritable 1 (omega arith) sample 3 (server_with [])
      (omega arith) refl tt refl refl sample-HasPlaces

translate_to_output-picture_example :
    (events : ℕ) × (o : Output World Grid) × (each
        (λ (event, sender). led_communication loop (simulated memory) true event sender)
        (replicate events (ev_rd, 1))
        (output_with sample_bytes)
      ≡ done tt o)
    × IsOutput IsGrid o
    × (leds_of o.device ≡ replicate 6 red)
    × (o.world.0 ≡ [])
translate_to_output-picture_example =
    translate_to_output-picture loop true loop-IsWritable 1 (omega arith) loop (simulated memory)
      true (simulated-IsFrame memory) 1 (loop-IsStream 1) sample 3 (server_with [])
      (record (server_with []) {
        world = sent_sample.0;
        write_buffer = sent_sample.1;
        bytes_to_write = 0;
      })
      (output_with sample_bytes) (omega arith) refl tt refl refl sample-HasPlaces
      (omega arith, inr (omega arith)) sent_sample.2 (output_with-IsOutput sample_bytes)
      sent_sample.5

strip-no-IsFrame_example : ¬ IsFrame (strip (λ n. none)) (λ s. Unit {0}) (λ s. replicate 300 black)
strip-no-IsFrame_example =
    strip-no-IsFrame (λ n. none) (λ s. Unit {0}) (λ s. replicate 300 black)
      (record { output_grid = none; buffer_size = 0 }) tt

cycle_leds-lit_example : picture 2 5 (cycle_leds 5) (lit 4) ≡ lit 5
cycle_leds-lit_example = cycle_leds-lit 5 (omega arith)
