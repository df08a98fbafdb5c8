-- ===== src/Examples/OutputRuns.antt =====
-- The theorems on the output program, at concrete runs.
use ledcontroller.Prelude.{
  ℕ, ap, get_or, ◌+◌, ◌%◌, ◌^◌, ◌≡◌, ◌≢◌, refl, inr, true, List, [], ◌∷◌, ◌++◌, none, some, arith,
  pos, length, replicate,
}
use ledcontroller.Led.{black}
use ledcontroller.Wire.{update_text, high_byte, low_byte, read_u16}
use ledcontroller.Wire.Words.{read_u16-split}
use ledcontroller.Wire.Commands.{command-injective}
use ledcontroller.Wire.Messages.{update, reset_all, set_led, frame}
use ledcontroller.Network.{ev_rd}
use ledcontroller.Run.{done, fault, each}
use ledcontroller.Run.Keeps.{Safe}
use ledcontroller.Grid.{Grid, simulated}
use ledcontroller.Grid.Valid.{IsGrid, leds_of}
use ledcontroller.Grid.Frame.{simulated-IsFrame}
use ledcontroller.Grid.Init.{Dialogue, typed}
use ledcontroller.Stdin.{fgets, is_empty_line, hu_hu_in_range, sscanf_hu_hu}
use ledcontroller.Output.{Output, init_rgb_list_to, process_socket_reading}
use ledcontroller.Output.Valid.{IsOutput}
use ledcontroller.Output.Switch.{after_text, init_rgb_list_to-replicate}
use ledcontroller.Output.Commands.{
  Processed, process_socket_reading-Obeys, process_socket_reading_misread,
}
use ledcontroller.Output.Refused.{process_socket_reading_unknown}
use ledcontroller.Output.Routine.{led_communication, main}
use ledcontroller.Output.Routine.Invariant.{led_communication-IsOutput}
use ledcontroller.Output.Routine.Main.{main-simulated-ne-fault}
use ledcontroller.Server.Translate.Sending.{sequence_bytes}
use ledcontroller.Link.{frames}
use ledcontroller.Link.Reading.{read_events-apply_all}
use ledcontroller.Link.Sequence.{messages, sequence-picture}
use ledcontroller.Examples.{
  World, loop, loop-IsStream, memory, memory-HasMemory, red, small_grid, small_grid-IsGrid,
  output_with, output_with-IsOutput, network_setup, led_at,
}

-- SLED for the LED with number 4, on a machine with a signed `char`.
process_socket_reading-Obeys_example :
    Processed loop
      (simulated memory)
      true
      (simulated-IsFrame memory)
      1
      (output_with (frame (set_led 4 red)))
      (output_with-IsOutput (frame (set_led 4 red)))
      ([], [])
      (set_led 4 red)
unfolding low_byte
process_socket_reading-Obeys_example =
    process_socket_reading-Obeys loop (simulated memory) true (simulated-IsFrame memory) 1
      (output_with (frame (set_led 4 red))) (output_with-IsOutput (frame (set_led 4 red))) ([], [])
      (set_led 4 red) (omega arith, inr (omega arith))
      ((high_byte 4 ∷ low_byte 4 ∷ 255 ∷ 0 ∷ 0 ∷ [], []), refl, refl)

-- SLED for the LED with number 200 on such a machine.
process_socket_reading_misread_example :
    Processed loop
      (simulated memory)
      true
      (simulated-IsFrame memory)
      1
      (output_with (frame (set_led 200 red)))
      (output_with-IsOutput (frame (set_led 200 red)))
      ([], [])
      (set_led ((200 + 65280) % 2 ^ 16) red)
unfolding low_byte
process_socket_reading_misread_example =
    process_socket_reading_misread loop (simulated memory) (simulated-IsFrame memory) 1
      (output_with (frame (set_led 200 red))) (output_with-IsOutput (frame (set_led 200 red)))
      ([], []) 200 red (omega arith) (omega arith)
      ((high_byte 200 ∷ low_byte 200 ∷ 255 ∷ 0 ∷ 0 ∷ [], []), refl, refl)

-- Four bytes "STOP".
process_socket_reading_unknown_example :
    process_socket_reading loop
      (simulated memory)
      true
      1
      (output_with (0x53 ∷ 0x54 ∷ 0x4F ∷ 0x50 ∷ []))
    ≡ done (pos 1) (record (output_with []) {
      read_buffer = after_text (0x53 ∷ 0x54 ∷ 0x4F ∷ 0x50 ∷ []) (replicate 10 0);
    })
process_socket_reading_unknown_example =
    process_socket_reading_unknown loop (simulated memory) true 1
      (output_with (0x53 ∷ 0x54 ∷ 0x4F ∷ 0x50 ∷ [])) ([], []) 0x53 0x54 0x4F 0x50 (omega arith) refl
      refl (λ e. omega (arith, ap (λ bytes. get_or bytes 1 0) e))
      (λ e. omega (arith, ap (λ bytes. get_or bytes 0 0) e))
      (λ e. omega (arith, ap (λ bytes. get_or bytes 1 0) e))
      (λ e. omega (arith, ap (λ bytes. get_or bytes 0 0) e))

init_rgb_list_to-replicate_example :
    (g : Grid) × (init_rgb_list_to (simulated memory) red small_grid ≡ some g)
    × IsGrid g
    × (leds_of g ≡ replicate 6 red)
    × (g.row_length ≡ 2)
    × (g.column_length ≡ 3)
init_rgb_list_to-replicate_example =
    init_rgb_list_to-replicate (simulated memory) (simulated-IsFrame memory) red small_grid
      small_grid-IsGrid

led_communication-IsOutput_example :
    Safe
      (IsOutput IsGrid)
      (led_communication loop (simulated memory) true ev_rd 1 (output_with (frame (reset_all red))))
led_communication-IsOutput_example =
    led_communication-IsOutput loop (simulated memory) true (simulated-IsFrame memory) ev_rd 1
      (output_with (frame (reset_all red))) (output_with-IsOutput (frame (reset_all red)))

read_events-apply_all_example :
    (s : Output World Grid) × (each
        (λ (event, sender). led_communication loop (simulated memory) true event sender)
        (replicate 2 (ev_rd, 1))
        (output_with (frames (reset_all red ∷ update ∷ []) ++ 7 ∷ []))
      ≡ done tt s)
    × IsOutput IsGrid s
    × (leds_of s.device ≡ replicate 6 red)
    × (s.world.0 ≡ 7 ∷ [])
read_events-apply_all_example =
    read_events-apply_all loop (simulated memory) true (simulated-IsFrame memory) 1
      (loop-IsStream 1) (reset_all red ∷ update ∷ [])
      (output_with (frames (reset_all red ∷ update ∷ []) ++ 7 ∷ [])) (7 ∷ []) (tt, (tt, tt))
      (output_with-IsOutput (frames (reset_all red ∷ update ∷ []) ++ 7 ∷ [])) refl

-- One LED on the grid, and one that lies off it.
abbrev sample_bytes : List ℕ
sample_bytes = sequence_bytes 2 3 (led_at 1 2 ∷ led_at 9 9 ∷ []) ++ update_text

sequence-picture_example :
    (s : Output World Grid) × (each
        (λ (event, sender). led_communication loop (simulated memory) true event sender)
        (replicate (length (messages 2 3 (led_at 1 2 ∷ led_at 9 9 ∷ []))) (ev_rd, 1))
        (output_with sample_bytes)
      ≡ done tt s)
    × IsOutput IsGrid s
    × (leds_of s.device ≡ replicate 5 black ++ red ∷ [])
    × (s.world.0 ≡ [])
sequence-picture_example =
    sequence-picture true 2 3 (omega arith, inr (omega arith)) loop (simulated memory)
      (simulated-IsFrame memory) 1 (loop-IsStream 1) (led_at 1 2 ∷ led_at 9 9 ∷ [])
      (output_with sample_bytes) (output_with-IsOutput sample_bytes) refl

-- A console on which "2 3" is typed.
abbrev asked : Output World Grid
asked = record (output_with (frame update)) {
  device = record small_grid { input = 0x32 ∷ 0x20 ∷ 0x33 ∷ 10 ∷ []; output_grid = none };
}

asked-Dialogue : Dialogue 0 0 (0x32 ∷ 0x20 ∷ 0x33 ∷ 10 ∷ []) 1 2 3 []
unfolding fgets is_empty_line hu_hu_in_range sscanf_hu_hu
asked-Dialogue =
    typed (0x32 ∷ 0x20 ∷ 0x33 ∷ 10 ∷ []) [] 2 3 refl refl refl refl (omega arith) (omega arith)

main-simulated-ne-fault_example : main loop (simulated memory) true network_setup 2 8 asked ≢ fault
main-simulated-ne-fault_example =
    main-simulated-ne-fault loop true network_setup memory memory-HasMemory asked 1 2 3 [] 2 8
      (record { read_size = refl; write_size = refl; queued = omega arith }) asked-Dialogue
      (omega arith) (omega arith)

read_u16-split_example : read_u16 true (high_byte 300) (low_byte 300) ≡ 300
unfolding low_byte
read_u16-split_example = read_u16-split true 300 (omega arith) (inr (omega arith))

command-injective_example :
    (◌≡◌ {A = ℕ} 200 200) × (◌≡◌ {A = ℕ} 1 1) × (◌≡◌ {A = ℕ} 2 2) × (◌≡◌ {A = ℕ} 255 255)
command-injective_example =
    command-injective true 200 1 2 255 200 1 2 255 (omega arith) (omega arith) refl
