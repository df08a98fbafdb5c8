-- ===== src/Examples/ServerRuns.antt =====
-- The theorems on the server, at concrete runs.
use mathlib.Core.Option
use ledcontroller.Prelude.{
  ◌<◌, replicate, ℕ, zero, suc, ap, ◌≤◌, ◌≡◌, refl, inl, inr, true, List, [], ◌∷◌, ◌++◌, some,
  arith, pos, length, take, All,
}
use ledcontroller.Led.{AddressableLed}
use ledcontroller.Wire.{update_text, low_byte}
use ledcontroller.Network.{Network, Recv, failed, received, ev_wr}
use ledcontroller.Network.Links.{IsChar, ReadsChars}
use ledcontroller.Server.Types.{IsTyped}
use ledcontroller.Server.Connect.Types.{connect_to_output-IsTyped}
use ledcontroller.Run.{done}
use ledcontroller.Run.Keeps.{Safe}
use ledcontroller.Output.Commands.{sized, size_reply-sized}
use ledcontroller.Server.{
  Server, row_size, column_size, process_socket_reading, output_communication,
}
use ledcontroller.Server.Invariant.{IsServer, output_communication-IsServer}
use ledcontroller.Server.Size.{process_socket_reading-size}
use ledcontroller.Server.Translate.{prepare, translate_to_output}
use ledcontroller.Server.Translate.Frames.{frame_or_nothing, message_for, prepare-frame}
use ledcontroller.Server.Translate.Sending.{HasPlaces, sequence_bytes, translate_to_output-sent}
use ledcontroller.Run.{fault}
use ledcontroller.Server.Connect.{connect_to_output, server_close, get_output_informations}
use ledcontroller.Server.Connect.Overflow.{get_output_informations_overflow}
use ledcontroller.Examples.{
  World, loop, loop-IsStream, loop-IsWritable, server_with, server_with-IsServer, led_at,
}

-- What the output program sends for a grid of 300 rows and 20 columns.
abbrev size_answer : List ℕ
size_answer = take 8 (sized (replicate 10 0) 300 20)

process_socket_reading-size_example :
    (s : Server World) × (process_socket_reading loop true 1 (server_with (size_answer ++ 9 ∷ []))
      ≡ done (pos 0) s)
    × IsServer s
    × (row_size s ≡ 300)
    × (column_size s ≡ 20)
    × (s.response_from_output ≡ true)
    × (s.world.0 ≡ 9 ∷ [])
unfolding low_byte
process_socket_reading-size_example =
    process_socket_reading-size loop true 1 (loop-IsStream 1) (server_with (size_answer ++ 9 ∷ []))
      300 20 (replicate 10 0) (sized (replicate 10 0) 300 20) (9 ∷ [])
      (server_with-IsServer (size_answer ++ 9 ∷ [])) refl
      (size_reply-sized (replicate 10 0) 300 20 refl) (omega arith, inr (omega arith))
      (omega arith, inr (omega arith)) refl

output_communication-IsServer_example :
    Safe IsServer (output_communication loop true ev_wr 1 (server_with []))
output_communication-IsServer_example =
    output_communication-IsServer loop true ev_wr 1 (server_with []) (server_with-IsServer [])

prepare-frame_example :
    (buffer : List ℕ) × (count : ℕ) × (prepare (led_at 1 2) (server_with [])
      ≡ some (record (server_with []) { write_buffer = buffer; bytes_to_write = count }))
    × (length buffer ≡ 10)
    × (count ≤ 10)
    × (take count buffer ≡ frame_or_nothing (message_for 2 3 (led_at 1 2)))
prepare-frame_example = prepare-frame (led_at 1 2) (server_with []) refl refl (inr (omega arith))

abbrev sample : List AddressableLed
sample = led_at 1 2 ∷ led_at 65535 65535 ∷ led_at 9 9 ∷ []

sample-HasPlaces : HasPlaces 3 sample
sample-HasPlaces zero led at =
    rw (← ap (λ found. Option.get_or found (led_at 0 0)) at) (inr (omega arith))
sample-HasPlaces (suc zero) led at =
    rw (← ap (λ found. Option.get_or found (led_at 0 0)) at) (inl refl)
sample-HasPlaces (suc (suc zero)) led at =
    rw (← ap (λ found. Option.get_or found (led_at 0 0)) at) (inr (omega arith))
sample-HasPlaces (suc (suc (suc index))) led at = cc

translate_to_output-sent_example :
    (world : World) × (buffer : List ℕ) × (translate_to_output loop true 1 sample 3 (server_with [])
      ≡ done tt
          (record (server_with []) { world = world; write_buffer = buffer; bytes_to_write = 0 }))
    × Unit {0}
    × (length buffer ≡ 10)
    × (world.1 ≡ [] ++ (sequence_bytes 2 3 sample ++ update_text))
translate_to_output-sent_example =
    translate_to_output-sent loop true loop-IsWritable 1 (omega arith) sample 3 (server_with [])
      (omega arith) refl tt refl refl sample-HasPlaces

twenty_above : (n : ℕ) → All (λ c. 32 < c) (replicate n 49)
twenty_above zero = tt
twenty_above (suc n) = (omega arith, twenty_above n)

-- Twenty times the digit 1.
get_output_informations_overflow_example :
    get_output_informations loop true 3 5
      (record (server_with []) { input = replicate 20 49 ++ 10 ∷ [] })
    ≡ fault
get_output_informations_overflow_example =
    get_output_informations_overflow loop true (replicate 20 49) [] 2 5
      (record (server_with []) { input = replicate 20 49 ++ 10 ∷ [] }) refl (twenty_above 20)
      (omega arith) (omega arith)

-- The same network, where every read gives the same char.
abbrev chatty : Network World
chatty = record loop { socket_read = λ w socket count. (w, received (replicate count 83)) }

replicate-IsChar : (n : ℕ) → All IsChar (replicate n 83)
replicate-IsChar zero = tt
replicate-IsChar (suc n) = (omega arith, replicate-IsChar n)

abbrev bytes_of : Recv → List ℕ
bytes_of (failed n) = []
bytes_of (received bytes) = bytes

chatty-ReadsChars : ReadsChars chatty
chatty-ReadsChars = record {
  read_chars = λ w socket count bytes e. rw (← ap bytes_of e) (replicate-IsChar count);
}

server_with-IsTyped : IsTyped (server_with [])
server_with-IsTyped = record {
  rows_word = omega arith;
  columns_word = omega arith;
  port_word = omega arith;
  read_chars = ground arith;
  read_size = refl;
  write_chars = ground arith;
  write_size = refl;
  queued = omega arith;
}

connect_to_output-IsTyped_example :
    Safe IsTyped (connect_to_output chatty true 3 (server_with []))
    × Safe IsTyped (server_close chatty true 3 (server_with []))
connect_to_output-IsTyped_example =
    connect_to_output-IsTyped chatty true chatty-ReadsChars 3 (server_with []) server_with-IsTyped
