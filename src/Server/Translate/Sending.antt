-- ===== src/Server/Translate/Sending.antt =====
-- Server/LEDServer.c: what translateToOutput writes to the stack.
use mathlib.Core.List.{append-nil, append_assoc}
use ledcontroller.Prelude.{
  ℕ, zero, suc, ◌+◌, ◌≤◌, ◌≡◌, refl, sym, ap, ◌∙◌, Bool, true, not, List, [], ◌∷◌, ◌++◌, some,
  arith, length, take, get_elem?, drop, drop_step,
}
use ledcontroller.Led.{AddressableLed}
use ledcontroller.Wire.{update_text}
use ledcontroller.Network.{Network}
use ledcontroller.Network.Links.{IsWritable}
use ledcontroller.Run.{done, Run, continue, ◌>>◌, >>-done, when-false}
use ledcontroller.Server.{Server}
use ledcontroller.Server.Connect.{connect_to_output}
use ledcontroller.Server.Translate.{
  queued, prepared, queue_update, drain, prepare_led, send_leds, translate_to_output,
}
use ledcontroller.Server.Translate.Frames.{
  message_for, frame_or_nothing, HasPlace, prepare-frame, with_text, length-with_text,
  copy_text-with_text,
}
use ledcontroller.Server.Ticks.{sent_out}
use ledcontroller.Server.Translate.Drain.{drain-sent}

take-update :
    (buffer : List ℕ) → length buffer ≡ 10 → take 4 (with_text buffer update_text) ≡ update_text
take-update (a ∷ b ∷ c ∷ d ∷ rest) ten = refl
take-update _ ten = absurd (omega arith)

-- What a sequence puts on the wire, for a grid of that size.
abbrev pub sequence_bytes : ℕ → ℕ → List AddressableLed → List ℕ
sequence_bytes rows columns [] = []
sequence_bytes rows columns (led ∷ rest) =
    frame_or_nothing (message_for rows columns led) ++ sequence_bytes rows columns rest

-- Every LED of the sequence has a place that an `int` holds, on a grid of that many columns.
abbrev pub HasPlaces : ℕ → List AddressableLed → Type 0
HasPlaces columns sequence =
    (index : ℕ) (led : AddressableLed) → get_elem? sequence index ≡ some led → HasPlace columns led

module _ {W : Type 0} (net : Network W) (signed : Bool) {Up : W → Type 0} {sent : W → List ℕ}
    {bound : ℕ} (link : IsWritable net Up sent bound) (ticks : ℕ) (enough : bound ≤ ticks)
    (sequence : List AddressableLed) where
  send_one :
      (index : ℕ) (led : AddressableLed) (s : Server W)
      → get_elem? sequence index ≡ some led
      → Up s.world
      → length s.write_buffer ≡ 10
      → s.bytes_to_write ≡ 0
      → HasPlaces s.number_of_columns sequence
      → (world : W) × (buffer : List ℕ) × ((prepare_led net signed ticks sequence index
              >> drain net signed ticks)
            s
          ≡ done tt (sent_out s world buffer))
        × Up world
        × (length buffer ≡ 10)
        × (sent world
            ≡ sent s.world
              ++ frame_or_nothing (message_for s.number_of_rows s.number_of_columns led))
  unfolding prepare_led
  send_one index led s at up ten empty places =
      let (queue, count, prepares, size, few, framed) =
        prepare-frame led s ten empty (places index led at) in
      let queued : Server W = record s { write_buffer = queue; bytes_to_write = count } in
      let (world, buffer, runs, up', size', sends) =
        drain-sent net signed link ticks queued up (omega (arith, size, few)) enough in
      (
        world,
        buffer,
        rw (at, prepares, prepare_led) runs,
        up',
        size' ∙ size,
        sends ∙ ap (λ bytes. sent s.world ++ bytes) framed,
      )

  queue_update-done :
      (s : Server W)
      → length s.write_buffer ≡ 10
      → queue_update net signed ticks s
        ≡ done tt
            (record s { write_buffer = with_text s.write_buffer update_text; bytes_to_write = 4 })
  unfolding queue_update queued prepared
  queue_update-done s ten =
      rw (copy_text-with_text s.write_buffer update_text (omega (arith, ten))) refl

  send_leds-sent :
      (left index : ℕ) (s : Server W)
      → index + left ≤ length sequence
      → Up s.world
      → length s.write_buffer ≡ 10
      → s.bytes_to_write ≡ 0
      → HasPlaces s.number_of_columns sequence
      → (world : W) × (buffer : List ℕ) × (send_leds net signed ticks sequence left index s
          ≡ done tt (sent_out s world buffer))
        × Up world
        × (length buffer ≡ 10)
        × (sent world
            ≡ sent s.world
              ++ sequence_bytes s.number_of_rows s.number_of_columns
                  (take left (drop index sequence)))
  unfolding send_leds
  send_leds-sent zero index s fits up ten empty places =
      (s.world, s.write_buffer, rw empty, up, ten, sym (append-nil (sent s.world)))
  send_leds-sent (suc left) index s fits up ten empty places =
      let (led, at, suffix) = drop_step sequence index (omega arith) in
      let (world, buffer, runs, up', ten', sends) = send_one index led s at up ten empty places in
      let (world', buffer', runs', up'', ten'', sends') =
        send_leds-sent left (suc index) (sent_out s world buffer) (omega arith) up' ten' refl
          places in
      let later =
        sequence_bytes s.number_of_rows s.number_of_columns
          (take left (drop (suc index) sequence)) in
      (
        world',
        buffer',
        >>-done (prepare_led net signed ticks sequence index) (drain net signed ticks)
              (send_leds net signed ticks sequence left (suc index)) s (sent_out s world buffer)
              runs
            ∙ runs',
        up'',
        ten'',
        rw suffix
            (sends' ∙ ap (λ bytes. bytes ++ later) sends ∙ append_assoc (sent s.world) _ later),
      )

  -- On an open connection that takes what is written and lets fewer ticks than the fuel of a wait
  -- pass without a write, with an empty queue, a write buffer of ten chars and places that an `int`
  -- holds, `translateToOutput` returns. It has written the frames of the sequence's first `count`
  -- LEDs for the known size of the grid, in order, then UPDT, and nothing else; the connection is
  -- up and the queue empty again.
  pub translate_to_output-sent :
      (count : ℕ) (s : Server W)
      → count ≤ length sequence
      → s.is_socket_opened ≡ true
      → Up s.world
      → length s.write_buffer ≡ 10
      → s.bytes_to_write ≡ 0
      → HasPlaces s.number_of_columns sequence
      → (world : W) × (buffer : List ℕ) × (translate_to_output net signed ticks sequence count s
          ≡ done tt (sent_out s world buffer))
        × Up world
        × (length buffer ≡ 10)
        × (sent world
            ≡ sent s.world
              ++ (sequence_bytes s.number_of_rows s.number_of_columns (take count sequence)
                  ++ update_text))
  unfolding translate_to_output
  translate_to_output-sent count s fits opened up ten empty places =
      let (world, buffer, runs, up', ten', sends) =
        send_leds-sent count 0 s (omega arith) up ten empty places in
      let queued : Server W = record s {
        world = world;
        write_buffer = with_text buffer update_text;
        bytes_to_write = 4;
      } in
      let size : length (with_text buffer update_text) ≡ 10 =
        length-with_text buffer update_text ∙ ten' in
      let (world', buffer', runs', up'', ten'', sends') =
        drain-sent net signed link ticks queued up' (omega (arith, size)) enough in
      (
        world',
        buffer',
        ap (continue (λ _. send_leds net signed ticks sequence count 0 >> finish)) (
              when-false (not s.is_socket_opened) (connect_to_output net signed ticks) s
                (rw opened))
            ∙ ap (continue (λ _. finish)) runs
            ∙ ap (continue (λ _. drain net signed ticks))
                (queue_update-done (sent_out s world buffer) ten')
            ∙ runs',
        up'',
        ten'' ∙ size,
        sends'
            ∙ ap (λ bytes. bytes ++ take 4 (with_text buffer update_text)) sends
            ∙ append_assoc (sent s.world) bytes (take 4 (with_text buffer update_text))
            ∙ ap (λ text. sent s.world ++ (bytes ++ text)) (take-update buffer ten'),
      )
    where
      finish : Run (Server W) (Unit {0})
      finish = do queue_update net signed ticks; drain net signed ticks

      bytes : List ℕ
      bytes = sequence_bytes s.number_of_rows s.number_of_columns (take count sequence)
