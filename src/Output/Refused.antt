-- ===== src/Output/Refused.antt =====
-- processSocketReading where no message of the protocol arrives.
use ledcontroller.Prelude.{ℕ, ◌≡◌, ◌≢◌, ◌∙◌, Bool, [], ◌∷◌, arith, pos, length}
use ledcontroller.Wire.{command, size_text, reset_text, set_text, update_text}
use ledcontroller.Wire.Commands.{IsByte, command_texts, command-injective}
use ledcontroller.Network.{Network, received}
use ledcontroller.Run.{done}
use ledcontroller.Device.{Device}
use ledcontroller.Output.{Output, dispatch, process_socket_reading}
use ledcontroller.Output.Switch.{after_text, process-dispatch}

module _ {W D : Type 0} (net : Network W) (device : Device D) (signed : Bool) (sender : ℕ)
    (s : Output W D) (w1 : W) where
  module _ (b0 b1 b2 b3 : ℕ) (bytes : IsByte b0 × IsByte b1 × IsByte b2 × IsByte b3) where
    other_word :
        (t0 t1 t2 t3 : ℕ)
        → IsByte t0 × IsByte t1 × IsByte t2 × IsByte t3
        → b0 ∷ b1 ∷ b2 ∷ b3 ∷ [] ≢ t0 ∷ t1 ∷ t2 ∷ t3 ∷ []
        → command signed b0 b1 b2 b3 ≢ command signed t0 t1 t2 t3
    other_word t0 t1 t2 t3 texts differ same =
        let (e0, e1, e2, e3) = command-injective signed b0 b1 b2 b3 t0 t1 t2 t3 bytes texts same in
        differ (cc)

    -- Four bytes that are none of the four texts, read into a buffer of ten chars: the result is 1,
    -- and only the stack and the read buffer change.
    pub process_socket_reading_unknown :
        net.socket_read s.world sender 4 ≡ (w1, received (b0 ∷ b1 ∷ b2 ∷ b3 ∷ []))
        → length s.read_buffer ≡ 10
        → b0 ∷ b1 ∷ b2 ∷ b3 ∷ [] ≢ size_text
        → b0 ∷ b1 ∷ b2 ∷ b3 ∷ [] ≢ reset_text
        → b0 ∷ b1 ∷ b2 ∷ b3 ∷ [] ≢ set_text
        → b0 ∷ b1 ∷ b2 ∷ b3 ∷ [] ≢ update_text
        → process_socket_reading net device signed sender s
          ≡ done (pos 1) (record s {
            world = w1;
            read_buffer = after_text (b0 ∷ b1 ∷ b2 ∷ b3 ∷ []) s.read_buffer;
          })
    process_socket_reading_unknown read ten not_size not_reset not_set not_update =
        process-dispatch net device signed sender b0 b1 b2 b3 s w1 ten read
        ∙ unfold dispatch in
          ground (
            arith,
            command_texts signed,
            other_word 0x53 0x49 0x5A 0x45 (omega arith) not_size,
            other_word 0x52 0x53 0x45 0x54 (omega arith) not_reset,
            other_word 0x53 0x4C 0x45 0x44 (omega arith) not_set,
            other_word 0x55 0x50 0x44 0x54 (omega arith) not_update,
          )
