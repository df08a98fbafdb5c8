-- ===== src/Server/Translate/Drain.antt =====
-- Server/LEDServer.c: the waits of translateToOutput.
use mathlib.Core.List.{append-nil}
use ledcontroller.Prelude.{
  ℕ, zero, suc, ◌≤◌, ◌<◌, ◌≡◌, refl, sym, ◌∙◌, Bool, ◌⊎◌, inl, inr, List, ◌++◌, arith, ltb, lt→ltb,
  length, take, set, length-set,
}
use ledcontroller.Network.{Network}
use ledcontroller.Network.Links.{IsWritable}
use ledcontroller.Run.{done, wait_while}
use ledcontroller.Server.{Server, tick}
use ledcontroller.Server.Ticks.{sent_out, tick-idle, tick-write}
use ledcontroller.Server.Translate.{drain}

zero_or_pos : (n : ℕ) → (n ≡ 0) ⊎ (0 < n)
zero_or_pos zero = inl refl
zero_or_pos (suc n) = inr (omega arith)

module _ {W : Type 0} (net : Network W) (signed : Bool) {Up : W → Type 0} {sent : W → List ℕ}
    {bound : ℕ} (link : IsWritable net Up sent bound) where
  open link use {delay, delay_bound, tick_step, write_all}

  -- An empty queue ends the wait at once.
  drain_empty :
      (ticks : ℕ) (s : Server W)
      → s.bytes_to_write ≡ 0
      → wait_while ticks (λ t. ltb 0 t.bytes_to_write) (tick net signed) s ≡ done tt s
  unfolding wait_while
  drain_empty zero s e = rw e
  drain_empty (suc ticks) s e = rw e

  -- The wait on the queue ends, within any fuel above the link's delay, with the queue written.
  drain_lem :
      (ticks : ℕ) (s : Server W)
      → Up s.world
      → 0 < s.bytes_to_write
      → s.bytes_to_write ≤ length s.write_buffer
      → delay s.world < ticks
      → (world : W) × (wait_while ticks (λ t. ltb 0 t.bytes_to_write) (tick net signed) s
          ≡ done tt (sent_out s world (set s.write_buffer 0 0)))
        × Up world
        × (sent world ≡ sent s.world ++ take s.bytes_to_write s.write_buffer)
  unfolding wait_while
  drain_lem zero s up some_queued fits enough = absurd (omega arith)
  drain_lem (suc ticks) s up some_queued fits enough = elim (tick_step s.world up) [
    | inl (world, idle, up', same, less) ↦
        let (world', runs, up'', sends) =
          drain_lem ticks (record s { world = world }) up' some_queued fits (omega arith) in
        (
          world',
          rw (lt→ltb 0 s.bytes_to_write some_queued, tick-idle net signed s world idle) runs,
          up'',
          rw same at sends,
        )
    | inr (world, socket, ready, up', same) ↦
        let (world', writes, up'', sends) =
          write_all world socket (take s.bytes_to_write s.write_buffer) up' in
        (
          world',
          rw
              (
                lt→ltb 0 s.bytes_to_write some_queued,
                tick-write net signed s world world' socket ready some_queued fits writes,
              )
              (drain_empty ticks (sent_out s world' (set s.write_buffer 0 0)) refl),
          up'',
          rw same at sends,
        )
  ]

  -- A wait with any queue: what was queued is written, and the queue is empty.
  pub drain-sent :
      (ticks : ℕ) (s : Server W)
      → Up s.world
      → s.bytes_to_write ≤ length s.write_buffer
      → bound ≤ ticks
      → (world : W) × (buffer : List ℕ) × (drain net signed ticks s
          ≡ done tt (sent_out s world buffer))
        × Up world
        × (length buffer ≡ length s.write_buffer)
        × (sent world ≡ sent s.world ++ take s.bytes_to_write s.write_buffer)
  unfolding drain
  drain-sent ticks s up fits enough = elim (zero_or_pos s.bytes_to_write) [
    | inl none_queued ↦ (
      s.world,
      s.write_buffer,
      drain_empty ticks s none_queued ∙ rw none_queued,
      up,
      refl,
      rw none_queued (sym (append-nil (sent s.world))),
    )
    | inr some_queued ↦
        let (world, runs, up', sends) =
          drain_lem ticks s up some_queued fits (omega (arith, delay_bound s.world up)) in
        (world, set s.write_buffer 0 0, runs, up', length-set s.write_buffer 0 0, sends)
  ]
