-- ===== src/Link/Reading.antt =====
-- Output/LEDConsoleOut.c: read events on a stream of messages.
use mathlib.Core.List.{append_assoc}
use ledcontroller.Prelude.{ℕ, ◌≡◌, refl, ap, ◌∙◌, Bool, List, [], ◌∷◌, ◌++◌, length, replicate}
use ledcontroller.Led.{Rgb}
use ledcontroller.Wire.Messages.{
  Message, ask_size, update, reset_all, set_led, text, payload, frame, IsReadable,
}
use ledcontroller.Network.{Network, ev_rd}
use ledcontroller.Network.Links.{IsStream}
use ledcontroller.Run.{done, continue, each}
use ledcontroller.Device.{Device, IsFrame}
use ledcontroller.Output.{Output}
use ledcontroller.Output.Routine.{led_communication}
use ledcontroller.Output.Routine.Events.{read_event}
use ledcontroller.Output.Valid.{IsOutput}
use ledcontroller.Output.Commands.{Delivers, process_socket_reading-Obeys}
use ledcontroller.Link.{frames, apply_all}

-- Messages that the receiver reads back, whatever its `char`.
abbrev pub AllReadable : Bool → List Message → Type 0
AllReadable signed [] = Unit
AllReadable signed (m ∷ ms) = IsReadable signed m × AllReadable signed ms

-- A stream that begins with a message delivers it.
module _ {W : Type 0} (net : Network W) (socket : ℕ) {pending : W → List ℕ}
    (stream : IsStream net socket pending) where
  open stream use {read_some}

  stream-Delivers :
      (m : Message) (w : W) (rest : List ℕ)
      → pending w ≡ frame m ++ rest
      → (w' : W) × Delivers net socket m w w' × (pending w' ≡ rest)
  stream-Delivers ask_size w rest e = read_some w (text ask_size) rest e
  stream-Delivers update w rest e = read_some w (text update) rest e
  stream-Delivers (reset_all rgb) w rest e =
      let (w1, first, after) =
        read_some w (text (reset_all rgb)) (payload (reset_all rgb) ++ rest) e in
      let (w2, second, after') = read_some w1 (payload (reset_all rgb)) rest after in
      (w2, (w1, first, second), after')
  stream-Delivers (set_led address rgb) w rest e =
      let (w1, first, after) =
        read_some w (text (set_led address rgb)) (payload (set_led address rgb) ++ rest) e in
      let (w2, second, after') = read_some w1 (payload (set_led address rgb)) rest after in
      (w2, (w1, first, second), after')

module _ {W D : Type 0} (net : Network W) (device : Device D) (signed : Bool) {IsReady : D → Type 0}
    {leds : D → List Rgb} (frame_of : IsFrame device IsReady leds) (socket : ℕ)
    {pending : W → List ℕ} (stream : IsStream net socket pending) where
  -- One read event obeys the first message of the stream.
  read_event-Obeys :
      (m : Message) (s : Output W D) (rest : List ℕ)
      → IsReadable signed m
      → IsOutput IsReady s
      → pending s.world ≡ frame m ++ rest
      → (s' : Output W D) × (led_communication net device signed ev_rd socket s ≡ done tt s')
        × IsOutput IsReady s'
        × (leds s'.device ≡ apply_all (m ∷ []) (leds s.device))
        × (pending s'.world ≡ rest)
  read_event-Obeys m s rest readable v e =
      let (w', delivers, after) = stream-Delivers net socket stream m s.world rest e in
      let (s', runs, obeys) =
        process_socket_reading-Obeys net device signed frame_of socket s v w' m readable delivers in
      (
        s',
        read_event net device signed socket s s' runs,
        obeys.valid,
        obeys.shown,
        ap pending obeys.world ∙ after,
      )

  -- From a valid state, as many read events as there are messages at the head of the stream return
  -- and obey them all, in order: no LED changes but as the messages say, the state stays valid, and
  -- what follows is left unread. Where `char` is signed, the low byte of each SLED address must lie
  -- below 128.
  pub read_events-apply_all :
      (ms : List Message) (s : Output W D) (rest : List ℕ)
      → AllReadable signed ms
      → IsOutput IsReady s
      → pending s.world ≡ frames ms ++ rest
      → (s' : Output W D) × (each
            (λ (event, sender). led_communication net device signed event sender)
            (replicate (length ms) (ev_rd, socket))
            s
          ≡ done tt s')
        × IsOutput IsReady s'
        × (leds s'.device ≡ apply_all ms (leds s.device))
        × (pending s'.world ≡ rest)
  unfolding each
  read_events-apply_all [] s rest readable v e = (s, refl, v, refl, e)
  read_events-apply_all (m ∷ ms) s rest readable v e =
      let (s1, runs, v1, shown, after) =
        read_event-Obeys m s (frames ms ++ rest) readable.0 v
          (e ∙ append_assoc (frame m) (frames ms) rest) in
      let (s2, runs', v2, shown', after') = read_events-apply_all ms s1 rest readable.1 v1 after in
      (
        s2,
        ap (continue (λ _. each _ (replicate (length ms) (ev_rd, socket)))) runs ∙ runs',
        v2,
        shown' ∙ ap (apply_all ms) shown,
        after',
      )
