-- ===== src/Output/Routine/Events.antt =====
-- ledCommunication on a single event.
use ledcontroller.Prelude.{ℕ, ◌≡◌, Bool, pos}
use ledcontroller.Network.{Network, ev_rd, has}
use ledcontroller.Run.{done}
use ledcontroller.Device.{Device}
use ledcontroller.Output.{Output, process_socket_reading}
use ledcontroller.Output.Routine.{led_communication}

-- A read event alone runs `processSocketReading` and nothing else.
pub read_event :
    {W D : Type 0} (net : Network W) (device : Device D) (signed : Bool) (sender : ℕ)
    (s s' : Output W D)
    → process_socket_reading net device signed sender s ≡ done (pos 0) s'
    → led_communication net device signed ev_rd sender s ≡ done tt s'
unfolding led_communication has
read_event net device signed sender s s' e = rw e
