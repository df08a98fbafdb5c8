-- ===== src/Output/Routine/Main.antt =====
-- Output/LEDConsoleOut.c: the whole program, from main to the last tick.
use ledcontroller.Prelude.{ℕ, ◌*◌, ◌^◌, ◌≤◌, ◌<◌, ◌≡◌, ◌≢◌, Bool, List, Option, length}
use ledcontroller.Led.{Rgb}
use ledcontroller.Network.{Network}
use ledcontroller.Run.{Outcome, done, exited, fault, waiting, ◌>>◌}
use ledcontroller.Run.Keeps.{Safe, Keeps, Keeps-bind}
use ledcontroller.Device.{Device, IsFrame}
use ledcontroller.Grid.{Grid, simulated}
use ledcontroller.Grid.Frame.{simulated-IsFrame}
use ledcontroller.Grid.Init.{Dialogue, HasMemory, init_led_grid_chosen}
use ledcontroller.Output.{Setup, Output, on_device}
use ledcontroller.Output.Routine.{at_exit, init, body, main, start_network_routine}
use ledcontroller.Output.Valid.{IsOutput}
use ledcontroller.Output.Invariant.{on_device-Keeps, print_total}
use ledcontroller.Output.Routine.Invariant.{start_network_routine-Keeps}

-- The statics as the loader leaves them: ten chars in each buffer, nothing queued.
pub record IsStart {W D : Type 0} (s : Output W D) : Type 0 where
  pub read_size : length s.read_buffer ≡ 10
  pub write_size : length s.write_buffer ≡ 10
  pub queued : s.bytes_to_write ≤ 10

module _ {W D : Type 0} (net : Network W) (device : Device D) (signed : Bool) {IsReady : D → Type 0}
    {leds : D → List Rgb} (frame : IsFrame device IsReady leds)
    (setup_network : W → ℕ → Setup W) where
  at_exit-ne-fault :
      (P : Output W D → Type 0) (o : Outcome (Output W D) (Unit {0}))
      → Safe P o
      → at_exit net device signed setup_network o ≢ fault
  unfolding at_exit
  at_exit-ne-fault P (done a s) h e = cc
  at_exit-ne-fault P (exited code s) h e = cc
  at_exit-ne-fault P fault h e = h
  at_exit-ne-fault P (waiting s) h e = cc

  -- What follows initLedGrid in main.
  rest-Keeps :
      (fuel : ℕ)
      → Keeps (IsOutput {W = W} IsReady) (
          on_device device.print_led_grid
          >> start_network_routine net device signed setup_network fuel)
  rest-Keeps fuel =
      Keeps-bind (on_device-Keeps net device signed frame _ (print_total net device signed frame))
        λ _. start_network_routine-Keeps net device signed frame setup_network fuel

  -- Once initLedGrid has returned a ready device, main never faults: for every number of ticks and
  -- whatever the network answers.
  pub main-ne-fault :
      (lines fuel : ℕ) (s : Output W D) (d : D)
      → IsStart s
      → device.init_led_grid lines s.device ≡ done tt d
      → IsReady d
      → main net device signed setup_network lines fuel s ≢ fault
  unfolding main body init
  main-ne-fault lines fuel s d start ran ready =
      at_exit-ne-fault (IsOutput IsReady) (body net device signed setup_network lines fuel s) (
        rw (ran, body, init)
          ((rest-Keeps fuel).at (record s { device = d })
            (record {
              ready = ready;
              read_size = start.read_size;
              write_size = start.write_size;
              queued = start.queued;
            })))

-- With the simulated grid, from the statics as loaded: if malloc finds memory and the console's
-- dialogue ends, after fewer lines than its fuel, with a size whose product an `int` holds, all its
-- numbers being in the range of an `unsigned short`, main never faults: it writes nothing outside
-- its two buffers of ten chars, asks the network for no more bytes than they hold and gives it no
-- more, and touches nothing outside the grid's block, for every number of ticks and whatever the
-- network answers.
pub main-simulated-ne-fault :
    {W : Type 0} (net : Network W) (signed : Bool) (setup_network : W → ℕ → Setup W)
    (malloc : ℕ → Option (List Rgb))
    → HasMemory malloc
    → (s : Output W Grid) (n r c : ℕ) (rest : List ℕ) (lines fuel : ℕ) → IsStart s
    → Dialogue 0 0 s.device.input n r c rest
    → n < lines
    → r * c < 2 ^ 31
    → main net (simulated malloc) signed setup_network lines fuel s ≢ fault
main-simulated-ne-fault net signed setup_network malloc memory s n r c rest lines fuel start d
      enough fits =
    let (g, ran, ready, _, _, _) =
      init_led_grid_chosen malloc memory s.device n r c rest lines d enough fits in
    main-ne-fault net (simulated malloc) signed (simulated-IsFrame malloc) setup_network lines fuel
      s g start ran ready
