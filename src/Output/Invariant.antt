-- ===== src/Output/Invariant.antt =====
-- Output/LEDConsoleOut.c: the invariant of the statics, under processSocketReading.
use ledcontroller.Prelude.{
  is_not_positive, ◌≤◌, leb, true, length, put-set, ℕ, ◌≡◌, ◌∙◌, Bool, List, Option, some, arith,
  pos, is_negative, length-set, ◌==◌,
}
use ledcontroller.Led.{Rgb, led_size, led_reset, led_set, led_update}
use ledcontroller.Wire.{read_u16}
use ledcontroller.Network.{Network, length-stored}
use ledcontroller.Run.Keeps.{Safe-holds, Keeps, Keeps-pure, Keeps-gets, Keeps-if, Keeps-bind}
use ledcontroller.Device.{Device, IsFrame}
use ledcontroller.Output.{
  Output, receive, end_text, ended_text, queue_reply, on_device, answer_size, init_rgb_list_to,
  rgb_at, byte_at, command_in, answer_reset, answer_set, answer_update, dispatch,
  process_socket_reading,
}
use ledcontroller.Output.Valid.{IsOutput}
use ledcontroller.Output.Switch.{init_rgb_list_to-replicate}
use ledcontroller.Output.Commands.{length-sized, size_reply-sized}

module _ {W D : Type 0} (net : Network W) (device : Device D) (signed : Bool) {IsReady : D → Type 0}
    {leds : D → List Rgb} (frame : IsFrame device IsReady leds) where
  abbrev pub Valid : Output W D → Type 0
  Valid = IsOutput IsReady

  receive-Keeps :
      (sender count : ℕ) → count ≤ 10 → Keeps Valid (receive net device signed sender count)
  unfolding receive
  receive-Keeps sender count fits = record {
    at = λ s v. Safe-holds Valid (leb count (length s.read_buffer)) _ _ (in_range fits v) (record {
      ready = v.ready;
      read_size =
          length-stored (net.socket_read s.world sender count).1 s.read_buffer ∙ v.read_size;
      write_size = v.write_size;
      queued = v.queued;
    });
  }
    where
      in_range : {s : Output W D} → count ≤ 10 → Valid s → leb count (length s.read_buffer) ≡ true
      in_range fits v = let ten = v.read_size in ground arith

  pub on_device-Keeps :
      (f : D → Option D)
      → ((d : D) → IsReady d → (d' : D) × (f d ≡ some d') × IsReady d')
      → Keeps Valid (on_device f)
  unfolding on_device
  on_device-Keeps f total = record {
    at = λ s v.
        let (d', e, r) = total s.device v.ready in
        rw (e, on_device)
          (record {
            ready = r;
            read_size = v.read_size;
            write_size = v.write_size;
            queued = v.queued;
          });
  }

  answer_size-Keeps : Keeps Valid (answer_size net device signed)
  unfolding answer_size queue_reply
  answer_size-Keeps = record {
    at = λ s v.
        let rows = device.row_length s.device in
        let columns = device.column_length s.device in
        rw (size_reply-sized s.write_buffer rows columns v.write_size) (record {
          ready = v.ready;
          read_size = v.read_size;
          write_size = length-sized s.write_buffer rows columns ∙ v.write_size;
          queued = omega arith;
        });
  }

  end_text-Keeps : Keeps Valid (end_text net device signed)
  unfolding end_text ended_text
  end_text-Keeps = record {
    at = λ s v.
        let ten = v.read_size in
        rw (put-set s.read_buffer 4 0 (omega (arith, ten))) (record {
          ready = v.ready;
          read_size = length-set s.read_buffer 4 0 ∙ v.read_size;
          write_size = v.write_size;
          queued = v.queued;
        });
  }

  reset_total :
      (rgb : Rgb) (d : D)
      → IsReady d
      → (d' : D) × (init_rgb_list_to device rgb d ≡ some d') × IsReady d'
  reset_total rgb d r =
      let (d', e, r', _, _, _) = init_rgb_list_to-replicate device frame rgb d r in (d', e, r')

  set_total :
      (address : ℕ) (rgb : Rgb) (d : D)
      → IsReady d
      → (d' : D) × (device.set_led address rgb d ≡ some d') × IsReady d'
  set_total address rgb d r =
      let (d', e, r', _, _, _) = frame.set_ready address rgb d r in (d', e, r')

  pub print_total :
      (d : D) → IsReady d → (d' : D) × (device.print_led_grid d ≡ some d') × IsReady d'
  print_total d r = let (d', e, r', _, _, _) = frame.print_ready d r in (d', e, r')

  answer_reset-Keeps : (sender : ℕ) → Keeps Valid (answer_reset net device signed sender)
  unfolding answer_reset
  answer_reset-Keeps sender = Keeps-bind (receive-Keeps sender 3 (omega arith)) λ bytes.
      Keeps-bind (Keeps-gets (λ s. rgb_at s 0 1 2)) λ rgb.
        Keeps-if (is_negative bytes) (Keeps-pure bytes)
          (Keeps-bind (on_device-Keeps _ (reset_total rgb)) λ _. Keeps-pure (pos 0))

  answer_set-Keeps : (sender : ℕ) → Keeps Valid (answer_set net device signed sender)
  unfolding answer_set
  answer_set-Keeps sender = Keeps-bind (receive-Keeps sender 5 (omega arith)) λ bytes.
      Keeps-bind (Keeps-gets (λ s. read_u16 signed (byte_at s 0) (byte_at s 1))) λ address.
        Keeps-bind (Keeps-gets (λ s. rgb_at s 2 3 4)) λ rgb.
          Keeps-if (is_negative bytes) (Keeps-pure bytes)
            (Keeps-bind (on_device-Keeps _ (set_total address rgb)) λ _. Keeps-pure (pos 0))

  answer_update-Keeps : Keeps Valid (answer_update net device signed)
  unfolding answer_update
  answer_update-Keeps = Keeps-bind (on_device-Keeps _ print_total) λ _. Keeps-pure (pos 0)

  dispatch-Keeps : (sender word : ℕ) → Keeps Valid (dispatch net device signed sender word)
  unfolding dispatch
  dispatch-Keeps sender word = Keeps-if (word == led_size) answer_size-Keeps (
      Keeps-if (word == led_reset) (answer_reset-Keeps sender) (
        Keeps-if (word == led_set) (answer_set-Keeps sender)
          (Keeps-if (word == led_update) answer_update-Keeps (Keeps-pure (pos 1)))))

  pub process_socket_reading-Keeps :
      (sender : ℕ) → Keeps Valid (process_socket_reading net device signed sender)
  unfolding process_socket_reading
  process_socket_reading-Keeps sender = Keeps-bind (receive-Keeps sender 4 (omega arith)) λ bytes.
      Keeps-if (is_not_positive bytes) (Keeps-pure bytes) (
        Keeps-bind end_text-Keeps
          λ _. Keeps-bind (Keeps-gets (command_in signed)) λ word. dispatch-Keeps sender word)
