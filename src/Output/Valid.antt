-- ===== src/Output/Valid.antt =====
-- Output/LEDConsoleOut.c: what holds of the program's state once the device is initialised.
use ledcontroller.Prelude.{◌≤◌, ◌≡◌, length}
use ledcontroller.Output.{Output, max_read_size, max_write_size}

-- The device is ready, both buffers have their ten chars, and no more than that is queued.
pub record IsOutput {W D : Type 0} (IsReady : D → Type 0) (s : Output W D) : Type 0 where
  pub ready : IsReady s.device
  pub read_size : length s.read_buffer ≡ max_read_size
  pub write_size : length s.write_buffer ≡ max_write_size
  pub queued : s.bytes_to_write ≤ max_write_size
