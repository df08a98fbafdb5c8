-- ===== src/Examples.antt =====
-- A small network, grid and state of both programs, on which the theorems are tried.
mod OutputRuns
mod ServerRuns
mod GridRuns
mod PictureRuns
mod JsonRuns
mod InputRuns
mod SessionRuns
mod StartRuns
use ledcontroller.Prelude.{
  ℕ, zero, suc, ◌<◌, ◌≡◌, refl, inr, List, [], ◌∷◌, ◌++◌, Option, none, some, arith, pos, length,
  take, drop, replicate, ap, true, false,
}
use ledcontroller.Led.{Rgb, Address, AddressableLed, black}
use ledcontroller.Network.{Network, received, ev_wr}
use ledcontroller.Network.Links.{IsStream, IsWritable}
use ledcontroller.Grid.{Grid}
use ledcontroller.Grid.Valid.{IsGrid}
use ledcontroller.Grid.Init.{HasMemory}
use ledcontroller.Output.{Output, Setup}
use ledcontroller.Output.Valid.{IsOutput}
use ledcontroller.Server.{Server}
use ledcontroller.Server.Invariant.{IsServer}
use ledcontroller.Prelude
use ledcontroller.Led

-- What is left to read, and what was written.
abbrev pub World : Type 0
World = List ℕ × List ℕ

-- One connection, number 1, that can always be written.
abbrev pub loop : Network World
loop = record {
  stack_init = λ w. w;
  stack_tick = λ w. (w, (ev_wr, 1) ∷ []);
  vde_create = λ w path name mac. (w, some 7);
  link_add = λ w handle address mask. w;
  socket_open = λ w. (w, some 1);
  socket_bind = λ w socket address port. (w, pos 0);
  socket_listen = λ w socket backlog. (w, pos 0);
  socket_connect = λ w socket address port. (w, pos 0);
  socket_accept = λ w socket. (w, some 2);
  socket_read = λ w socket count. ((drop count w.0, w.1), received (take count w.0));
  socket_write = λ w socket bytes. ((w.0, w.1 ++ bytes), pos (length bytes));
  socket_close = λ w socket. w;
  string_to_ipv4 = λ text. some 1;
  short_be = λ n. n;
}

take-append : (xs ys : List ℕ) → take (length xs) (xs ++ ys) ≡ xs
take-append [] [] = refl
take-append [] (y ∷ ys) = refl
take-append (x ∷ xs) ys = ap (λ rest. x ∷ rest) (take-append xs ys)

drop-append : (xs ys : List ℕ) → drop (length xs) (xs ++ ys) ≡ ys
drop-append [] [] = refl
drop-append [] (y ∷ ys) = refl
drop-append (x ∷ xs) ys = drop-append xs ys

pub loop-IsStream : (socket : ℕ) → IsStream loop socket (λ w. w.0)
loop-IsStream socket = record {
  read_some = λ w bytes rest e. (
    (drop (length bytes) w.0, w.1),
    rw (e, take-append bytes rest) refl,
    rw e (drop-append bytes rest),
  );
}

pub loop-IsWritable : IsWritable loop (λ w. Unit) (λ w. w.1) 1
loop-IsWritable = record {
  delay = λ w. 0;
  delay_bound = λ w up. omega arith;
  tick_step = λ w up. inr (w, 1, refl, tt, refl);
  write_all = λ w socket bytes up. ((w.0, w.1 ++ bytes), refl, tt, refl);
}

abbrev pub memory : ℕ → Option (List Rgb)
memory n = some (replicate n black)

length-replicate-black : (n : ℕ) → length (replicate n black) ≡ n
length-replicate-black zero = refl
length-replicate-black (suc n) = ap (λ m. suc m) (length-replicate-black n)

pub memory-HasMemory : HasMemory memory
memory-HasMemory n = (replicate n black, refl, length-replicate-black n)

abbrev pub red : Rgb
red = record { red = 255; green = 0; blue = 0 }

-- Two rows of three LEDs.
abbrev pub small_grid : Grid
small_grid = record {
  input = [];
  screen = [];
  row_length = 2;
  column_length = 3;
  number_of_leds = 6;
  output_grid = some (replicate 6 black);
}

pub small_grid-IsGrid : IsGrid small_grid
small_grid-IsGrid = record {
  rows = omega arith;
  columns = omega arith;
  fits = omega arith;
  count = refl;
  block = refl;
  size = refl;
}

abbrev pub output_with : List ℕ → Output World Grid
output_with bytes = record {
  world = (bytes, []);
  device = small_grid;
  led_socket = some 1;
  my_ipv4_addr = 0;
  port = 7777;
  read_buffer = replicate 10 0;
  write_buffer = replicate 10 0;
  bytes_to_write = 0;
  is_socket_opened = true;
}

pub output_with-IsOutput : (bytes : List ℕ) → IsOutput IsGrid (output_with bytes)
output_with-IsOutput bytes = record {
  ready = small_grid-IsGrid;
  read_size = refl;
  write_size = refl;
  queued = omega arith;
}

-- setupNetwork that finds its device.
abbrev pub network_setup : World → ℕ → Setup World
network_setup w address = record { world = w; address = 1; result = Led.CommError.success }

abbrev pub server_with : List ℕ → Server World
server_with bytes = record {
  world = (bytes, []);
  input = [];
  number_of_rows = 2;
  number_of_columns = 3;
  output_socket = some 1;
  vde_device = some 7;
  dest_ipv4_addr = 1;
  ipv4_addr = 2;
  net_mask = 3;
  port = 7777;
  response_from_output = false;
  is_communication_initialized = true;
  is_socket_opened = true;
  read_buffer = replicate 10 0;
  write_buffer = replicate 10 0;
  bytes_to_write = 0;
}

pub server_with-IsServer : (bytes : List ℕ) → IsServer (server_with bytes)
server_with-IsServer bytes = record { read_size = refl; write_size = refl; queued = omega arith }

abbrev pub led_at : ℕ → ℕ → AddressableLed
led_at row column = record { address = record { row = row; column = column }; led_value = red }
