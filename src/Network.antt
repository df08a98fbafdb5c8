-- ===== src/Network.antt =====
-- The picoTCP stack and its VDE device (MainLib/lib and MainLib/modules, linked as binaries): what
-- the two programs call of it, as a parameter. `W` is the state of the stack and of the world
-- behind it. Sockets, devices and IPv4 addresses are the numbers of handles.
pub mod Links
pub mod Handshake
use ledcontroller.Prelude.{
  ℕ, ℤ, pos, negsuc, Bool, not, ◌==◌, bit_and, List, Option, length, overwrite, length-overwrite,
  ◌≡◌, refl,
}

-- What pico_socket_read gives: a negative result, or the bytes that it copied.
pub data Recv : Type 0 where
  failed : ℕ → Recv
  received : List ℕ → Recv

-- The `int` that it returns.
abbrev pub bytes_read : Recv → ℤ
bytes_read (failed n) = negsuc n
bytes_read (received bytes) = pos (length bytes)

-- A buffer after a read into it.
abbrev pub stored : Recv → List ℕ → List ℕ
stored (failed n) buffer = buffer
stored (received bytes) buffer = overwrite buffer bytes

pub length-stored : (got : Recv) (buffer : List ℕ) → length (stored got buffer) ≡ length buffer
length-stored (failed n) buffer = refl
length-stored (received bytes) buffer = length-overwrite buffer bytes

pub record Network (W : Type 0) : Type 0 where
  pub stack_init : W → W
  -- One pico_stack_tick: the callbacks that it makes, as event sets with their socket, in order.
  pub stack_tick : W → W × List (ℕ × ℕ)
  -- The control socket, the name and the MAC address of the device.
  pub vde_create : W → List ℕ → List ℕ → List ℕ → W × Option ℕ
  pub link_add : W → ℕ → ℕ → ℕ → W
  pub socket_open : W → W × Option ℕ
  pub socket_bind : W → ℕ → ℕ → ℕ → W × ℤ
  pub socket_listen : W → ℕ → ℕ → W × ℤ
  pub socket_connect : W → ℕ → ℕ → ℕ → W × ℤ
  pub socket_accept : W → ℕ → W × Option ℕ
  pub socket_read : W → ℕ → ℕ → W × Recv
  pub socket_write : W → ℕ → List ℕ → W × ℤ
  pub socket_close : W → ℕ → W
  pub string_to_ipv4 : List ℕ → Option ℕ
  pub short_be : ℕ → ℕ

-- PICO_SOCK_EV_*: an event set is a word with one bit for each.
abbrev pub ev_rd : ℕ
ev_rd = 1

abbrev pub ev_wr : ℕ
ev_wr = 2

abbrev pub ev_conn : ℕ
ev_conn = 4

abbrev pub ev_close : ℕ
ev_close = 8

abbrev pub ev_fin : ℕ
ev_fin = 16

abbrev pub ev_err : ℕ
ev_err = 128

-- The C condition `event & flag`.
unfoldable pub has : ℕ → ℕ → Bool
has event flag = not (bit_and event flag == 0)
