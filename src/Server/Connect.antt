-- ===== src/Server/Connect.antt =====
-- Server/LEDServer.c: opening and closing the connection, and the dialogue about its address.
-- Fuel counts the ticks of one wait, or the lines asked of the console.
pub mod Overflow
pub mod Types
pub mod Joining
pub mod Closing
pub mod Starting
use ledcontroller.Prelude.{
  ℕ, zero, suc, Bool, true, false, not, List, [], ◌∷◌, ◌++◌, Option, none, some, leb, ◌||◌, ◌==◌,
  if◌then◌else◌, length, copy, is_not_zero,
}
use ledcontroller.Led.{CommError}
use ledcontroller.Wire.{size_text}
use ledcontroller.Network.{Network}
use ledcontroller.Run.{
  done, exited, fault, waiting, Run, gets, modify, ◌>>=◌, ◌>>◌, when, wait_while,
}
use ledcontroller.Stdin.{fgets, is_empty_line, s_hu_in_range, sscanf_s_hu}
use ledcontroller.Server.{Server, tick}
use mathlib.Core.Option

-- "10.42.0.5", "255.255.255.0" and "10.42.0.10"
abbrev own_address : List ℕ
own_address = 49 ∷ 48 ∷ 46 ∷ 52 ∷ 50 ∷ 46 ∷ 48 ∷ 46 ∷ 53 ∷ []

abbrev own_mask : List ℕ
own_mask = 50 ∷ 53 ∷ 53 ∷ 46 ∷ 50 ∷ 53 ∷ 53 ∷ 46 ∷ 50 ∷ 53 ∷ 53 ∷ 46 ∷ 48 ∷ []

abbrev pub default_address : List ℕ
default_address = 49 ∷ 48 ∷ 46 ∷ 52 ∷ 50 ∷ 46 ∷ 48 ∷ 46 ∷ 49 ∷ 48 ∷ []

-- "/tmp/led0.ctl" and "led0"
abbrev vde_path : List ℕ
vde_path =
    b'/' ∷ b't' ∷ b'm' ∷ b'p' ∷ b'/' ∷ b'l' ∷ b'e' ∷ b'd' ∷ b'0' ∷ b'.' ∷ b'c' ∷ b't' ∷ b'l' ∷ []

abbrev vde_name : List ℕ
vde_name = b'l' ∷ b'e' ∷ b'd' ∷ b'0' ∷ []

abbrev mac_addr : List ℕ
mac_addr = 0x02 ∷ 0x00 ∷ 0xaa ∷ 0xbb ∷ 0xcc ∷ 0xdd ∷ []

module _ {W : Type 0} (net : Network W) (signed : Bool) where
  create_device : Run (Server W) (Unit {0})
  create_device s =
      let (world', device) = net.vde_create s.world vde_path vde_name mac_addr in
      let s' = record s { world = world'; vde_device = device } in
      elim device [
        | none ↦ exited CommError.device_cannot_create s'
        | some handle ↦ done tt (record s' {
          world = net.link_add world' handle s.ipv4_addr s.net_mask;
          is_communication_initialized = true;
        })
      ]

  -- An address text that cannot be read leaves the address.
  init_communication : Run (Server W) (Unit {0})
  unfolding create_device
  init_communication = do
    modify λ s. record s {
      ipv4_addr = Option.get_or (net.string_to_ipv4 own_address) s.ipv4_addr;
      net_mask = Option.get_or (net.string_to_ipv4 own_mask) s.net_mask;
      world = net.stack_init s.world;
    }
    create_device

  open_socket : Run (Server W) ℕ
  open_socket s =
      let (world', socket) = net.socket_open s.world in
      let s' = record s { world = world'; output_socket = socket } in
      elim socket [ none ↦ exited CommError.socket_cannot_open s' | some handle ↦ done handle s' ]

  connect : ℕ → Run (Server W) (Unit {0})
  connect socket s =
      let (world', ret) = net.socket_connect s.world socket s.dest_ipv4_addr s.port in
      let s' = record s { world = world' } in
      if is_not_zero ret then exited CommError.socket_cannot_connect s' else done tt s'

  pub connect_to_output : ℕ → Run (Server W) (Unit {0})
  unfolding init_communication open_socket connect
  connect_to_output ticks = do
    initialized ← gets (λ s. s.is_communication_initialized)
    when (not initialized) init_communication
    socket ← open_socket
    connect socket
    wait_while ticks (λ s. not s.is_socket_opened) (tick net signed)

  pub server_close : ℕ → Run (Server W) (Unit {0})
  server_close ticks = do
    modify λ s. record s {
      world = elim s.output_socket [
        | none ↦ s.world
        | some socket ↦ net.socket_close s.world socket
      ];
    }
    wait_while ticks (λ s. s.is_socket_opened) (tick net signed)

  -- What the loop of getOutputInformations ends with: `0 != pico_string_to_ipv4(userIpAddress,
  -- &tempAddr) || 0 == userPort` is false.
  chosen : List ℕ → ℕ → Option (ℕ × ℕ)
  chosen address port = elim (net.string_to_ipv4 address) [
    | none ↦ none
    | some number ↦ if port == 0 then none else some (number, port)
  ]

  -- One line of the dialogue: the new userIpAddress and userPort. The array userIpAddress has 16
  -- chars; a longer word is written past its end, which is undefined, as is a number that the
  -- port's `unsigned short` does not hold.
  answer : List ℕ → List ℕ → ℕ → Option (List ℕ × ℕ)
  answer line address port =
      let (address', port') = sscanf_s_hu line address port in
      if is_empty_line line
      then some (default_address, 7777)
      else if leb 16 (length address') || not (s_hu_in_range line)
      then none
      else some (address', port')

  -- The loop, with the local variables userInput, userIpAddress and userPort.
  ask : ℕ → Option (List ℕ) → List ℕ → ℕ → Run (Server W) (ℕ × ℕ)
  unfolding chosen answer
  ask zero buffer address port s = elim (chosen address port) [
    | none ↦ waiting s
    | some found ↦ done found s
  ]
  ask (suc lines) buffer address port s = elim (chosen address port) [
    | none ↦
        let (buffer', rest) = fgets s.input buffer in
        elim buffer' [
          | none ↦ fault
          | some line ↦ (elim (answer line address port) [
            | none ↦ fault
            | some (address', port') ↦
                ask lines (some line) address' port' (record s { input = rest })
          ])
        ]
    | some found ↦ done found s
  ]

  size_queued : Option (List ℕ) → Run (Server W) (Unit {0})
  size_queued none s = fault
  size_queued (some buffer) s = done tt (record s { write_buffer = buffer; bytes_to_write = 4 })

  -- What is asked, and of whom; strcpy past the write buffer is undefined.
  queue_size : ℕ → ℕ → Run (Server W) (Unit {0})
  unfolding size_queued
  queue_size address port s = size_queued (copy s.write_buffer (size_text ++ 0 ∷ [])) (record s {
    port = net.short_be port;
    dest_ipv4_addr = address;
    response_from_output = false;
  })

  pub get_output_informations : ℕ → ℕ → Run (Server W) (Unit {0})
  unfolding ask queue_size
  get_output_informations lines ticks = do
    (address, port) ← ask lines none [] 0
    queue_size address port
    connect_to_output ticks
    wait_while ticks (λ s. not s.response_from_output) (tick net signed)
