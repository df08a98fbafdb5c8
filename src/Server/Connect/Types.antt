-- ===== src/Server/Connect/Types.antt =====
-- Server/LEDServer.c: opening and closing the connection keeps the statics to their C types.
use mathlib.Core.Option
use ledcontroller.Prelude.{ℕ, Bool, not, is_not_zero}
use ledcontroller.Network.{Network}
use ledcontroller.Network.Links.{ReadsChars}
use ledcontroller.Run.{wait_while}
use ledcontroller.Run.Keeps.{
  Safe, Keeps, Keeps-gets, Keeps-when, Keeps-bind, Keeps-wait_while, Safe-if, Safe-option,
}
use ledcontroller.Server.{Server, tick}
use ledcontroller.Server.Types.{IsTyped, tick-IsTyped}
use ledcontroller.Server.Connect.{
  own_address, own_mask, vde_path, vde_name, mac_addr, create_device, init_communication,
  open_socket, connect, connect_to_output, server_close,
}

module _ {W : Type 0} (net : Network W) (signed : Bool) (chars : ReadsChars net) where
  create_device-IsTyped : Keeps IsTyped (create_device net signed)
  unfolding create_device
  create_device-IsTyped = record {
    at = λ s v.
        Safe-option IsTyped (net.vde_create s.world vde_path vde_name mac_addr).1 _ _ v λ handle. v;
  }

  init_communication-IsTyped : Keeps IsTyped (init_communication net signed)
  unfolding init_communication
  init_communication-IsTyped = record {
    at = λ s v.
        create_device-IsTyped.at
          (record s {
            ipv4_addr = Option.get_or (net.string_to_ipv4 own_address) s.ipv4_addr;
            net_mask = Option.get_or (net.string_to_ipv4 own_mask) s.net_mask;
            world = net.stack_init s.world;
          })
          v;
  }

  open_socket-IsTyped : Keeps IsTyped (open_socket net signed)
  unfolding open_socket
  open_socket-IsTyped = record {
    at = λ s v. Safe-option IsTyped (net.socket_open s.world).1 _ _ v λ handle. v;
  }

  connect-IsTyped : (socket : ℕ) → Keeps IsTyped (connect net signed socket)
  unfolding connect
  connect-IsTyped socket = record {
    at = λ s v.
        Safe-if IsTyped (is_not_zero (net.socket_connect s.world socket s.dest_ipv4_addr s.port).1)
          _ _ v v;
  }

  connect_to_output-Keeps : (ticks : ℕ) → Keeps IsTyped (connect_to_output net signed ticks)
  unfolding connect_to_output
  connect_to_output-Keeps ticks =
      Keeps-bind (Keeps-gets λ s. s.is_communication_initialized) λ initialized.
        Keeps-bind (Keeps-when (not initialized) init_communication-IsTyped) λ _.
          Keeps-bind open_socket-IsTyped λ socket. Keeps-bind (connect-IsTyped socket) λ _.
            Keeps-wait_while ticks (λ s. not s.is_socket_opened) _ (tick-IsTyped net signed chars)

  server_close-Keeps : (ticks : ℕ) → Keeps IsTyped (server_close net signed ticks)
  unfolding server_close
  server_close-Keeps ticks =
      let waits : Keeps IsTyped (wait_while ticks (λ s. s.is_socket_opened) (tick net signed)) =
        Keeps-wait_while ticks (λ s. s.is_socket_opened) _ (tick-IsTyped net signed chars) in
      record { at = λ s v. waits.at _ v }

  -- Where the statics have values of their C types (16 bits for the two lengths and the port, chars
  -- in both buffers of ten, no more than ten bytes queued), connectToOutput and serverClose never
  -- fault: they write nothing outside the two buffers, and ask the network for no more bytes than
  -- these hold and give it no more. The statics still have values of their types where the function
  -- returns, the program exits or the wait goes on, whatever the network does, if what it reads are
  -- chars.
  pub connect_to_output-IsTyped :
      (ticks : ℕ) (s : Server W)
      → IsTyped s
      → Safe IsTyped (connect_to_output net signed ticks s)
        × Safe IsTyped (server_close net signed ticks s)
  connect_to_output-IsTyped ticks s v =
      ((connect_to_output-Keeps ticks).at s v, (server_close-Keeps ticks).at s v)
