-- ===== src/Server/Connect/Starting.antt =====
-- Server/LEDServer.c: getOutputInformations, from the console to the size of the grid.
use mathlib.Core.Option
use ledcontroller.Prelude.{
  copy-overwrite, ℕ, zero, suc, ◌<◌, ◌≡◌, refl, ap, ◌∙◌, Bool, true, false, List, [], ◌∷◌, ◌++◌,
  Option, none, some, arith, length, take, overwrite, length-overwrite, not,
}
use ledcontroller.Wire.{size_text}
use ledcontroller.Wire.Messages.{Readable}
use ledcontroller.Network.{Network}
use ledcontroller.Network.Handshake.{Handshake}
use ledcontroller.Run.{done, continue, wait_while, when, Run, ◌>>◌, ◌>>=◌}
use ledcontroller.Stdin.{fgets, take_line, is_empty_line, c_string, same_text}
use ledcontroller.Server.{Server, tick}
use ledcontroller.Server.Size.{length_bytes}
use ledcontroller.Server.Connect.{
  own_address, own_mask, vde_path, vde_name, mac_addr, default_address, create_device,
  init_communication, open_socket, connect, connect_to_output, chosen, answer, ask, queue_size,
  size_queued, get_output_informations,
}
use ledcontroller.Server.Connect.Joining.{Queued, Known, connecting-ends, asking-ends}

take-size_text :
    (buffer : List ℕ)
    → length buffer ≡ 10
    → take 4 (overwrite buffer (size_text ++ 0 ∷ [])) ≡ size_text
take-size_text (a ∷ b ∷ c ∷ d ∷ e ∷ rest) ten = refl
take-size_text _ ten = absurd (omega arith)

module _ {W : Type 0} (net : Network W) (signed : Bool) where
  queue_size-done :
      (address port : ℕ) (s : Server W)
      → length s.write_buffer ≡ 10
      → queue_size net signed address port s
        ≡ done tt (record s {
          port = net.short_be port;
          dest_ipv4_addr = address;
          response_from_output = false;
          write_buffer = overwrite s.write_buffer (size_text ++ 0 ∷ []);
          bytes_to_write = 4;
        })
  unfolding queue_size size_queued
  queue_size-done address port s ten =
      rw (copy-overwrite s.write_buffer (size_text ++ 0 ∷ []) (omega (arith, ten))) refl

  chosen-default :
      (number : ℕ)
      → net.string_to_ipv4 default_address ≡ some number
      → chosen net signed default_address 7777 ≡ some (number, 7777)
  unfolding chosen
  chosen-default number reads = rw (reads, chosen)

  chosen-nothing : chosen net signed [] 0 ≡ none
  unfolding chosen
  chosen-nothing = ground arith

  ask-chosen :
      (lines : ℕ) (buffer : Option (List ℕ)) (address : List ℕ) (port : ℕ) (found : ℕ × ℕ)
      (s : Server W)
      → chosen net signed address port ≡ some found
      → ask net signed lines buffer address port s ≡ done found s
  unfolding ask
  ask-chosen zero buffer address port found s e = rw (e, ask)
  ask-chosen (suc lines) buffer address port found s e = rw (e, ask)

  -- An empty line takes the default address.
  ask-default :
      (lines number : ℕ) (rest : List ℕ) (s : Server W)
      → s.input ≡ 10 ∷ rest
      → net.string_to_ipv4 default_address ≡ some number
      → ask net signed (suc lines) none [] 0 s ≡ done (number, 7777) (record s { input = rest })
  unfolding ask answer fgets take_line is_empty_line c_string same_text
  ask-default lines number rest s typed reads =
      let line : fgets s.input none ≡ (some (10 ∷ []), rest) = rw typed refl in
      rw (chosen-nothing, line, line, ask)
        (ask-chosen lines (some (10 ∷ [])) default_address 7777 (number, 7777)
          (record s { input = rest }) (chosen-default number reads))

  module _ (socket : ℕ) {lengths : List ℕ} {Off Linked Linking Joined Asked Up : W → Type 0}
      {left : W → ℕ}
      (shake : Handshake net socket lengths Off Linked Linking Joined Asked Up left) where
    init_communication-Linked :
        (s : Server W)
        → Off s.world
        → (w : W) × (device : Option ℕ) × (address mask : ℕ) × (init_communication net signed s
            ≡ done tt (record s {
              world = w;
              vde_device = device;
              ipv4_addr = address;
              net_mask = mask;
              is_communication_initialized = true;
            }))
          × Linked w
    unfolding init_communication create_device
    init_communication-Linked s off =
        let (w, handle, creates, linked) = shake.starts s.world vde_path vde_name mac_addr off in
        let address = Option.get_or (net.string_to_ipv4 own_address) s.ipv4_addr in
        let mask = Option.get_or (net.string_to_ipv4 own_mask) s.net_mask in
        (
          net.link_add w handle address mask,
          some handle,
          address,
          mask,
          rw (creates, creates, create_device),
          linked address mask,
        )

    open_socket-connect :
        (s : Server W)
        → Linked s.world
        → (w w' : W) × (open_socket net signed s
            ≡ done socket (record s { world = w; output_socket = some socket }))
          × (connect net signed socket (record s { world = w; output_socket = some socket })
              ≡ done tt (record s { world = w'; output_socket = some socket }))
          × Linking w'
    unfolding open_socket connect
    open_socket-connect s linked =
        let (w, w', opens, connects, linking) =
          shake.opens s.world s.dest_ipv4_addr s.port linked in
        (w, w', rw (opens, opens, open_socket), rw (connects, connect), linking)

    -- From the first wait on.
    connect_to_output-Linking :
        (ticks : ℕ) (s : Server W)
        → Off s.world
        → s.is_communication_initialized ≡ false
        → (s' : Server W) × (connect_to_output net signed ticks s
            ≡ wait_while ticks (λ t. not t.is_socket_opened) (tick net signed) s')
          × Linking s'.world
          × (s'.is_socket_opened ≡ s.is_socket_opened)
          × (s'.output_socket ≡ some socket)
          × (s'.response_from_output ≡ s.response_from_output)
          × (s'.input ≡ s.input)
          × (s'.read_buffer ≡ s.read_buffer)
          × (s'.write_buffer ≡ s.write_buffer)
          × (s'.bytes_to_write ≡ s.bytes_to_write)
    unfolding connect_to_output
    connect_to_output-Linking ticks s off new =
        let (w, device, address, mask, links, linked) = init_communication-Linked s off in
        let ready : Server W = record s {
          world = w;
          vde_device = device;
          ipv4_addr = address;
          net_mask = mask;
          is_communication_initialized = true;
        } in
        let (w1, w2, opens, connects, linking) = open_socket-connect ready linked in
        let wait : Run (Server W) (Unit {0}) =
          wait_while ticks (λ t. not t.is_socket_opened) (tick net signed) in
        let from_socket : ℕ → Run (Server W) (Unit {0}) =
          λ handle. connect net signed handle >> wait in
        let from_open : Run (Server W) (Unit {0}) = open_socket net signed >>= from_socket in
        (
          record ready { world = w2; output_socket = some socket },
          ap (λ b. ((when (not b) (init_communication net signed)) >> from_open) s) new
              ∙ ap (continue λ _. from_open) links
              ∙ ap (continue from_socket) opens
              ∙ ap (continue λ _. wait) connects,
          linking,
          refl,
          refl,
          refl,
          refl,
          refl,
          refl,
          refl,
        )

module _ {W : Type 0} (net : Network W) (signed : Bool) (socket rows columns : ℕ)
    {Off Linked Linking Joined Asked Up : W → Type 0} {left : W → ℕ}
    (shake : Handshake net socket
      (length_bytes rows columns)
      Off
      Linked
      Linking
      Joined
      Asked
      Up
      left)
    (fits : Readable signed rows) (fits' : Readable signed columns) where
  -- After SIZE was queued.
  asks-Known :
      (ticks : ℕ) (rest : List ℕ) (s : Server W)
      → ((w : W) → left w < ticks)
      → Off s.world
      → s.is_communication_initialized ≡ false
      → s.is_socket_opened ≡ false
      → s.response_from_output ≡ false
      → s.input ≡ rest
      → length s.read_buffer ≡ 10
      → length s.write_buffer ≡ 10
      → Queued s
      → (s' : Server W) × ((connect_to_output net signed ticks
              >> wait_while ticks (λ t. not t.response_from_output) (tick net signed))
            s
          ≡ done tt s')
        × Known socket Up rows columns rest s'
  asks-Known ticks rest s enough off new closed unheard typed ten ten' q =
      let (s1, connects, linking, closed1, connected1, unheard1, typed1, read1, write1, bytes1) =
        connect_to_output-Linking net signed socket shake ticks s off new in
      let (s2, joins, (a, q2)) =
        connecting-ends net signed socket rows columns shake fits fits' rest ticks s1
          (
            record {
              phase = linking;
              open_flag = closed1 ∙ closed;
              connected = connected1;
              unheard = unheard1 ∙ unheard;
              typed = typed1 ∙ typed;
              read_size = rw read1 ten;
              write_size = rw write1 ten';
            },
            record { four = bytes1 ∙ q.four; text = rw write1 q.text },
          )
          (enough s1.world) in
      let (s3, hears, known) =
        asking-ends net signed socket rows columns shake fits fits' rest ticks s2 (a, q2)
          (enough s2.world) in
      (
        s3,
        ap (continue λ _. wait_while ticks (λ t. not t.response_from_output) (tick net signed))
              (connects ∙ joins)
            ∙ hears,
        known,
      )

  -- The program as it starts, with an empty line on the console for the default address, and a stack
  -- that makes the connection and delivers a peer's answer to SIZE within fewer ticks than the fuel of
  -- a wait: `getOutputInformations` returns, having read that line only, with the connection up, the
  -- two lengths of the answer as the size of the grid, and an empty queue. Where `char` is signed, the
  -- low bytes of both lengths must lie below 128.
  pub get_output_informations-Known :
      (lines ticks number : ℕ) (rest : List ℕ) (s : Server W)
      → ((w : W) → left w < ticks)
      → net.string_to_ipv4 default_address ≡ some number
      → s.input ≡ 10 ∷ rest
      → Off s.world
      → s.is_communication_initialized ≡ false
      → s.is_socket_opened ≡ false
      → length s.read_buffer ≡ 10
      → length s.write_buffer ≡ 10
      → (s' : Server W) × (get_output_informations net signed (suc lines) ticks s ≡ done tt s')
        × Known socket Up rows columns rest s'
  unfolding get_output_informations
  get_output_informations-Known lines ticks number rest s enough reads typed off new closed ten
        ten' =
      let asking : Server W = record s {
        input = rest;
        port = net.short_be 7777;
        dest_ipv4_addr = number;
        response_from_output = false;
        write_buffer = overwrite s.write_buffer (size_text ++ 0 ∷ []);
        bytes_to_write = 4;
      } in
      let waits : Run (Server W) (Unit {0}) =
        connect_to_output net signed ticks
        >> wait_while ticks (λ t. not t.response_from_output) (tick net signed) in
      let (s', runs, known) =
        asks-Known ticks rest asking enough off new closed refl refl ten
          (length-overwrite s.write_buffer (size_text ++ 0 ∷ []) ∙ ten')
          (record { four = refl; text = take-size_text s.write_buffer ten' }) in
      (
        s',
        ap (continue (λ found. queue_size net signed found.0 found.1 >> waits))
              (ask-default net signed lines number rest s typed reads)
            ∙ ap (continue (λ _. waits))
                (queue_size-done net signed number 7777 (record s { input = rest }) ten')
            ∙ runs,
        known,
      )
