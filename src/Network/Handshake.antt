-- ===== src/Network/Handshake.antt =====
-- Documented behaviour of picoTCP that some theorems rest on, for a connection that is made to a peer
-- which answers SIZE, and closed.
use ledcontroller.Prelude.{ℕ, ◌<◌, ◌≡◌, ◌⊎◌, List, [], ◌∷◌, some, pos}
use ledcontroller.Wire.{size_text}
use ledcontroller.Network.{Network, received, ev_rd, ev_wr, ev_conn, ev_fin}

-- The phases of the stack: off, with a device, while it connects, once it is connected, once SIZE
-- was written, and once the answer was read. In the three that wait, each tick makes no callback and
-- lessens `left`, or ends the phase; `lengths` are the bytes that follow SIZE in the answer.
pub record Handshake {W : Type 0} (net : Network W) (socket : ℕ) (lengths : List ℕ)
    (Off Linked Linking Joined Asked Up : W → Type 0) (left : W → ℕ) : Type 0 where
  pub starts :
      (w : W) (path name mac : List ℕ)
      → Off w
      → (w' : W) × (handle : ℕ) × (net.vde_create (net.stack_init w) path name mac
          ≡ (w', some handle))
        × ((address mask : ℕ) → Linked (net.link_add w' handle address mask))
  pub opens :
      (w : W) (address port : ℕ)
      → Linked w
      → (w' w'' : W) × (net.socket_open w ≡ (w', some socket))
        × (net.socket_connect w' socket address port ≡ (w'', pos 0))
        × Linking w''
  pub links :
      (w : W)
      → Linking w
      → ((w' : W) × (net.stack_tick w ≡ (w', [])) × Linking w' × (left w' < left w))
        ⊎ ((w' : W) × (net.stack_tick w ≡ (w', (ev_conn, socket) ∷ [])) × Joined w')
  pub joins :
      (w : W)
      → Joined w
      → ((w' : W) × (net.stack_tick w ≡ (w', [])) × Joined w' × (left w' < left w))
        ⊎ ((w' w'' : W) × (net.stack_tick w ≡ (w', (ev_wr, socket) ∷ []))
            × (net.socket_write w' socket size_text ≡ (w'', pos 4))
            × Asked w''
            × (left w'' < left w))
  pub answers :
      (w : W)
      → Asked w
      → ((w' : W) × (net.stack_tick w ≡ (w', [])) × Asked w' × (left w' < left w))
        ⊎ ((w' w1 w2 : W) × (net.stack_tick w ≡ (w', (ev_rd, socket) ∷ []))
            × (net.socket_read w' socket 4 ≡ (w1, received size_text))
            × (net.socket_read w1 socket 4 ≡ (w2, received lengths))
            × Up w2)

-- A connection that is up can be closed: each tick then makes no callback and lessens `left`, or
-- reports that the connection is finished.
pub record Closes {W : Type 0} (net : Network W) (socket : ℕ) (Up Closing : W → Type 0)
    (left : W → ℕ) : Type 0 where
  pub closes : (w : W) → Up w → Closing (net.socket_close w socket)
  pub finishes :
      (w : W)
      → Closing w
      → ((w' : W) × (net.stack_tick w ≡ (w', [])) × Closing w' × (left w' < left w))
        ⊎ ((w' : W) × (net.stack_tick w ≡ (w', (ev_fin, socket) ∷ [])))
