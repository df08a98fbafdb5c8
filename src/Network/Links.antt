-- ===== src/Network/Links.antt =====
-- Documented behaviour of picoTCP that some theorems rest on, for a connection that is up: what is
-- written is queued for the peer, and what the peer sent is read in order.
use ledcontroller.Prelude.{ℕ, ◌<◌, ◌≡◌, ◌⊎◌, ◌^◌, All, List, [], ◌∷◌, ◌++◌, pos, length}
use ledcontroller.Network.{Network, received, ev_wr}

-- While the connection is `Up` and the peer is silent, each tick makes no callback or reports that
-- the socket can be written; fewer than `bound` ticks in a row make none. A write takes all bytes.
-- `sent` is what was written so far.
pub record IsWritable {W : Type 0} (net : Network W) (Up : W → Type 0) (sent : W → List ℕ)
    (bound : ℕ) : Type 0 where
  pub delay : W → ℕ
  pub delay_bound : (w : W) → Up w → delay w < bound
  pub tick_step :
      (w : W)
      → Up w
      → ((w' : W) × (net.stack_tick w ≡ (w', []))
          × Up w'
          × (sent w' ≡ sent w)
          × (delay w' < delay w))
        ⊎ ((w' : W) × (socket : ℕ) × (net.stack_tick w ≡ (w', (ev_wr, socket) ∷ []))
            × Up w'
            × (sent w' ≡ sent w))
  pub write_all :
      (w : W) (socket : ℕ) (bytes : List ℕ)
      → Up w
      → (w' : W) × (net.socket_write w socket bytes ≡ (w', pos (length bytes)))
        × Up w'
        × (sent w' ≡ sent w ++ bytes)

-- `pending` is what the peer sent and was not read yet. A read for at most that many bytes copies
-- the first of them.
pub record IsStream {W : Type 0} (net : Network W) (socket : ℕ) (pending : W → List ℕ)
    : Type 0 where
  pub read_some :
      (w : W) (bytes rest : List ℕ)
      → pending w ≡ bytes ++ rest
      → (w' : W) × (net.socket_read w socket (length bytes) ≡ (w', received bytes))
        × (pending w' ≡ rest)

abbrev pub IsChar : ℕ → Type 0
IsChar c = c < 2 ^ 8

-- What a read copies into a buffer are chars.
pub record ReadsChars {W : Type 0} (net : Network W) : Type 0 where
  pub read_chars :
      (w : W) (socket count : ℕ) (bytes : List ℕ)
      → (net.socket_read w socket count).1 ≡ received bytes
      → All IsChar bytes
