-- ===== src/Server/Connect/Closing.antt =====
-- Server/LEDServer.c: serverClose on a connection that is up.
use ledcontroller.Prelude.{ℕ, ◌<◌, ◌≡◌, refl, ap, ◌∙◌, Bool, true, false, inl, inr, none, some}
use ledcontroller.Network.{Network}
use ledcontroller.Network.Handshake.{Closes}
use ledcontroller.Run.{done, wait_while}
use ledcontroller.Run.Waits.{wait_while-ends}
use ledcontroller.Server.{Server, tick}
use ledcontroller.Server.Ticks.{tick-idle, tick-finished}
use ledcontroller.Server.Connect.{server_close}

module _ {W : Type 0} (net : Network W) (signed : Bool) (socket : ℕ) {Up Closing : W → Type 0}
    {left : W → ℕ} (closing : Closes net socket Up Closing left) where
  closing-ends :
      (ticks : ℕ) (s : Server W)
      → Closing s.world × (s.is_socket_opened ≡ true)
      → left s.world < ticks
      → (s' : Server W) × (wait_while ticks (λ t. t.is_socket_opened) (tick net signed) s
          ≡ done tt s')
        × (s'.is_socket_opened ≡ false)
  closing-ends =
      wait_while-ends (λ t. t.is_socket_opened) (tick net signed)
        (λ s. Closing s.world × (s.is_socket_opened ≡ true)) (λ s. s.is_socket_opened ≡ false)
        (λ s. left s.world) (λ s p. p.1) (λ s q. q)
        λ s (phase, opened). elim (closing.finishes s.world phase) [
          | inl (w, idle, phase', less) ↦
              (record s { world = w }, tick-idle net signed s w idle, inl ((phase', opened), less))
          | inr (w, finished) ↦ (
            record s { world = w; is_socket_opened = false },
            tick-finished net signed s w socket finished,
            inr refl,
          )
        ]

  -- serverClose ends, with the connection closed.
  pub server_close-closed :
      (ticks : ℕ) (s : Server W)
      → ((w : W) → left w < ticks)
      → Up s.world
      → s.output_socket ≡ some socket
      → s.is_socket_opened ≡ true
      → (s' : Server W) × (server_close net signed ticks s ≡ done tt s')
        × (s'.is_socket_opened ≡ false)
  unfolding server_close
  server_close-closed ticks s enough up connected opened =
      let (s', runs, closed) =
        closing-ends ticks (record s { world = net.socket_close s.world socket })
          (closing.closes s.world up, opened) (enough _) in
      (
        s',
        ap
              (λ o.
                wait_while ticks (λ t. t.is_socket_opened) (tick net signed)
                  (record s {
                    world = elim o [
                      | none ↦ s.world
                      | some handle ↦ net.socket_close s.world handle
                    ];
                  }))
              connected
            ∙ runs,
        closed,
      )
