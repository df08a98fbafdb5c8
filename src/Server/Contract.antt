-- ===== src/Server/Contract.antt =====
-- Server/LEDServer.c keeps to what its clients rely on.
use ledcontroller.Prelude.{
  ℕ, ◌≤◌, ◌≡◌, refl, ap, ◌∙◌, Bool, true, some, List, [], ◌∷◌, arith, length, take,
}
use ledcontroller.Network.{Network}
use ledcontroller.Network.Links.{IsWritable}
use ledcontroller.Server.{Server}
use ledcontroller.Server.Header.{Translates, led_server}
use ledcontroller.Server.Translate.Sending.{translate_to_output-sent}

take_all : {A : Type 0} (xs : List A) → take (length xs) xs ≡ xs
take_all [] = refl
take_all (x ∷ xs) = ap (◌∷◌ x) (take_all xs)

module _ {W : Type 0} (net : Network W) (signed : Bool) {Up : W → Type 0} {sent : W → List ℕ}
    {bound : ℕ} (link : IsWritable net Up sent bound) (socket : ℕ) where
  -- The connection is up with an empty queue, and the grid has that size.
  pub record IsReady (rows columns : ℕ) (s : Server W) : Type 0 where
    pub opened : s.is_socket_opened ≡ true
    pub connected : s.output_socket ≡ some socket
    pub up : Up s.world
    pub ten : length s.write_buffer ≡ 10
    pub empty : s.bytes_to_write ≡ 0
    pub known_rows : s.number_of_rows ≡ rows
    pub known_columns : s.number_of_columns ≡ columns

  -- On a connection that takes what is written and lets fewer ticks than the fuel of a wait pass
  -- without a write, the server keeps to the contract.
  pub led_server-Translates :
      (lines ticks : ℕ)
      → bound ≤ ticks
      → Translates (led_server net signed lines ticks) IsReady (λ s. sent s.world)
  led_server-Translates lines ticks enough = record {
    translates = λ rows columns leds s r places.
        let (world, buffer, runs, up, ten, sends) =
          translate_to_output-sent net signed link ticks enough leds (length leds) s (omega arith)
            r.opened r.up r.ten r.empty (rw r.known_columns places) in
        (
          record s { world = world; write_buffer = buffer; bytes_to_write = 0 },
          runs,
          record {
            opened = r.opened;
            connected = r.connected;
            up = up;
            ten = ten;
            empty = refl;
            known_rows = r.known_rows;
            known_columns = r.known_columns;
          },
          sends ∙ rw (r.known_rows, r.known_columns, take_all leds) refl,
        );
  }
