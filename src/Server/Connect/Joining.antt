-- ===== src/Server/Connect/Joining.antt =====
-- Server/LEDServer.c: the two waits of getOutputInformations, while the connection is made and until
-- the answer to SIZE is there.
use ledcontroller.Prelude.{
  ℕ, ◌<◌, ◌≡◌, refl, ◌∙◌, Bool, true, false, not, ◌⊎◌, inl, inr, List, arith, some, length, take,
  set, overwrite, pos, length-set,
}
use ledcontroller.Wire.{size_text}
use ledcontroller.Wire.Messages.{Readable}
use ledcontroller.Network.{Network, received}
use ledcontroller.Network.Handshake.{Handshake}
use ledcontroller.Run.{done, wait_while}
use ledcontroller.Run.Waits.{wait_while-ends}
use ledcontroller.Server.{Server, tick, process_socket_reading}
use ledcontroller.Server.Size.{length_bytes, process_socket_reading-lengths}
use ledcontroller.Server.Ticks.{sent_out, tick-idle, tick-write, tick-connected, tick-read}

-- Both buffers have their size, and nothing was heard; the stack is in that phase.
pub record At {W : Type 0} (socket : ℕ) (Phase : W → Type 0) (opened : Bool) (input : List ℕ)
    (s : Server W) : Type 0 where
  pub phase : Phase s.world
  pub open_flag : s.is_socket_opened ≡ opened
  pub connected : s.output_socket ≡ some socket
  pub unheard : s.response_from_output ≡ false
  pub typed : s.input ≡ input
  pub read_size : length s.read_buffer ≡ 10
  pub write_size : length s.write_buffer ≡ 10

-- SIZE is queued.
pub record Queued {W : Type 0} (s : Server W) : Type 0 where
  pub four : s.bytes_to_write ≡ 4
  pub text : take 4 s.write_buffer ≡ size_text

-- The sizes of the grid are known.
pub record Known {W : Type 0} (socket : ℕ) (Up : W → Type 0) (rows columns : ℕ) (input : List ℕ)
    (s : Server W) : Type 0 where
  pub up : Up s.world
  pub opened : s.is_socket_opened ≡ true
  pub connected : s.output_socket ≡ some socket
  pub heard : s.response_from_output ≡ true
  pub ten : length s.write_buffer ≡ 10
  pub empty : s.bytes_to_write ≡ 0
  pub known_rows : s.number_of_rows ≡ rows
  pub known_columns : s.number_of_columns ≡ columns
  pub typed : s.input ≡ input

-- In another phase of the stack.
At-world :
    {W : Type 0} {socket : ℕ} {Phase : W → Type 0} (Next : W → Type 0) {opened : Bool}
    {input : List ℕ} (s : Server W) (w : W)
    → At socket Phase opened input s
    → Next w
    → At socket Next opened input (record s { world = w })
At-world Next s w a phase = record {
  phase = phase;
  open_flag = a.open_flag;
  connected = a.connected;
  unheard = a.unheard;
  typed = a.typed;
  read_size = a.read_size;
  write_size = a.write_size;
}

module _ {W : Type 0} (net : Network W) (signed : Bool) (socket rows columns : ℕ)
    {Off Linked Linking Joined Asked Up : W → Type 0} {left : W → ℕ}
    (shake : Handshake net socket
      (length_bytes rows columns)
      Off
      Linked
      Linking
      Joined
      Asked
      Up
      left)
    (fits : Readable signed rows) (fits' : Readable signed columns) (input : List ℕ) where
  pub connecting-ends :
      (ticks : ℕ) (s : Server W)
      → At socket Linking false input s × Queued s
      → left s.world < ticks
      → (s' : Server W) × (wait_while ticks (λ t. not t.is_socket_opened) (tick net signed) s
          ≡ done tt s')
        × (At socket Joined true input s' × Queued s')
  connecting-ends =
      wait_while-ends (λ t. not t.is_socket_opened) (tick net signed)
        (λ s. At socket Linking false input s × Queued s)
        (λ s. At socket Joined true input s × Queued s) (λ s. left s.world)
        (λ s p. rw p.0.open_flag refl) (λ s q. rw q.0.open_flag refl)
        λ s (a, q). elim (shake.links s.world a.phase) [
          | inl (w, idle, linking, less) ↦ (
            record s { world = w },
            tick-idle net signed s w idle,
            inl ((At-world Linking s w a linking, record { four = q.four; text = q.text }), less),
          )
          | inr (w, up, joined) ↦ (
            record s { world = w; is_socket_opened = true },
            tick-connected net signed s w socket up,
            inr (
              record {
                phase = joined;
                open_flag = refl;
                connected = a.connected;
                unheard = a.unheard;
                typed = a.typed;
                read_size = a.read_size;
                write_size = a.write_size;
              },
              record { four = q.four; text = q.text },
            ),
          )
        ]

  -- Reading the answer.
  hears :
      (s : Server W) (w1 w2 : W)
      → At socket (λ w. Unit {0}) true input s
      → s.bytes_to_write ≡ 0
      → net.socket_read s.world socket 4 ≡ (w1, received size_text)
      → net.socket_read w1 socket 4 ≡ (w2, received (length_bytes rows columns))
      → Up w2
      → (s' : Server W) × (process_socket_reading net signed socket s ≡ done (pos 0) s')
        × Known socket Up rows columns input s'
  hears s w1 w2 a empty first second up =
      let buffer = overwrite s.read_buffer size_text in
      (
        record s {
          world = w2;
          read_buffer = overwrite buffer (length_bytes rows columns);
          number_of_rows = rows;
          number_of_columns = columns;
          response_from_output = true;
        },
        process_socket_reading-lengths net signed socket s w1 w2 rows columns a.read_size fits fits'
            first second,
        record {
          up = up;
          opened = a.open_flag;
          connected = a.connected;
          heard = refl;
          ten = a.write_size;
          empty = empty;
          known_rows = refl;
          known_columns = refl;
          typed = a.typed;
        },
      )

  -- SIZE is queued, or was written.
  abbrev Waiting : Server W → Type 0
  Waiting s =
      (At socket Joined true input s × Queued s)
      ⊎ (At socket Asked true input s × (s.bytes_to_write ≡ 0))

  abbrev Progress : Server W → Type 0
  Progress s =
      (s' : Server W) × (tick net signed s ≡ done tt s')
      × ((Waiting s' × (left s'.world < left s.world)) ⊎ Known socket Up rows columns input s')

  Joined-Progress : (s : Server W) → At socket Joined true input s → Queued s → Progress s
  Joined-Progress s a q = elim (shake.joins s.world a.phase) [
    | inl (w, idle, joined, less) ↦ (
      record s { world = w },
      tick-idle net signed s w idle,
      inl (inl (At-world Joined s w a joined, record { four = q.four; text = q.text }), less),
    )
    | inr (w, w', ready, writes, asked, less) ↦ (
      sent_out s w' (set s.write_buffer 0 0),
      tick-write net signed s w w' socket ready (rw q.four (omega arith))
          (let ten = a.write_size in let four = q.four in omega (arith, ten, four))
          (rw (q.four, q.text) writes),
      inl (
        inr (
          record {
            phase = asked;
            open_flag = a.open_flag;
            connected = a.connected;
            unheard = a.unheard;
            typed = a.typed;
            read_size = a.read_size;
            write_size = length-set s.write_buffer 0 0 ∙ a.write_size;
          },
          refl,
        ),
        less,
      ),
    )
  ]

  Asked-Progress : (s : Server W) → At socket Asked true input s → s.bytes_to_write ≡ 0 → Progress s
  Asked-Progress s a empty = elim (shake.answers s.world a.phase) [
    | inl (w, idle, asked, less) ↦ (
      record s { world = w },
      tick-idle net signed s w idle,
      inl (inr (At-world Asked s w a asked, empty), less),
    )
    | inr (w, w1, w2, ready, first, second, up) ↦
        let (s', reads, known) =
          hears (record s { world = w }) w1 w2 (At-world (λ w. Unit {0}) s w a tt) empty first
            second up in
        (s', tick-read net signed s s' w socket ready reads, inr known)
  ]

  pub asking-ends :
      (ticks : ℕ) (s : Server W)
      → At socket Joined true input s × Queued s
      → left s.world < ticks
      → (s' : Server W) × (wait_while ticks (λ t. not t.response_from_output) (tick net signed) s
          ≡ done tt s')
        × Known socket Up rows columns input s'
  asking-ends ticks s (a, q) =
      wait_while-ends (λ t. not t.response_from_output) (tick net signed) Waiting
        (Known socket Up rows columns input) (λ s. left s.world)
        (λ s p. elim p [ inl (b, _) ↦ rw b.unheard refl | inr (b, _) ↦ rw b.unheard refl ])
        (λ s k. rw k.heard refl)
        (λ s p. elim p [ inl (b, r) ↦ Joined-Progress s b r | inr (b, e) ↦ Asked-Progress s b e ])
        ticks s (inl (a, q))
