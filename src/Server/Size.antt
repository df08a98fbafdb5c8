-- ===== src/Server/Size.antt =====
-- The answer to SIZE, from the output program's buffer into the server's record of the grid.
use ledcontroller.Prelude.{
  some, sym, ap, take, leb, ℕ, ◌≡◌, refl, ◌∙◌, Bool, List, [], ◌∷◌, ◌++◌, arith, true, pos, length,
  overwrite, length-overwrite, get_or-overwrite,
}
use ledcontroller.Wire.{size_text, high_byte, low_byte, command, read_u16}
use ledcontroller.Wire.Words.{read_u16-split}
use ledcontroller.Wire.Commands.{command_texts}
use ledcontroller.Wire.Messages.{Readable}
use ledcontroller.Network.{Network, received}
use ledcontroller.Network.Links.{IsStream}
use ledcontroller.Run.{done}
use ledcontroller.Server.{
  Server, byte_at, command_in, row_size, column_size, receive, store_size, answer_size, dispatch,
  process_socket_reading,
}
use ledcontroller.Server.Invariant.{IsServer}
use ledcontroller.Output.{size_reply}
use ledcontroller.Output.Commands.{sized, size_reply-sized, take-sized}

-- The bytes of the two lengths in the answer.
abbrev pub length_bytes : ℕ → ℕ → List ℕ
length_bytes rows columns =
    high_byte rows ∷ low_byte rows ∷ high_byte columns ∷ low_byte columns ∷ []

module _ {W : Type 0} (net : Network W) (signed : Bool) (sender : ℕ) where
  command_in-overwrite :
      (b0 b1 b2 b3 : ℕ) (s : Server W) (w : W)
      → length s.read_buffer ≡ 10
      → command_in signed
          (record s { world = w; read_buffer = overwrite s.read_buffer (b0 ∷ b1 ∷ b2 ∷ b3 ∷ []) })
        ≡ command signed b0 b1 b2 b3
  unfolding command_in byte_at
  command_in-overwrite b0 b1 b2 b3 s w ten =
      let bytes = b0 ∷ b1 ∷ b2 ∷ b3 ∷ [] in
      rw (
        get_or-overwrite s.read_buffer bytes 0 0 (omega arith) (omega (arith, ten)),
        get_or-overwrite s.read_buffer bytes 1 0 (omega arith) (omega (arith, ten)),
        get_or-overwrite s.read_buffer bytes 2 0 (omega arith) (omega (arith, ten)),
        get_or-overwrite s.read_buffer bytes 3 0 (omega arith) (omega (arith, ten)),
      )

  process-dispatch :
      (b0 b1 b2 b3 : ℕ) (s : Server W) (w : W)
      → length s.read_buffer ≡ 10
      → net.socket_read s.world sender 4 ≡ (w, received (b0 ∷ b1 ∷ b2 ∷ b3 ∷ []))
      → process_socket_reading net signed sender s
        ≡ dispatch net signed sender
            (command signed b0 b1 b2 b3)
            (record s { world = w; read_buffer = overwrite s.read_buffer (b0 ∷ b1 ∷ b2 ∷ b3 ∷ []) })
  unfolding process_socket_reading receive
  process-dispatch b0 b1 b2 b3 s w ten read =
      let room : leb 4 (length s.read_buffer) ≡ true = ground arith in
      rw (room, read, command_in-overwrite b0 b1 b2 b3 s w ten)

  answer_size-stored :
      (b0 b1 b2 b3 rows columns : ℕ) (s : Server W) (w : W)
      → length s.read_buffer ≡ 10
      → net.socket_read s.world sender 4 ≡ (w, received (b0 ∷ b1 ∷ b2 ∷ b3 ∷ []))
      → read_u16 signed b0 b1 ≡ rows
      → read_u16 signed b2 b3 ≡ columns
      → answer_size net signed sender s
        ≡ done (pos 0) (record s {
          world = w;
          read_buffer = overwrite s.read_buffer (b0 ∷ b1 ∷ b2 ∷ b3 ∷ []);
          number_of_rows = rows;
          number_of_columns = columns;
          response_from_output = true;
        })
  unfolding answer_size receive store_size byte_at
  answer_size-stored b0 b1 b2 b3 rows columns s w ten read e e' =
      let bytes = b0 ∷ b1 ∷ b2 ∷ b3 ∷ [] in
      let room : leb 4 (length s.read_buffer) ≡ true = ground arith in
      rw (
        room,
        read,
        get_or-overwrite s.read_buffer bytes 0 0 (omega arith) (omega (arith, ten)),
        get_or-overwrite s.read_buffer bytes 1 0 (omega arith) (omega (arith, ten)),
        get_or-overwrite s.read_buffer bytes 2 0 (omega arith) (omega (arith, ten)),
        get_or-overwrite s.read_buffer bytes 3 0 (omega arith) (omega (arith, ten)),
        e,
        e',
      )

  -- SIZE and four bytes.
  pub process_socket_reading-lengths :
      (s : Server W) (w1 w2 : W) (rows columns : ℕ)
      → length s.read_buffer ≡ 10
      → Readable signed rows
      → Readable signed columns
      → net.socket_read s.world sender 4 ≡ (w1, received size_text)
      → net.socket_read w1 sender 4 ≡ (w2, received (length_bytes rows columns))
      → process_socket_reading net signed sender s
        ≡ done (pos 0) (record s {
          world = w2;
          read_buffer = overwrite (overwrite s.read_buffer size_text) (length_bytes rows columns);
          number_of_rows = rows;
          number_of_columns = columns;
          response_from_output = true;
        })
  unfolding dispatch
  process_socket_reading-lengths s w1 w2 rows columns size fits fits' first second =
      let buffer = overwrite s.read_buffer size_text in
      let ten : length buffer ≡ 10 = length-overwrite s.read_buffer size_text ∙ size in
      process-dispatch 0x53 0x49 0x5A 0x45 s w1 size first
      ∙ rw (
        (command_texts signed).0,
        answer_size-stored (high_byte rows) (low_byte rows) (high_byte columns) (low_byte columns)
            rows columns (record s { world = w1; read_buffer = buffer }) w2 ten second
            (read_u16-split signed rows fits.0 fits.1)
            (read_u16-split signed columns fits'.0 fits'.1),
      )

-- If the eight chars that the output program's `size_reply` puts at the head of its buffer of ten
-- arrive at the server, `processSocketReading` returns 0, and the server has learnt both lengths that
-- went into them, has heard the answer and reads no further; its state stays valid. Where `char` is
-- signed, the low bytes of both lengths must lie below 128.
pub process_socket_reading-size :
    {W : Type 0} (net : Network W) (signed : Bool) (sender : ℕ) {pending : W → List ℕ}
    (stream : IsStream net sender pending) (s : Server W) (rows columns : ℕ)
    (unused queued rest : List ℕ)
    → IsServer s
    → length unused ≡ 10
    → size_reply unused rows columns ≡ some queued
    → Readable signed rows
    → Readable signed columns
    → pending s.world ≡ take 8 queued ++ rest
    → (s' : Server W) × (process_socket_reading net signed sender s ≡ done (pos 0) s')
      × IsServer s'
      × (row_size s' ≡ rows)
      × (column_size s' ≡ columns)
      × (s'.response_from_output ≡ true)
      × (pending s'.world ≡ rest)
unfolding row_size column_size
process_socket_reading-size {W = W} net signed sender {pending = pending} stream s rows columns
      unused queued rest v ten10 reply fits fits' arrives =
    let same : sized unused rows columns ≡ queued =
      let whole = size_reply-sized unused rows columns ten10 in cc in
    let e : pending s.world ≡ size_text ++ (length_bytes rows columns ++ rest) =
      arrives
      ∙ ap (λ bytes. bytes ++ rest)
          (ap (take 8) (sym same) ∙ take-sized unused rows columns ten10) in
    let lengths = length_bytes rows columns in
    let (w1, first, after) = stream.read_some s.world size_text (lengths ++ rest) e in
    let (w2, second, after') = stream.read_some w1 lengths rest after in
    let buffer = overwrite s.read_buffer size_text in
    let ten : length buffer ≡ 10 = length-overwrite s.read_buffer size_text ∙ v.read_size in
    let s' : Server W = record s {
      world = w2;
      read_buffer = overwrite buffer lengths;
      number_of_rows = rows;
      number_of_columns = columns;
      response_from_output = true;
    } in
    (
      s',
      process_socket_reading-lengths net signed sender s w1 w2 rows columns v.read_size fits fits'
          first second,
      record {
        read_size = length-overwrite buffer lengths ∙ ten;
        write_size = v.write_size;
        queued = v.queued;
      },
      refl,
      refl,
      refl,
      after',
    )
