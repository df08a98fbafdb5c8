-- ===== src/Json/Walk/Document.antt =====
-- What a text says, as a list of its tokens: a document of sequences of LEDs.
use ledcontroller.Prelude.{
  ℕ, ◌+◌, ◌^◌, ◌<◌, ◌≤◌, ◌≡◌, List, [], ◌∷◌, ◌++◌, some, arith, length, get_elem?,
}
use ledcontroller.Led.{Address, AddressableLed}
use ledcontroller.Json.{string, array, object, primitive, Token}
use ledcontroller.Json.Text.{token_text}
use ledcontroller.Json.Text.Decimal.{IsDecimal}
use ledcontroller.Json.Store.Stored.{Sequence}

-- "ALL", or a row and a column with an x between.
pub data IsAddressText : List ℕ → Address → Type 0 where
  all_leds : IsAddressText (b'A' ∷ b'L' ∷ b'L' ∷ []) (record { row = 65535; column = 65535 })
  grid :
      {first second : List ℕ} {row column : ℕ}
      → IsDecimal first row
      → IsDecimal second column
      → row < 2 ^ 16
      → column < 2 ^ 16
      → IsAddressText (first ++ 120 ∷ second) (record { row = row; column = column })

-- The token is a string with that text.
abbrev pub IsString : List ℕ → List ℕ → Token → Type 0
IsString json text t =
    (t.type ≡ string) × (t.start + length text ≡ t.end) × (token_text json t ≡ text)

-- The token is a number below a bound.
abbrev pub IsNumber : List ℕ → ℕ → ℕ → Token → Type 0
IsNumber json bound n t = (t.type ≡ primitive) × IsDecimal (token_text json t) n × (n < bound)

module _ (json : List ℕ) (tokens : List Token) where
  -- There is a token at that index, of which `P` holds.
  abbrev pub At : ℕ → (Token → Type 0) → Type 0
  At i P = (t : Token) × (get_elem? tokens i ≡ some t) × P t

  -- {"Addr": ..., "R": ..., "G": ..., "B": ...}, after the token at `i`
  pub record LedAt (i : ℕ) (led : AddressableLed) : Type 0 where
    pub braces : At (i + 1) (λ t. t.type ≡ object)
    pub addr_key : At (i + 2) (IsString json (b'A' ∷ b'd' ∷ b'd' ∷ b'r' ∷ []))
    pub addr : At (i + 3) (λ t. (t.type ≡ string) × IsAddressText (token_text json t) led.address)
    pub red_key : At (i + 4) (IsString json (b'R' ∷ []))
    pub red : At (i + 5) (IsNumber json 256 led.led_value.red)
    pub green_key : At (i + 6) (IsString json (b'G' ∷ []))
    pub green : At (i + 7) (IsNumber json 256 led.led_value.green)
    pub blue_key : At (i + 8) (IsString json (b'B' ∷ []))
    pub blue : At (i + 9) (IsNumber json 256 led.led_value.blue)

  abbrev pub LedsAt : ℕ → List AddressableLed → ℕ → Type 0
  LedsAt i [] last = i ≡ last
  LedsAt i (led ∷ leds) last = LedAt i led × LedsAt (i + 9) leds last

  -- {"Delay": ..., "Led": [...]}, after the token at `i`, up to the one at `last`
  pub record SequenceAt (i : ℕ) (q : Sequence) (last : ℕ) : Type 0 where
    pub braces : At (i + 1) (λ t. t.type ≡ object)
    pub delay_key : At (i + 2) (IsString json (b'D' ∷ b'e' ∷ b'l' ∷ b'a' ∷ b'y' ∷ []))
    pub delay : At (i + 3) (IsNumber json (2 ^ 16) q.delay)
    pub led_key : At (i + 4) (IsString json (b'L' ∷ b'e' ∷ b'd' ∷ []))
    pub led : At (i + 5) (λ t. (t.type ≡ array) × (t.size ≡ length q.leds))
    pub leds : LedsAt (i + 5) q.leds last
    pub few : length q.leds < 2 ^ 16

  pub data SequencesAt : ℕ → List Sequence → ℕ → Type 0 where
    no_sequence : {i : ℕ} → SequencesAt i [] i
    one_more :
        {i next last : ℕ} {q : Sequence} {qs : List Sequence}
        → SequenceAt i q next
        → SequencesAt next qs last
        → SequencesAt i (q ∷ qs) last

  -- The tokens from `i` up to `count`: names, sizes and lists of sequences. No other token stands
  -- at a place where a name is due.
  pub data EntriesAt (count : ℕ) : ℕ → List Sequence → Type 0 where
    end_of_text : {i : ℕ} → count ≤ i → EntriesAt count i []
    name :
        {i : ℕ} {qs : List Sequence}
        → i < count
        → At i (IsString json (b'N' ∷ b'a' ∷ b'm' ∷ b'e' ∷ []))
        → At (i + 1) (λ t. Unit)
        → EntriesAt count (i + 1 + 1) qs
        → EntriesAt count i qs
    size :
        {i : ℕ} {qs : List Sequence}
        → i < count
        → At i (IsString json (b'S' ∷ b'i' ∷ b'z' ∷ b'e' ∷ []))
        → At (i + 1) (λ t. Unit)
        → EntriesAt count (i + 1 + 1) qs
        → EntriesAt count i qs
    seq :
        {i last : ℕ} {new rest : List Sequence}
        → i < count
        → At i (IsString json (b'S' ∷ b'e' ∷ b'q' ∷ []))
        → At (i + 1) (λ t. (t.type ≡ array) × (t.size ≡ length new))
        → SequencesAt (i + 1) new last
        → EntriesAt count (last + 1) rest
        → EntriesAt count i (new ++ rest)

  LedsAt-le : (i last : ℕ) (leds : List AddressableLed) → LedsAt i leds last → i ≤ last
  LedsAt-le i last [] l = ground arith
  LedsAt-le i last (led ∷ leds) (_, l) =
      let further = LedsAt-le (i + 9) last leds l in omega (arith, further)

  pub SequencesAt-le : {i last : ℕ} {qs : List Sequence} → SequencesAt i qs last → i ≤ last
  SequencesAt-le no_sequence = omega arith
  SequencesAt-le {i} {last} (one_more {next} {q} l rest) =
      let first = LedsAt-le (i + 5) next q.leds l.leds in
      let further = SequencesAt-le rest in omega (arith, first, further)
