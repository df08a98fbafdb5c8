-- ===== src/Json/Walk/Reading.antt =====
-- Server/JSONToLeds.c: the loops over tokens read the sequences of a document, with the memory
-- that they ask for.
use mathlib.Core.List.{append-nil, append_assoc}
use ledcontroller.Prelude.{
  ℕ, ◌+◌, ◌^◌, ◌<◌, ◌≤◌, ◌≡◌, refl, ap, ◌∙◌, Bool, true, List, [], ◌∷◌, ◌++◌, ℤ, arith, length,
  length-append,
}
use ledcontroller.Led.{Address, AddressableLed}
use ledcontroller.Run.{done}
use ledcontroller.Json.{all_ok, Token, Sequences}
use ledcontroller.Json.Text.Decimal.{to_u16-small, to_byte-small}
use ledcontroller.Json.Store.{
  sequence_bytes, led_bytes, add_new_sequence, append_to_current_sequence,
}
use ledcontroller.Json.Store.Stored.{Sequence, IsStored, IsLed}
use ledcontroller.Json.Store.Adding.{started, add_new_sequence-granted}
use ledcontroller.Json.Store.Appending.{with_led, append_to_current_sequence-granted}
use ledcontroller.Json.Walk.{
  go, go_on, Parse, ◌>>=◌, and_then, lifted, is_led, read_led, read_leds, read_sequence,
  read_sequences,
}
use ledcontroller.Json.Walk.Document.{
  IsAddressText, all_leds, grid, LedAt, LedsAt, SequenceAt, SequencesAt, no_sequence, one_more,
}
use ledcontroller.Json.Walk.Tokens.{
  Answers, Answers-both, token-At, is_key-IsString, has_type-At, number-At, led_address-At,
}

-- A step that goes on with a value, and turns statics that hold `before` into statics that hold
-- `after`.
pub record Gives {A : Type 0} (m : Parse A) (before after : List Sequence) (a : A) : Type 0 where
  pub at :
      (s : Sequences)
      → IsStored before s
      → (s' : Sequences) × (m s ≡ done (go a) s') × IsStored after s'

module _ {A : Type 0} where
  pub Gives-go : (a : A) (qs : List Sequence) → Gives (go_on a) qs qs a
  Gives-go a qs = record { at = λ s h. (s, refl, h) }

pub Gives-after :
    {A B : Type 0} {m : Parse A} (k : A → Parse B) {a : A} {b : B} {before after : List Sequence}
    → Answers m a
    → Gives (k a) before after b
    → Gives (m >>= k) before after b
Gives-after k hm hk = record {
  at = λ s h. let (s', e, h') = hk.at s h in (s', ap (and_then k) (hm.at s) ∙ e, h');
}

pub Gives-bind :
    {A B : Type 0} {m : Parse A} (k : A → Parse B) {a : A} {b : B}
    {before mid after : List Sequence}
    → Gives m before mid a
    → Gives (k a) mid after b
    → Gives (m >>= k) before after b
Gives-bind k hm hk = record {
  at = λ s h.
      let (s', e, h') = hm.at s h in
      let (s'', e', h'') = hk.at s' h' in (s'', ap (and_then k) e ∙ e', h'');
}

IsAddressText-lt :
    {text : List ℕ} {address : Address}
    → IsAddressText text address
    → (address.row < 2 ^ 16) × (address.column < 2 ^ 16)
IsAddressText-lt all_leds = (omega arith, omega arith)
IsAddressText-lt (grid a b row column) = (row, column)

module _ (json : List ℕ) (tokens : List Token) where
  LedAt-IsLed : {i : ℕ} {led : AddressableLed} → LedAt json tokens i led → IsLed led
  LedAt-IsLed l =
      let (row, column) = IsAddressText-lt l.addr.2.1 in
      (row, column, (l.red.2.2, l.green.2.2, l.blue.2.2))

  is_led-LedAt :
      {i : ℕ} {led : AddressableLed} → LedAt json tokens i led → Answers (is_led json tokens i) true
  unfolding is_led
  is_led-LedAt l = Answers-both (is_key-IsString json tokens _ l.addr_key) (
      Answers-both (has_type-At json tokens _ l.addr l.addr.2.0) (
        Answers-both (is_key-IsString json tokens _ l.red_key) (
          Answers-both (has_type-At json tokens _ l.red l.red.2.0) (
            Answers-both (is_key-IsString json tokens _ l.green_key) (
              Answers-both (has_type-At json tokens _ l.green l.green.2.0) (
                Answers-both (is_key-IsString json tokens _ l.blue_key)
                  (has_type-At json tokens _ l.blue l.blue.2.0)))))))

  module _ (grants : ℕ → Bool) (granted : (n : ℕ) → grants n ≡ true) where
    append-Gives :
        (qs : List Sequence) (q : Sequence) (led : AddressableLed)
        → length q.leds + 1 < 2 ^ 16
        → IsLed led
        → Gives
            (λ s. lifted (append_to_current_sequence grants led s))
            (qs ++ q ∷ [])
            (qs ++ with_led q led ∷ [])
            all_ok
    append-Gives qs q led few bounded = record {
      at = λ s v.
          let (s', e, v') =
            append_to_current_sequence-granted qs q s v grants led few bounded (granted _)
              (granted _) in
          (s', ap lifted e, v');
    }

    read_led-LedAt :
        (i : ℕ) (led : AddressableLed) (qs : List Sequence) (q : Sequence)
        → LedAt json tokens i led
        → length q.leds + 1 < 2 ^ 16
        → Gives (read_led json tokens grants i) (qs ++ q ∷ []) (qs ++ with_led q led ∷ []) (i + 9)
    unfolding read_led
    read_led-LedAt i led qs q l few =
        Gives-after _ (has_type-At json tokens _ l.braces l.braces.2) (
          Gives-after _ (is_led-LedAt l) (
            Gives-after _ (led_address-At json tokens _ l.addr) (
              Gives-after _ (number-At json tokens _ (omega arith) l.red) (
                Gives-after _ (number-At json tokens _ (omega arith) l.green) (
                  Gives-after _ (number-At json tokens _ (omega arith) l.blue) (
                    rw
                      (
                        to_byte-small _ l.red.2.2,
                        to_byte-small _ l.green.2.2,
                        to_byte-small _ l.blue.2.2,
                      )
                      (Gives-bind _ (append-Gives qs q led few (LedAt-IsLed l))
                        (Gives-go (i + 9) _))))))))

    read_leds-LedsAt :
        (i last : ℕ) (leds : List AddressableLed) (qs : List Sequence) (q : Sequence)
        → LedsAt json tokens i leds last
        → length q.leds + length leds < 2 ^ 16
        → Gives
            (read_leds json tokens grants (length leds) i)
            (qs ++ q ∷ [])
            (qs ++ record q { leds = q.leds ++ leds } ∷ [])
            last
    unfolding read_leds
    read_leds-LedsAt i last [] qs q l few = rw (l, append-nil q.leds) (Gives-go last _)
    read_leds-LedsAt i last (led ∷ leds) qs q (l, rest) few =
        Gives-bind _ (read_led-LedAt i led qs q l (omega (arith, few))) (
          rw (← append_assoc q.leds (led ∷ []) leds) (
            read_leds-LedsAt (i + 9) last leds qs (with_led q led) rest
              (rw (length-append q.leds (led ∷ [])) (omega (arith, few)))))

    module _ (pointer_bytes : ℕ) (fits : sequence_bytes pointer_bytes ≤ led_bytes) where
      add-Gives :
          (qs : List Sequence) (delay : ℤ)
          → length qs + 2 < 2 ^ 32
          → Gives
              (λ s. lifted (add_new_sequence grants pointer_bytes delay s))
              qs
              (qs ++ started delay ∷ [])
              all_ok
      add-Gives qs delay few = record {
        at = λ s v.
            let (s', e, v') =
              add_new_sequence-granted qs s v grants pointer_bytes delay fits few (granted _)
                (granted _) in
            (s', ap lifted e, v');
      }

      read_sequence-SequenceAt :
          (i last : ℕ) (q : Sequence) (qs : List Sequence)
          → SequenceAt json tokens i q last
          → length qs + 2 < 2 ^ 32
          → Gives (read_sequence json tokens grants pointer_bytes i) qs (qs ++ q ∷ []) last
      unfolding read_sequence
      read_sequence-SequenceAt i last q qs l few =
          let few_leds = l.few in
          Gives-after _ (has_type-At json tokens _ l.braces l.braces.2) (
            Gives-after _
              (Answers-both (is_key-IsString json tokens _ l.delay_key)
                (has_type-At json tokens _ l.delay l.delay.2.0))
              (Gives-after _ (number-At json tokens _ (omega arith) l.delay) (
                Gives-bind _ (add-Gives qs _ few) (
                  Gives-after _
                    (Answers-both (is_key-IsString json tokens _ l.led_key)
                      (has_type-At json tokens _ l.led l.led.2.0))
                    (Gives-after _ (token-At json tokens _ l.led) (
                      rw (l.led.2.1, to_u16-small _ l.delay.2.2)
                        (read_leds-LedsAt (i + 5) last q.leds qs
                          (record { delay = q.delay; leds = [] }) l.leds
                          (omega (arith, few_leds)))))))))

      pub read_sequences-SequencesAt :
          (i last : ℕ) (new qs : List Sequence)
          → SequencesAt json tokens i new last
          → length qs + length new + 1 < 2 ^ 32
          → Gives
              (read_sequences json tokens grants pointer_bytes (length new) i)
              qs
              (qs ++ new)
              last
      unfolding read_sequences
      read_sequences-SequencesAt i last [] qs no_sequence few = rw (append-nil qs) (Gives-go i qs)
      read_sequences-SequencesAt i last (q ∷ new) qs (one_more {next} l rest) few =
          Gives-bind _ (read_sequence-SequenceAt i next q qs l (omega (arith, few))) (
            rw (← append_assoc qs (q ∷ []) new) (
              read_sequences-SequencesAt next last new (qs ++ q ∷ []) rest
                (rw (length-append qs (q ∷ [])) (omega (arith, few)))))
