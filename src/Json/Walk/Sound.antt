-- ===== src/Json/Walk/Sound.antt =====
-- Server/JSONToLeds.c: the walk over any tokens, with any answers of the allocator.
use ledcontroller.Prelude.{
  ℕ, ◌+◌, ◌^◌, ◌<◌, ◌≢◌, Bool, true, false, List, Option, none, some, ℤ, arith, if◌then◌else◌,
  get_elem?,
}
use ledcontroller.Led.{Address}
use ledcontroller.Stdin.{same_text}
use ledcontroller.Run.{Outcome, done, exited, fault, waiting}
use ledcontroller.Json.{
  JsonResult, all_ok, invalid_json, JsmnType, string, primitive, Token, Sequences,
}
use ledcontroller.Json.Text.{token_text, to_u16, to_byte, strtok, atoi}
use ledcontroller.Json.Store.{free_led_sequences}
use ledcontroller.Json.Store.Stored.{Ends, Ends-eq, Holds, freed-Holds, free-array}
use ledcontroller.Json.Walk.{
  all_text, addr_text, Step, go, returned, Parse, go_on, give, lifted, and_then, ◌>>=◌, both, need,
  check, token, is_key, has_type, incorrect_json, number, column_of, address_of, led_address,
  is_led,
}

-- A step that goes on gives a value of which `P` holds; one that returns reports a failure. Either
-- way the statics hold sequences.
abbrev pub Good : {A : Type 0} → (A → Type 0) → Step A → Sequences → Type 0
Good P (go a) t = P a × Holds t
Good P (returned r) t = (r ≢ all_ok) × Holds t

abbrev pub Any : {A : Type 0} → A → Type 0
Any a = Unit

pub record Sound {A : Type 0} (P : A → Type 0) (m : Parse A) : Type 0 where
  pub at : (s : Sequences) → Holds s → Ends (Good P) (m s)

module _ {A : Type 0} {P : A → Type 0} where
  pub Sound-go : (a : A) → P a → Sound P (go_on a)
  Sound-go a p = record { at = λ s h. (p, h) }

  pub Sound-give : (r : JsonResult) → r ≢ all_ok → Sound P (give r)
  Sound-give r bad = record { at = λ s h. (bad, h) }

  pub Sound-if : (b : Bool) {m n : Parse A} → Sound P m → Sound P n → Sound P (if b then m else n)
  Sound-if true hm hn = hm
  Sound-if false hm hn = hn

Sound-need : {A : Type 0} (o : Option A) → Sound Any (need o)
Sound-need none = record { at = λ s h. tt }
Sound-need (some a) = record { at = λ s h. (tt, h) }

module _ {A B : Type 0} {P : A → Type 0} {Q : B → Type 0} where
  after :
      (k : A → Parse B)
      → ((a : A) → P a → Sound Q (k a))
      → (o : Outcome Sequences (Step A)) → Ends (Good P) o
      → Ends (Good Q) (and_then k o)
  after k hk (done (go a) s) h = (hk a h.0).at s h.1
  after k hk (done (returned r) s) h = h
  after k hk (exited code s) h = h
  after k hk fault h = tt
  after k hk (waiting s) h = h

  pub Sound-bind :
      {m : Parse A} {k : A → Parse B}
      → Sound P m
      → ((a : A) → P a → Sound Q (k a))
      → Sound Q (m >>= k)
  Sound-bind {m} {k} hm hk = record { at = λ s h. after k hk (m s) (hm.at s h) }

-- What goes before without a condition on its value.
pub Sound-after :
    {A B : Type 0} {Q : B → Type 0} {m : Parse A} {k : A → Parse B}
    → Sound Any m
    → ((a : A) → Sound Q (k a))
    → Sound Q (m >>= k)
Sound-after hm hk = Sound-bind hm λ a _. hk a

pub Sound-both : {p q : Parse Bool} → Sound Any p → Sound Any q → Sound Any (both p q)
Sound-both hp hq = Sound-after hp λ first. Sound-if first hq (Sound-go false tt)

lifted-Ends :
    {A : Type 0} (o : Outcome Sequences A) → Ends (λ _ t. Holds t) o → Ends (Good Any) (lifted o)
lifted-Ends (done a s) h = (tt, h)
lifted-Ends (exited code s) h = h
lifted-Ends fault h = tt
lifted-Ends (waiting s) h = h

-- A call of a function of the sequences.
pub Sound-lifted :
    {A : Type 0} (f : Sequences → Outcome Sequences A)
    → ((s : Sequences) → Holds s → Ends (λ _ t. Holds t) (f s))
    → Sound Any (λ s. lifted (f s))
Sound-lifted f h = record { at = λ s held. lifted-Ends (f s) (h s held) }

pub Sound-check : (r : JsonResult) → Sound Any (check r)
Sound-check JsonResult.all_ok = Sound-go tt tt
Sound-check JsonResult.open_file_error = Sound-give _ (λ e. cc)
Sound-check JsonResult.close_file_error = Sound-give _ (λ e. cc)
Sound-check JsonResult.allocation_error = Sound-give _ (λ e. cc)
Sound-check JsonResult.invalid_json = Sound-give _ (λ e. cc)
Sound-check JsonResult.led_sequences_not_initialized = Sound-give _ (λ e. cc)

free-Ends : (s : Sequences) → Holds s → Ends (λ _ t. Holds t) (free_led_sequences s)
free-Ends s (qs, v) = Ends-eq (λ _ t. Holds t) _ _ (free-array s qs v.array) (freed-Holds s)

pub to_u16-lt : (n : ℤ) → to_u16 n < 2 ^ 16
unfolding to_u16
to_u16-lt (ℤ.pos n) = omega arith
to_u16-lt (ℤ.negsuc n) = omega arith

pub to_byte-lt : (n : ℤ) → to_byte n < 256
unfolding to_byte
to_byte-lt (ℤ.pos n) = omega arith
to_byte-lt (ℤ.negsuc n) = omega arith

abbrev pub IsAddress : Address → Type 0
IsAddress a = (a.row < 2 ^ 16) × (a.column < 2 ^ 16)

module _ (json : List ℕ) (tokens : List Token) where
  pub token-Sound : (i : ℕ) → Sound Any (token json tokens i)
  unfolding token
  token-Sound i = Sound-need (get_elem? tokens i)

  pub is_key-Sound : (i : ℕ) (text : List ℕ) → Sound Any (is_key json tokens i text)
  unfolding is_key
  is_key-Sound i text = Sound-after (token-Sound i) λ t. Sound-go _ tt

  pub has_type-Sound : (i : ℕ) (type : JsmnType) → Sound Any (has_type json tokens i type)
  unfolding has_type
  has_type-Sound i type = Sound-after (token-Sound i) λ t. Sound-go _ tt

  pub incorrect_json-Sound :
      {A : Type 0} {P : A → Type 0} (i : ℕ) → Sound P (incorrect_json json tokens i)
  unfolding incorrect_json
  incorrect_json-Sound i = Sound-after (token-Sound i) λ t.
      Sound-after (Sound-lifted free_led_sequences free-Ends) λ _. Sound-give invalid_json (λ e. cc)

  pub number-Sound : (i : ℕ) → Sound Any (number json tokens i)
  unfolding number
  number-Sound i = Sound-after (token-Sound i) λ t. Sound-need _

  column_of-Sound :
      (i row : ℕ) (found : Option (List ℕ × List ℕ))
      → row < 2 ^ 16
      → Sound IsAddress (column_of json tokens i row found)
  unfolding column_of
  column_of-Sound i row none small = incorrect_json-Sound i
  column_of-Sound i row (some (second, _)) small =
      Sound-after (Sound-need (atoi second)) λ column. Sound-go _ (small, to_u16-lt column)

  address_of-Sound :
      (i : ℕ) (found : Option (List ℕ × List ℕ)) → Sound IsAddress (address_of json tokens i found)
  unfolding address_of
  address_of-Sound i none = incorrect_json-Sound i
  address_of-Sound i (some (first, rest)) =
      Sound-if (same_text all_text first) (Sound-go _ (omega arith, omega arith)) (
        Sound-after (Sound-need (atoi first))
          λ row. column_of-Sound i (to_u16 row) (strtok rest) (to_u16-lt row))

  module _ (i : ℕ) where
    pub led_address-Sound : Sound IsAddress (led_address json tokens i)
    unfolding led_address
    led_address-Sound =
        Sound-after (token-Sound i) λ t. address_of-Sound i (strtok (token_text json t))

    pub is_led-Sound : Sound Any (is_led json tokens i)
    unfolding is_led
    is_led-Sound = Sound-both (is_key-Sound (i + 2) addr_text) (
        Sound-both (has_type-Sound (i + 3) string) (
          Sound-both (is_key-Sound (i + 4) _) (
            Sound-both (has_type-Sound (i + 5) primitive) (
              Sound-both (is_key-Sound (i + 6) _) (
                Sound-both (has_type-Sound (i + 7) primitive)
                  (Sound-both (is_key-Sound (i + 8) _) (has_type-Sound (i + 9) primitive)))))))
