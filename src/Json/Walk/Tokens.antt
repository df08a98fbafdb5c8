-- ===== src/Json/Walk/Tokens.antt =====
-- Server/JSONToLeds.c: what the tests on tokens answer on the tokens of a document.
use mathlib.Core.Path.{ap₂, subst}
use ledcontroller.Prelude.{
  ℕ, ◌^◌, ◌<◌, ◌≤◌, ◌≡◌, refl, sym, inl, inr, Bool-cases, ap, ◌∙◌, ◌↔◌, Bool, true, false, ==_iff,
  ◌&&◌, List, [], ◌∷◌, Option, some, pos, arith, get_elem?,
}
use ledcontroller.Stdin.{same_text}
use ledcontroller.Run.{done}
use ledcontroller.Led.{Address}
use ledcontroller.Json.{JsmnType, string, array, object, primitive, undefined, Token, Sequences}
use ledcontroller.Json.Text.{token_text, is_type, str_token_compare, strtok}
use ledcontroller.Json.Text.Decimal.{
  IsDecimal, atoi-IsDecimal, strtok-first, strtok-last, same_text-digits, to_u16-small,
}
use ledcontroller.Json.Walk.{
  go, Parse, and_then, ◌>>=◌, go_on, both, need, token, is_key, has_type, number, column_of,
  address_of, led_address,
}
use ledcontroller.Json.Walk.Document.{IsAddressText, all_leds, grid, IsString, IsNumber, At}

-- A step that goes on with a value, and leaves the statics alone.
pub record Answers {A : Type 0} (m : Parse A) (a : A) : Type 0 where
  pub at : (s : Sequences) → m s ≡ done (go a) s

module _ {A : Type 0} where
  Answers-go : (a : A) → Answers (go_on a) a
  Answers-go a = record { at = λ s. refl }

  Answers-need : (o : Option A) (a : A) → o ≡ some a → Answers (need o) a
  Answers-need o a e = record { at = λ s. rw e refl }

  Answers-as : {m : Parse A} {a b : A} → a ≡ b → Answers m a → Answers m b
  Answers-as {m} e h = subst (Answers m) e h

pub Answers-bind :
    {A B : Type 0} {m : Parse A} (k : A → Parse B) {a : A} {b : B}
    → Answers m a
    → Answers (k a) b
    → Answers (m >>= k) b
Answers-bind k hm hk = record { at = λ s. ap (and_then k) (hm.at s) ∙ hk.at s }

pub Answers-both : {p q : Parse Bool} → Answers p true → Answers q true → Answers (both p q) true
Answers-both hp hq = Answers-bind _ hp hq

same_text_refl : (xs : List ℕ) → same_text xs xs ≡ true
unfolding same_text
same_text_refl [] = refl
same_text_refl (x ∷ xs) = let rest = same_text_refl xs in ground arith

same_text-equal : (xs ys : List ℕ) → same_text xs ys ≡ true → xs ≡ ys
unfolding same_text
same_text-equal [] [] h = refl
same_text-equal [] (y ∷ ys) h = cc
same_text-equal (x ∷ xs) [] h = cc
same_text-equal (x ∷ xs) (y ∷ ys) h = ap₂ ◌∷◌ (ground arith) (same_text-equal xs ys (ground arith))

is_type_refl : (a : JsmnType) → is_type a a ≡ true
unfolding is_type
is_type_refl undefined = refl
is_type_refl object = refl
is_type_refl array = refl
is_type_refl string = refl
is_type_refl primitive = refl

is_type-string : (a : JsmnType) → is_type a string ≡ true → a ≡ string
unfolding is_type
is_type-string undefined h = cc
is_type-string object h = cc
is_type-string array h = cc
is_type-string string h = refl
is_type-string primitive h = cc

and-true : (a b : Bool) → (a && b) ≡ true → (a ≡ true) × (b ≡ true)
and-true true b h = (refl, h)
and-true false b h = cc

-- `strTokenCompare` says that a token has a text exactly if the token is a string whose characters
-- are those of the text, and which ends where the text would.
pub str_token_compare_iff :
    (json text : List ℕ) (t : Token) → (str_token_compare json t text ≡ true) ↔ IsString json text t
unfolding str_token_compare
str_token_compare_iff json text t = (
  λ h.
      let (is_string, rest) = and-true _ _ h in
      let (ends, same) = and-true _ _ rest in
      (is_type-string t.type is_string, (==_iff _ _).0 ends, same_text-equal _ _ same),
  λ (is_string, ends, same). rw (is_string, same, same_text_refl text, (==_iff _ _).1 ends) refl,
)

module _ (json : List ℕ) (tokens : List Token) where
  module _ (i : ℕ) where
    pub token-At :
        {P : Token → Type 0} (at : At json tokens i P) → Answers (token json tokens i) at.0
    unfolding token
    token-At at = Answers-need (get_elem? tokens i) at.0 at.1

    pub is_key-IsString :
        {text : List ℕ}
        → At json tokens i (IsString json text)
        → Answers (is_key json tokens i text) true
    unfolding is_key
    is_key-IsString {text} at =
        Answers-bind _ (token-At at)
          (Answers-as ((str_token_compare_iff json text at.0).1 at.2) (Answers-go _))

    pub is_key-other :
        {text : List ℕ} (other : List ℕ)
        → At json tokens i (IsString json text)
        → same_text text other ≡ false
        → Answers (is_key json tokens i other) false
    unfolding is_key
    is_key-other {text} other at differ =
        Answers-bind _ (token-At at) (Answers-as refused (Answers-go _))
      where
        refused : str_token_compare json at.0 other ≡ false
        refused = elim (Bool-cases (str_token_compare json at.0 other)) [
          | inl same ↦
              let found = (str_token_compare_iff json other at.0).0 same in
              let texts : text ≡ other = sym at.2.2 ∙ found.2 in
              let alike : same_text text other ≡ true = rw texts (same_text_refl other) in cc
          | inr e ↦ e
        ]

    pub has_type-At :
        {type : JsmnType} {P : Token → Type 0}
        → (at : At json tokens i P) → at.0.type ≡ type
        → Answers (has_type json tokens i type) true
    unfolding has_type
    has_type-At {type} at e =
        Answers-bind _ (token-At at) (Answers-as (rw e (is_type_refl type)) (Answers-go _))

    pub number-At :
        {bound n : ℕ}
        → bound ≤ 2 ^ 31
        → At json tokens i (IsNumber json bound n)
        → Answers (number json tokens i) (pos n)
    unfolding number
    number-At fits at =
        Answers-bind _ (token-At at)
          (Answers-need _ _ (atoi-IsDecimal _ _ at.2.1 (omega (arith, fits, at.2.2))))

    column_of-IsDecimal :
        (row column : ℕ) (second : List ℕ)
        → IsDecimal second column
        → column < 2 ^ 16
        → Answers
            (column_of json tokens i row (some (second, [])))
            (record { row = row; column = column })
    unfolding column_of
    column_of-IsDecimal row column second d small =
        Answers-bind _ (Answers-need _ _ (atoi-IsDecimal second column d (omega (arith, small))))
          (rw (to_u16-small column small) (Answers-go _))

    address_of-IsAddressText :
        {address : Address} (text : List ℕ)
        → IsAddressText text address
        → Answers (address_of json tokens i (strtok text)) address
    unfolding address_of same_text
    address_of-IsAddressText text all_leds = unfold strtok in Answers-go _
    address_of-IsAddressText text (grid {first} {second} {row} {column} a b small small') =
        rw (strtok-first first second row a, same_text-digits first row a)
          (Answers-bind _ (Answers-need _ _ (atoi-IsDecimal first row a (omega (arith, small)))) (
            rw (to_u16-small row small, strtok-last second column b)
              (column_of-IsDecimal row column second b small')))

    pub led_address-At :
        {address : Address}
        → At json tokens i (λ t. (t.type ≡ string) × IsAddressText (token_text json t) address)
        → Answers (led_address json tokens i) address
    unfolding led_address
    led_address-At at = Answers-bind _ (token-At at) (address_of-IsAddressText _ at.2.1)
