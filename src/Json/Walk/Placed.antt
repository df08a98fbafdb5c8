-- ===== src/Json/Walk/Placed.antt =====
-- Server/JSONToLeds.c: strTokenCompare, by the place of the text in the document.
use ledcontroller.Prelude.{
  ℕ, zero, suc, ◌+◌, ◌-◌, ◌≤◌, ◌≡◌, refl, sym, ap, ◌∙◌, ◌↔◌, true, List, [], ◌∷◌, ◌++◌, arith,
  length, take, drop, length-append,
}
use ledcontroller.Json.{string, Token}
use ledcontroller.Json.Text.{token_text, str_token_compare}
use ledcontroller.Json.Walk.Tokens.{str_token_compare_iff}

take-drop : (n : ℕ) (xs : List ℕ) → take n xs ++ drop n xs ≡ xs
take-drop zero xs = refl
take-drop (suc n) [] = refl
take-drop (suc n) (x ∷ xs) = ap (λ rest. x ∷ rest) (take-drop n xs)

length-take : (n : ℕ) (xs : List ℕ) → n ≤ length xs → length (take n xs) ≡ n
length-take zero xs h = refl
length-take (suc n) [] h = absurd (omega (arith, h))
length-take (suc n) (x ∷ xs) h = ap suc (length-take n xs (omega (arith, h)))

take-append : (n : ℕ) (xs ys : List ℕ) → length xs ≡ n → take n (xs ++ ys) ≡ xs
take-append zero [] ys h = refl
take-append zero (x ∷ xs) ys h = absurd (omega (arith, h))
take-append (suc n) [] ys h = absurd (omega (arith, h))
take-append (suc n) (x ∷ xs) ys h = ap (λ rest. x ∷ rest) (take-append n xs ys (omega (arith, h)))

drop-append : (n : ℕ) (xs ys : List ℕ) → length xs ≡ n → drop n (xs ++ ys) ≡ ys
drop-append zero [] ys h = refl
drop-append zero (x ∷ xs) ys h = absurd (omega (arith, h))
drop-append (suc n) [] ys h = absurd (omega (arith, h))
drop-append (suc n) (x ∷ xs) ys h = drop-append n xs ys (omega (arith, h))

-- The token is a string that stands for `text`, between what is before and after it in `json`.
pub record IsPlaced (json text : List ℕ) (t : Token) : Type 0 where
  pub before : List ℕ
  pub after : List ℕ
  pub is_string : t.type ≡ string
  pub split : json ≡ before ++ (text ++ after)
  pub starts : length before ≡ t.start
  pub ends : t.end ≡ length (before ++ text)

token_text-placed :
    (before text after : List ℕ) (t : Token)
    → length before ≡ t.start
    → t.end ≡ length before + length text
    → token_text (before ++ (text ++ after)) t ≡ text
unfolding token_text
token_text-placed before text after t starts ends =
    let size : length text ≡ t.end - t.start = omega (arith, starts, ends) in
    ap (take (t.end - t.start)) (drop-append t.start before (text ++ after) starts)
    ∙ take-append (t.end - t.start) text after size

-- For a token that starts within the document, `strTokenCompare` finds the text exactly if the token
-- is a string, and the document has that text between the places where the token starts and ends.
pub str_token_compare-IsPlaced :
    (json text : List ℕ) (t : Token)
    → t.start ≤ length json
    → (str_token_compare json t text ≡ true) ↔ IsPlaced json text t
unfolding token_text
str_token_compare-IsPlaced json text t within = (
  λ same.
      let (is_string, ends, found) = (str_token_compare_iff json text t).0 same in
      let tail = drop t.start json in
      let head = length-take t.start json within in
      record {
        before = take t.start json;
        after = drop (t.end - t.start) tail;
        is_string = is_string;
        split =
            sym (take-drop t.start json)
            ∙ ap (λ rest. take t.start json ++ rest)
                (sym (take-drop (t.end - t.start) tail)
                  ∙ ap (λ found. found ++ drop (t.end - t.start) tail) found);
        starts = head;
        ends = omega (arith, ends, head, length-append (take t.start json) text);
      },
  λ p.
      let whole = length-append p.before text in
      (str_token_compare_iff json text t).1 (
        p.is_string,
        omega (arith, p.starts, p.ends, whole),
        ap (λ document. token_text document t) p.split
            ∙ token_text-placed p.before text p.after t p.starts (omega (arith, p.ends, whole)),
      ),
)
