-- ===== src/Json/Store/Arrays.antt =====
-- Arrays of pointers that NULL ends, and what the functions of Json/Store do to them.
use ledcontroller.Prelude.{
  ℕ, zero, suc, ◌+◌, ◌-◌, ◌≡◌, refl, sym, ap, ◌∙◌, true, List, [], ◌∷◌, ◌++◌, some, arith, length,
  get_elem?, set, take, replicate, length-append,
}
use ledcontroller.Led.{Cell, unset, null, holds}
use ledcontroller.Json.Store.{resize, write, write_last, write_two, is_closed}

module _ {A : Type 0} where
  -- Pointers to blocks with these contents, then `tail`.
  abbrev pub cells : List A → List (Cell A) → List (Cell A)
  cells [] tail = tail
  cells (x ∷ xs) tail = holds x ∷ cells xs tail

  abbrev pub closed : List A → List (Cell A)
  closed xs = cells xs (null ∷ [])

  pub length-cells :
      (xs : List A) (tail : List (Cell A)) → length (cells xs tail) ≡ length xs + length tail
  length-cells [] tail = omega arith
  length-cells (x ∷ xs) tail = omega (arith, length-cells xs tail)

  pub cells-append :
      (xs : List A) (x : A) (tail : List (Cell A))
      → cells (xs ++ x ∷ []) tail ≡ cells xs (holds x ∷ tail)
  cells-append [] x tail = refl
  cells-append (y ∷ xs) x tail = ap (◌∷◌ (holds y)) (cells-append xs x tail)

  take-cells :
      (xs : List A) (n : ℕ) (tail : List (Cell A))
      → n ≡ length xs + length tail + 1
      → take n (cells xs tail) ≡ cells xs tail
  take-cells [] zero tail e = absurd (omega arith)
  take-cells [] (suc n) [] e = refl
  take-cells [] (suc n) (c ∷ tail) e = ap (◌∷◌ c) (take-cells [] n tail (omega arith))
  take-cells (x ∷ xs) zero tail e = absurd (omega arith)
  take-cells (x ∷ xs) (suc n) tail e = ap (◌∷◌ (holds x)) (take-cells xs n tail (omega arith))

  cells-tail :
      (xs : List A) (tail more : List (Cell A)) → cells xs tail ++ more ≡ cells xs (tail ++ more)
  cells-tail [] tail more = refl
  cells-tail (x ∷ xs) tail more = ap (◌∷◌ (holds x)) (cells-tail xs tail more)

  set-cells :
      (xs : List A) (i : ℕ) (c d : Cell A) (tail : List (Cell A))
      → i ≡ length xs
      → set (cells xs (c ∷ tail)) i d ≡ cells xs (d ∷ tail)
  set-cells [] zero c d tail e = refl
  set-cells [] (suc i) c d tail e = absurd (omega arith)
  set-cells (x ∷ xs) zero c d tail e = absurd (omega arith)
  set-cells (x ∷ xs) (suc i) c d tail e = ap (◌∷◌ (holds x)) (set-cells xs i c d tail (omega arith))

  pub get_elem?-cells :
      (xs : List A) (c : Cell A) (tail : List (Cell A))
      → get_elem? (cells xs (c ∷ tail)) (length xs) ≡ some c
  get_elem?-cells [] c tail = refl
  get_elem?-cells (x ∷ xs) c tail = get_elem?-cells xs c tail

  -- Room for one more entry.
  pub resize-closed :
      (xs : List A)
      → resize (suc (suc (length xs))) (some (closed xs)) ≡ cells xs (null ∷ unset ∷ [])
  unfolding resize
  resize-closed xs =
      let one : suc (suc (length xs)) - length (closed xs) ≡ 1 =
        omega (arith, length-cells xs (null ∷ [])) in
      ap (λ n. take (suc (suc (length xs))) (closed xs) ++ replicate n unset) one
      ∙ ap (λ l. l ++ unset ∷ []) (take-cells xs (suc (suc (length xs))) (null ∷ []) (omega arith))
      ∙ cells-tail xs (null ∷ []) (unset ∷ [])

  write-cells :
      (xs : List A) (c d : Cell A) (tail : List (Cell A))
      → write (cells xs (c ∷ tail)) (length xs) d ≡ some (cells xs (d ∷ tail))
  unfolding write
  write-cells xs c d tail =
      ground (arith, length-cells xs (c ∷ tail), set-cells xs (length xs) c d tail refl)

  pub write_last-cells :
      (xs : List A) (c d : Cell A) (tail : List (Cell A))
      → write_last (cells xs (c ∷ tail)) (suc (length xs)) d ≡ some (cells xs (d ∷ tail))
  unfolding write_last
  write_last-cells xs c d tail = write-cells xs c d tail

  length-snoc : (xs : List A) (x : A) → length (xs ++ x ∷ []) ≡ suc (length xs)
  length-snoc xs x = omega (arith, length-append xs (x ∷ []))

  pub write_two-cells :
      (xs : List A) (c d : Cell A) (x : A)
      → write_two (cells xs (c ∷ d ∷ [])) (suc (length xs)) (holds x) null
        ≡ some (closed (xs ++ x ∷ []))
  unfolding write_two
  write_two-cells xs c d x =
      let second : write (cells xs (holds x ∷ d ∷ [])) (suc (length xs)) null
          ≡ some (closed (xs ++ x ∷ [])) =
        ap (λ l. write l (suc (length xs)) null) (sym (cells-append xs x (d ∷ [])))
        ∙ ap (λ n. write (cells (xs ++ x ∷ []) (d ∷ [])) n null) (sym (length-snoc xs x))
        ∙ write-cells (xs ++ x ∷ []) d null [] in
      rw (write-cells xs c (holds x) (d ∷ []), write_two) second

  pub is_closed-cells :
      (xs : List A) (tail : List (Cell A)) → is_closed (cells xs (null ∷ tail)) ≡ true
  unfolding is_closed
  is_closed-cells [] tail = refl
  is_closed-cells (x ∷ xs) tail = is_closed-cells xs tail

  -- One more entry, written: the array with one more pointer, NULL still behind it.
  pub grow-closed :
      (xs : List A) (x : A)
      → write_two
          (resize (suc (suc (length xs))) (some (closed xs)))
          (suc (length xs))
          (holds x)
          null
        ≡ some (closed (xs ++ x ∷ []))
  grow-closed xs x = rw (resize-closed xs) (write_two-cells xs null unset x)
