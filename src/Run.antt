-- ===== src/Run.antt =====
-- Stateful C code: it returns, calls exit, runs into what C leaves undefined (a fault), or is
-- still in a loop that waits when its fuel is used up.
pub mod Keeps
pub mod Waits
use ledcontroller.Prelude.{ℕ, zero, suc, Bool, false, List, [], ◌∷◌, ◌≡◌, ap, if◌then◌else◌}
use ledcontroller.Led.{CommError}

pub data Outcome (S A : Type 0) : Type 0 where
  done : A → S → Outcome S A
  exited : CommError → S → Outcome S A
  fault : Outcome S A
  waiting : S → Outcome S A

abbrev pub Run : Type 0 → Type 0 → Type 0
Run S A = S → Outcome S A

module _ {S A : Type 0} where
  abbrev pub pure : A → Run S A
  pure a s = done a s

  abbrev pub gets : (S → A) → Run S A
  gets f s = done (f s) s

  abbrev pub exit : CommError → Run S A
  exit code s = exited code s

  -- A loop whose fuel has run out.
  abbrev pub wait : Run S A
  wait s = waiting s

  abbrev pub undefined : Run S A
  undefined s = fault

abbrev pub modify : {S : Type 0} → (S → S) → Run S (Unit {0})
modify f s = done tt (f s)

module _ {S A B : Type 0} where
  abbrev pub continue : (A → Run S B) → Outcome S A → Outcome S B
  continue f (done a s) = f a s
  continue f (exited code s) = exited code s
  continue f fault = fault
  continue f (waiting s) = waiting s

  infixl 5 ◌>>=◌
  abbrev pub ◌>>=◌ : Run S A → (A → Run S B) → Run S B
  ◌>>=◌ m f s = continue f (m s)

infixl 5 ◌>>◌
abbrev pub ◌>>◌ : {S B : Type 0} → Run S (Unit {0}) → Run S B → Run S B
m >> n = m >>= λ _. n

-- `if (test) body`, with nothing in the other branch.
abbrev pub when : {S : Type 0} → Bool → Run S (Unit {0}) → Run S (Unit {0})
when test body = if test then body else pure tt

-- The calls of `body` for the entries of a list, in order.
unfoldable pub each : {S A : Type 0} → (A → Run S (Unit {0})) → List A → Run S (Unit {0})
each body [] = pure tt
each body (a ∷ rest) = do body a; each body rest

-- `while (test) body`, with at most `fuel` rounds.
unfoldable pub wait_while : {S : Type 0} → ℕ → (S → Bool) → Run S (Unit {0}) → Run S (Unit {0})
wait_while zero test body s = if test s then waiting s else done tt s
wait_while (suc fuel) test body s =
    let again = continue (λ _. wait_while fuel test body) (body s) in
    if test s then again else done tt s

module _ {S B : Type 0} where
  after_both :
      (n : Run S (Unit {0})) (k : Run S B) (o : Outcome S (Unit {0})) (t : S)
      → continue (λ _. n) o ≡ done tt t
      → continue (λ _. n >> k) o ≡ k t
  after_both n k (done a s) t e = ap (continue (λ _. k)) e
  after_both n k (exited code s) t e = cc
  after_both n k fault t e = cc
  after_both n k (waiting s) t e = cc

  -- Two steps that return, and what follows them.
  pub >>-done :
      (m n : Run S (Unit {0})) (k : Run S B) (s t : S)
      → (m >> n) s ≡ done tt t
      → (m >> (n >> k)) s ≡ k t
  >>-done m n k s t e = after_both n k (m s) t e

pub when-false :
    {S : Type 0} (test : Bool) (body : Run S (Unit {0})) (s : S)
    → test ≡ false
    → when test body s ≡ done tt s
when-false test body s e = rw e
