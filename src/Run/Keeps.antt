-- ===== src/Run/Keeps.antt =====
-- Invariants of stateful code, one rule for each way to build it.
use ledcontroller.Prelude.{
  ◌≡◌, ℕ, zero, suc, Bool, true, false, List, [], ◌∷◌, Option, none, some, if◌then◌else◌,
}
use ledcontroller.Led.{CommError}
use ledcontroller.Run.{
  Outcome, done, exited, fault, waiting, Run, pure, gets, exit, wait, modify, continue, ◌>>=◌, when,
  each, wait_while,
}

-- The code did not fault, and where it returned, exited or waits, `P` holds of the state.
abbrev pub Safe : {S A : Type 0} → (S → Type 0) → Outcome S A → Type 0
Safe P (done a s) = P s
Safe P (exited code s) = P s
Safe P fault = ⊥
Safe P (waiting s) = P s

-- `m` keeps the invariant `P`, and cannot fault where it holds.
pub record Keeps {S A : Type 0} (P : S → Type 0) (m : Run S A) : Type 0 where
  pub at : (s : S) → P s → Safe P (m s)

module _ {S A : Type 0} {P : S → Type 0} where
  pub Keeps-pure : (a : A) → Keeps P (pure a)
  Keeps-pure a = record { at = λ s h. h }

  pub Keeps-gets : (f : S → A) → Keeps P (gets f)
  Keeps-gets f = record { at = λ s h. h }

  pub Keeps-exit : (code : CommError) → Keeps P (exit {A = A} code)
  Keeps-exit code = record { at = λ s h. h }

  pub Keeps-wait : Keeps P (wait {A = A})
  Keeps-wait = record { at = λ s h. h }

  pub Keeps-if : (b : Bool) {m n : Run S A} → Keeps P m → Keeps P n → Keeps P (if b then m else n)
  Keeps-if true km kn = km
  Keeps-if false km kn = kn

module _ {S : Type 0} {P : S → Type 0} where
  pub Keeps-modify : (f : S → S) → ((s : S) → P s → P (f s)) → Keeps P (modify f)
  Keeps-modify f h = record { at = h }

  pub Keeps-when : (b : Bool) {m : Run S (Unit {0})} → Keeps P m → Keeps P (when b m)
  Keeps-when true km = km
  Keeps-when false km = record { at = λ s h. h }

pub Safe-if :
    {S A : Type 0} (P : S → Type 0) (b : Bool) (m n : Outcome S A)
    → Safe P m
    → Safe P n
    → Safe P (if b then m else n)
Safe-if P true m n hm hn = hm
Safe-if P false m n hm hn = hn

-- The test holds, so the other branch is not taken.
pub Safe-holds :
    {S A : Type 0} (P : S → Type 0) (b : Bool) (m n : Outcome S A)
    → b ≡ true
    → Safe P m
    → Safe P (if b then m else n)
Safe-holds P true m n e h = h
Safe-holds P false m n e h = cc

pub Safe-option :
    {S A B : Type 0} (P : S → Type 0) (o : Option B) (m : Outcome S A) (f : B → Outcome S A)
    → Safe P m
    → ((b : B) → Safe P (f b))
    → Safe P (elim o [ none ↦ m | some b ↦ f b ])
Safe-option P none m f hm hf = hm
Safe-option P (some b) m f hm hf = hf b

module _ {S A B : Type 0} {P : S → Type 0} where
  Safe-continue :
      (f : A → Run S B)
      → ((a : A) → Keeps P (f a))
      → (o : Outcome S A) → Safe P o
      → Safe P (continue f o)
  Safe-continue f kf (done a s) h = (kf a).at s h
  Safe-continue f kf (exited code s) h = h
  Safe-continue f kf fault h = h
  Safe-continue f kf (waiting s) h = h

  pub Keeps-bind :
      {m : Run S A} {f : A → Run S B} → Keeps P m → ((a : A) → Keeps P (f a)) → Keeps P (m >>= f)
  Keeps-bind {m} {f} km kf = record { at = λ s h. Safe-continue f kf (m s) (km.at s h) }

module _ {S : Type 0} {P : S → Type 0} where
  pub Keeps-each :
      {A : Type 0} (body : A → Run S (Unit {0})) (xs : List A)
      → ((a : A) → Keeps P (body a))
      → Keeps P (each body xs)
  unfolding each
  Keeps-each body [] h = record { at = λ s v. v }
  Keeps-each body (a ∷ xs) h = Keeps-bind (h a) λ _. Keeps-each body xs h

  pub Keeps-wait_while :
      (fuel : ℕ) (test : S → Bool) (body : Run S (Unit {0}))
      → Keeps P body
      → Keeps P (wait_while fuel test body)
  unfolding wait_while
  Keeps-wait_while zero test body h = record { at = λ s v. Safe-if P (test s) _ _ v v }
  Keeps-wait_while (suc fuel) test body h = record {
    at = λ s v.
        Safe-if P (test s) _ _ ((Keeps-bind h λ _. Keeps-wait_while fuel test body h).at s v) v;
  }
