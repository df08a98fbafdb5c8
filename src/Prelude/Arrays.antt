-- ===== src/Prelude/Arrays.antt =====
-- Writes to an array of fixed size, which are undefined past its end: `none`.
use Prim.Native.Nat.{ℕ, ◌≤◌, ◌<◌}
use mathlib.Core.Path.{◌≡◌}
use mathlib.Core.List.{List}
use mathlib.Core.Option.{Option, none, some}
use native.Mathlib.Omega.{arith}
use ledcontroller.Prelude.Lists.{length, set, overwrite}
use ledcontroller.Prelude.Tests.{ltb, leb, if◌then◌else◌}

module _ {ℓ} {A : Type ℓ} where
  -- array[i] = v, on the array that the writes before left.
  unfoldable pub put : Option (List A) → ℕ → A → Option (List A)
  put none i v = none
  put (some xs) i v = if ltb i (length xs) then some (set xs i v) else none

  -- A copy of all elements to the array's start.
  unfoldable pub copy : List A → List A → Option (List A)
  copy xs ys = if leb (length ys) (length xs) then some (overwrite xs ys) else none

  pub put-set :
      (xs : List A) (i : ℕ) (v : A) → i < length xs → put (some xs) i v ≡ some (set xs i v)
  unfolding put
  put-set xs i v h = ground arith

  pub copy-overwrite :
      (xs ys : List A) → length ys ≤ length xs → copy xs ys ≡ some (overwrite xs ys)
  unfolding copy
  copy-overwrite xs ys h = ground arith
