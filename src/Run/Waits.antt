-- ===== src/Run/Waits.antt =====
-- Waits that end: the loops around pico_stack_tick.
use ledcontroller.Prelude.{
  ℕ, zero, suc, ◌<◌, ◌≡◌, refl, ◌∙◌, Bool, true, false, ◌⊎◌, inl, inr, arith,
}
use ledcontroller.Run.{done, Run, wait_while}

-- While the test holds, `P` does, and each round lessens `left` or comes to `Q`, where the test fails.
module _ {S : Type 0} (test : S → Bool) (body : Run S (Unit {0})) (P Q : S → Type 0) (left : S → ℕ)
    (holds : (s : S) → P s → test s ≡ true) (fails : (s : S) → Q s → test s ≡ false)
    (step : (s : S)
      → P s
      → (s' : S) × (body s ≡ done tt s') × ((P s' × (left s' < left s)) ⊎ Q s')) where
  wait_while-fails : (fuel : ℕ) (s : S) → test s ≡ false → wait_while fuel test body s ≡ done tt s
  unfolding wait_while
  wait_while-fails zero s e = rw e refl
  wait_while-fails (suc fuel) s e = rw e refl

  wait_while-round :
      (fuel : ℕ) (s s' : S)
      → test s ≡ true
      → body s ≡ done tt s'
      → wait_while (suc fuel) test body s ≡ wait_while fuel test body s'
  unfolding wait_while
  wait_while-round fuel s s' e runs = rw (e, runs) refl

  -- Fuel above what is left is enough.
  pub wait_while-ends :
      (fuel : ℕ) (s : S)
      → P s
      → left s < fuel
      → (s' : S) × (wait_while fuel test body s ≡ done tt s') × Q s'
  wait_while-ends zero s p enough = absurd (omega (arith, enough))
  wait_while-ends (suc fuel) s p enough =
      let (s', runs, next) = step s p in
      let one = wait_while-round fuel s s' (holds s p) runs in
      elim next [
        | inl (p', less) ↦
            let (s'', runs', q) = wait_while-ends fuel s' p' (omega (arith, less, enough)) in
            (s'', one ∙ runs', q)
        | inr q ↦ (s', one ∙ wait_while-fails fuel s' (fails s' q), q)
      ]
