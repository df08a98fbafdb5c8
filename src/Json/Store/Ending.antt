-- ===== src/Json/Store/Ending.antt =====
-- Server/JSONToLeds.c: appendToCurrentSequence on any statics.
use mathlib.Core.Path.{subst}
use ledcontroller.Prelude.{ℕ, ◌≡◌, refl, ◌⊎◌, inl, inr, Bool, List, [], ◌∷◌, ◌++◌}
use ledcontroller.Led.{AddressableLed}
use ledcontroller.Run.{fault}
use ledcontroller.Json.{Sequences}
use ledcontroller.Json.Store.{current, append_to_current_sequence}
use ledcontroller.Json.Store.Stored.{Sequence, IsStored, IsLed, Ends, Ends-eq, Holds}
use ledcontroller.Json.Store.Appending.{append_to_current_sequence-Ends}

-- A list is empty or has a last entry.
last_cases :
    (qs : List Sequence) → (qs ≡ []) ⊎ ((rs : List Sequence) × (r : Sequence) × (qs ≡ rs ++ r ∷ []))
last_cases [] = inl refl
last_cases (q ∷ qs) = elim (last_cases qs) [
  | inl e ↦ inr ([], q, rw e refl)
  | inr (rs, r, e) ↦ inr (q ∷ rs, r, rw e refl)
]

module _ (grants : ℕ → Bool) where
  -- Without a sequence there is no current one.
  append_to_none :
      (led : AddressableLed) (s : Sequences)
      → IsStored [] s
      → append_to_current_sequence grants led s ≡ fault
  unfolding append_to_current_sequence current
  append_to_none led s v =
      let zero_number : s.number_of_sequences ≡ 0 = v.number in
      elim v.array [ inl e ↦ rw (zero_number, e) refl | inr (e, _) ↦ rw (zero_number, e) refl ]

  pub append-Ends :
      (led : AddressableLed)
      → IsLed led
      → (s : Sequences) → Holds s
      → Ends (λ r t. Holds t) (append_to_current_sequence grants led s)
  append-Ends led fits s (qs, v) = elim (last_cases qs) [
    | inl e ↦
        Ends-eq (λ r t. Holds t) _ fault (append_to_none led s (subst (λ x. IsStored x s) e v)) tt
    | inr (rs, r, e) ↦
        append_to_current_sequence-Ends rs r s (subst (λ x. IsStored x s) e v) grants led fits
  ]
