-- ===== src/Stdin/Bounds.antt =====
-- The size of what sscanf stores with %hu.
use ledcontroller.Prelude.{ℕ, ◌^◌, ◌<◌, ◌≡◌, refl, List, [], ◌∷◌, Option, none, some, arith}
use ledcontroller.Stdin.{
  c_string, signed_hu, skip_spaces, scan_hu, sscanf_second, sscanf_first, sscanf_hu_hu,
}

signed_hu-lt : (text rest : List ℕ) (n : ℕ) → signed_hu text ≡ some (n, rest) → n < 2 ^ 16
unfolding signed_hu
signed_hu-lt [] rest n e = cc
signed_hu-lt (c ∷ cs) rest n e = ground arith

scan_hu-lt : (text rest : List ℕ) (n : ℕ) → scan_hu text ≡ some (n, rest) → n < 2 ^ 16
unfolding scan_hu
scan_hu-lt text rest n e = signed_hu-lt (skip_spaces text) rest n e

second-lt :
    (n b : ℕ) (found : Option (ℕ × List ℕ))
    → n < 2 ^ 16
    → b < 2 ^ 16
    → ((m : ℕ) (rest : List ℕ) → found ≡ some (m, rest) → m < 2 ^ 16)
    → ((sscanf_second n found b).0 < 2 ^ 16) × ((sscanf_second n found b).1 < 2 ^ 16)
unfolding sscanf_second
second-lt n b none hn hb h = (hn, hb)
second-lt n b (some (m, rest)) hn hb h = (hn, h m rest refl)

first-lt :
    (a b : ℕ) (found : Option (ℕ × List ℕ))
    → a < 2 ^ 16
    → b < 2 ^ 16
    → ((n : ℕ) (rest : List ℕ) → found ≡ some (n, rest) → n < 2 ^ 16)
    → ((sscanf_first found a b).0 < 2 ^ 16) × ((sscanf_first found a b).1 < 2 ^ 16)
unfolding sscanf_first
first-lt a b none ha hb h = (ha, hb)
first-lt a b (some (n, rest)) ha hb h =
    second-lt n b (scan_hu rest) (h n rest refl) hb (λ m tail. scan_hu-lt rest tail m)

-- The scan stores only unsigned shorts, whatever the line.
pub sscanf_hu_hu-lt :
    (line : List ℕ) (a b : ℕ)
    → a < 2 ^ 16
    → b < 2 ^ 16
    → ((sscanf_hu_hu line a b).0 < 2 ^ 16) × ((sscanf_hu_hu line a b).1 < 2 ^ 16)
unfolding sscanf_hu_hu
sscanf_hu_hu-lt line a b ha hb =
    first-lt a b (scan_hu (c_string line)) ha hb (λ n rest. scan_hu-lt (c_string line) rest n)
