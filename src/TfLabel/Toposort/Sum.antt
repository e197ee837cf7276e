-- ===== src/TfLabel/Toposort/Sum.antt =====
-- Sums over the nodes, for the degrees that `toposort` of include/algorithm/tflabel.hpp counts.
use network_algo.Prelude.{
  ℕ, zero, suc, ◌+◌, ◌≤◌, ◌<◌, ◌≡◌, refl, Bool, true, false, List, [], ◌∷◌, ◌++◌, ◌==◌,
  if◌then◌else◌, arith,
}
use network_algo.TfLabel.{store}

-- How often a number stands in a list.
abbrev pub occ : ℕ → List ℕ → ℕ
occ y [] = 0
occ y (x ∷ xs) = (if x == y then 1 else 0) + occ y xs

pub occ-append : (y : ℕ) (xs ys : List ℕ) → occ y (xs ++ ys) ≡ occ y xs + occ y ys
occ-append y [] ys = omega arith
occ-append y (x ∷ xs) ys = omega (arith, occ-append y xs ys)

-- The sum below a bound of what is not done.
abbrev pub rest_sum : ℕ → (ℕ → Bool) → (ℕ → ℕ) → ℕ
rest_sum zero done f = 0
rest_sum (suc n) done f = (if done n then 0 else f n) + rest_sum n done f

rest_sum-outside :
    (n x : ℕ) (done : ℕ → Bool) (f : ℕ → ℕ)
    → n ≤ x
    → rest_sum n (store done x true) f ≡ rest_sum n done f
rest_sum-outside zero x done f h = refl
rest_sum-outside (suc n) x done f h = ground (arith, rest_sum-outside n x done f)

-- Doing one more takes its share away.
pub rest_sum-store :
    (n x : ℕ) (done : ℕ → Bool) (f : ℕ → ℕ)
    → x < n
    → done x ≡ false
    → rest_sum n done f ≡ f x + rest_sum n (store done x true) f
rest_sum-store zero x done f h fresh = absurd (omega arith)
rest_sum-store (suc n) x done f h fresh =
    ground (arith, rest_sum-store n x done f, rest_sum-outside n x done f, fresh)

-- Nothing is left of what is done where it counts.
pub rest_sum-zero :
    (n : ℕ) (done : ℕ → Bool) (f : ℕ → ℕ)
    → ((i : ℕ) → i < n → done i ≡ false → f i ≡ 0)
    → rest_sum n done f ≡ 0
rest_sum-zero zero done f h = refl
rest_sum-zero (suc n) done f h =
    ground (arith, rest_sum-zero n done f (λ i u. h i (omega arith)), h n)
