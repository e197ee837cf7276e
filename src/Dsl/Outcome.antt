-- ===== src/Dsl/Outcome.antt =====
-- The outcome of code that reads a stream or a token queue: the state comes back with a value and
-- with an exception. `undefined` is undefined behaviour, `front()` of an empty deque. `out_of_fuel`
-- has no counterpart in the program.
use network_algo.Prelude.{◌≡◌, ◌≢◌, Bool, true, false, refl, if◌then◌else◌}
use network_algo.Dsl.Syntax.{Exception}

pub data Outcome (S A : Type 0) : Type 0 where
  ok : A → S → Outcome S A
  throw : Exception → S → Outcome S A
  undefined out_of_fuel : Outcome S A

abbrev pub Action : Type 0 → Type 0 → Type 0
Action S A = S → Outcome S A

abbrev pub pure : {S A : Type 0} → A → Action S A
pure a s = ok a s

abbrev pub bind : {S A B : Type 0} → Outcome S A → (A → Action S B) → Outcome S B
bind (ok a s) f = f a s
bind (throw e s) f = throw e s
bind undefined f = undefined
bind out_of_fuel f = out_of_fuel

infixl 5 ◌>>=◌ ◌>>◌
abbrev pub ◌>>=◌ : {S A B : Type 0} → Action S A → (A → Action S B) → Action S B
m >>= f = λ s. bind (m s) f

abbrev pub ◌>>◌ : {S A B : Type 0} → Action S A → Action S B → Action S B
m >> k = m >>= λ _. k

-- `P` holds of the value and the state if there is one, and the fuel did not run out.
pub data Ensures {S A : Type 0} (P : A → S → Type 0) : Outcome S A → Type 0 where
  returned : {a : A} {s : S} → P a s → Ensures P (ok a s)
  thrown : {e : Exception} {s : S} → Ensures P (throw e s)
  faulted : Ensures P undefined

module _ {S A : Type 0} {P : A → S → Type 0} where
  pub Ensures-out_of_fuel : {r : Outcome S A} → Ensures P r → r ≢ out_of_fuel
  Ensures-out_of_fuel (returned h) = cc
  Ensures-out_of_fuel thrown = cc
  Ensures-out_of_fuel faulted = cc

  pub Ensures-if :
      (b : Bool) {x y : Outcome S A}
      → (b ≡ true → Ensures P x)
      → (b ≡ false → Ensures P y)
      → Ensures P (if b then x else y)
  Ensures-if true hx hy = hx refl
  Ensures-if false hx hy = hy refl

  -- The same where the branches are actions.
  pub Ensures-branch :
      (b : Bool) (f g : Action S A) (s : S)
      → (b ≡ true → Ensures P (f s))
      → (b ≡ false → Ensures P (g s))
      → Ensures P ((if b then f else g) s)
  Ensures-branch true f g s hf hg = hf refl
  Ensures-branch false f g s hf hg = hg refl

  pub Ensures-bind :
      {B : Type 0} {Q : B → S → Type 0} {r : Outcome S A} {f : A → Action S B}
      → Ensures P r
      → ((a : A) (s : S) → P a s → Ensures Q (f a s))
      → Ensures Q (bind r f)
  Ensures-bind (returned {a} {s} h) k = k a s h
  Ensures-bind thrown k = thrown
  Ensures-bind faulted k = faulted

pub Ensures-weaken :
    {S A : Type 0} {P Q : A → S → Type 0} {r : Outcome S A}
    → Ensures P r
    → ((a : A) (s : S) → P a s → Q a s)
    → Ensures Q r
Ensures-weaken (returned {a} {s} h) k = returned (k a s h)
Ensures-weaken thrown k = thrown
Ensures-weaken faulted k = faulted
