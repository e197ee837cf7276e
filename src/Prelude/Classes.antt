-- ===== src/Prelude/Classes.antt =====
-- Equality of keys as an instance argument, for template parameters of the source.
use Prim.Native.Nat.{ℕ}
use mathlib.Core.Path.{◌≡◌}
use mathlib.Core.Logic.{◌↔◌}
use mathlib.Core.Bool.{Bool, true}
use network_algo.Prelude.Tests.{==_iff}
use network_algo.Prelude.Tests.{◌==◌ as nat_eq}
use network_algo.Prelude.Texts.{Text, text_eq, text_eq_iff}

pub record Eq {ℓ} (A : Type ℓ) : Type ℓ where
  pub eq : A → A → Bool
  pub eq_iff : (a b : A) → (eq a b ≡ true) ↔ (a ≡ b)

instance abbrev pub ℕ_eq : Eq ℕ
ℕ_eq = record { eq = nat_eq; eq_iff = ==_iff }

instance abbrev pub Text_eq : Eq Text
Text_eq = record { eq = text_eq; eq_iff = text_eq_iff }
