-- ===== src/Shared/Arrays.antt =====
-- C arrays and pointer fields as functions of the index or address.
use Prim.Native.Nat.{ℕ}
use mathlib.Core.Path.{◌≡◌}
use mathlib.Core.Logic.{◌≢◌}
use native.Mathlib.Omega.{arith}
use paohuzi_server.Shared.Tests.{◌==◌, if◌then◌else◌}

-- `f[i] = a`
abbrev pub update {ℓ} : {A : Type ℓ} → (ℕ → A) → ℕ → A → ℕ → A
update f i a j = if i == j then a else f j

module _ {ℓ} {A : Type ℓ} where
  pub update_same : (f : ℕ → A) (i j : ℕ) (a : A) → i ≡ j → update f i a j ≡ a
  update_same f i j a h = ground arith

  pub update_ne : (f : ℕ → A) (i j : ℕ) (a : A) → i ≢ j → update f i a j ≡ f j
  update_ne f i j a h = ground arith
