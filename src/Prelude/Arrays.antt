-- ===== src/Prelude/Arrays.antt =====
-- Arrays as functions of the index.
use Prim.Native.Nat.{ℕ}
use mathlib.Core.Path.{◌≡◌}
use mathlib.Core.Logic.{◌≢◌}
use native.Mathlib.Omega.{arith}
use free_rtos_demos_cheri_ri.Prelude.Tests.{◌==◌, if◌then◌else◌}

-- m[ k ] = v
unfoldable pub update {ℓ} : {A : Type ℓ} → (ℕ → A) → ℕ → A → ℕ → A
update m k v i = if i == k then v else m i

pub update_self {ℓ} : {A : Type ℓ} (m : ℕ → A) (k : ℕ) (v : A) → update m k v k ≡ v
unfolding update
update_self m k v = ground arith

pub update_other {ℓ} :
    {A : Type ℓ} (m : ℕ → A) (k : ℕ) (v : A) (i : ℕ) → i ≢ k → update m k v i ≡ m i
unfolding update
update_other m k v i h = ground arith
