-- ===== src/Prelude/Bytes.antt =====
-- Little-endian machine integers as lists of bytes: `to_le_bytes` and `from_le_bytes`.
use Prim.Native.Nat.{ℕ, zero, suc, ◌+◌, ◌*◌, ◌/◌, ◌%◌, ◌^◌, ◌<◌}
use mathlib.Core.Path.{◌≡◌, refl}
use mathlib.Core.List.{List, [], ◌∷◌}
use native.Mathlib.Omega.{arith}
use native.Mathlib.Nat.{pow-suc}
use artisan.Prelude.Lists.{length}

-- `v.to_le_bytes()` of an integer of `k` bytes.
unfoldable pub le_bytes : ℕ → ℕ → List ℕ
le_bytes zero v = []
le_bytes (suc k) v = v % 256 ∷ le_bytes k (v / 256)

-- `from_le_bytes`
unfoldable pub from_le_bytes : List ℕ → ℕ
from_le_bytes [] = 0
from_le_bytes (b ∷ bs) = b + 256 * from_le_bytes bs

pub length-le_bytes : (k v : ℕ) → length (le_bytes k v) ≡ k
unfolding le_bytes
length-le_bytes zero v = refl
length-le_bytes (suc k) v = omega (arith, length-le_bytes k (v / 256))

pub from_le_bytes-le_bytes : (k v : ℕ) → v < 256 ^ k → from_le_bytes (le_bytes k v) ≡ v
unfolding le_bytes from_le_bytes
from_le_bytes-le_bytes zero v h = omega arith
from_le_bytes-le_bytes (suc k) v h =
    omega (arith, pow-suc 256 k, from_le_bytes-le_bytes k (v / 256) (omega (arith, pow-suc 256 k)))
