-- ===== src/Prelude/Order.antt =====
-- The order of texts that `compare` gives.

use Prim.Native.String.compare
use Prim.Native.String.{String, [], ◌∷◌, compare}
use mathlib.Core.Path.{◌≡◌, refl}
use mathlib.Core.Bool.{true, false}
use native.Mathlib.Omega.{arith}
use text.Mathlib.Text.{is_le}

pub le_total : (s t : String) → is_le (compare s t) ≡ false → is_le (compare t s) ≡ true
le_total [] [] h = refl
le_total [] (d ∷ t) h = ground (arith, compare.nil-cons d t)
le_total (c ∷ s) [] h = ground (arith, compare.nil-cons c s)
le_total (c ∷ s) (d ∷ t) h =
    ground (arith, compare.cons-cons c d s t, compare.cons-cons d c t s, le_total s t)

pub le_trans :
    (s t u : String)
    → is_le (compare s t) ≡ true
    → is_le (compare t u) ≡ true
    → is_le (compare s u) ≡ true
le_trans [] t [] h k = refl
le_trans [] t (e ∷ u) h k = ground (arith, compare.nil-cons e u)
le_trans (c ∷ s) [] u h k = ground (arith, compare.cons-nil c s)
le_trans (c ∷ s) (d ∷ t) [] h k = ground (arith, compare.cons-nil d t)
le_trans (c ∷ s) (d ∷ t) (e ∷ u) h k = ground (
  arith,
  compare.cons-cons c d s t,
  compare.cons-cons d e t u,
  compare.cons-cons c e s u,
  le_trans s t u,
  h,
  k,
)
