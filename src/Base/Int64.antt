-- ===== src/Base/Int64.antt =====
-- `sqlite3_int64`: the number `i` stands as `i + 2^63`, so that the order of signed numbers is that of
-- the natural ones.
use Prim.Native.Nat.{ℕ, ◌+◌, ◌-◌, ◌^◌, ◌<◌}
use mathlib.Core.Path.{◌≡◌}
use mathlib.Core.Bool.{false}
use native.Mathlib.Omega.{arith}
use mind_trace.Base.Tests.{ltb, leb, if◌then◌else◌}

abbrev pub Int64 : Type 0
Int64 = ℕ

abbrev pub i64_half : ℕ
i64_half = 2 ^ 63

-- `static_cast` between `uint64_t` and `sqlite3_int64`, in either direction: the halves of the range
-- are swapped. Beyond the range, where no value of the code lies, it changes nothing.
unfoldable pub cast64 : ℕ → ℕ
cast64 n =
    if ltb n i64_half then n + i64_half else if ltb n (i64_half + i64_half) then n - i64_half else n

pub cast64_invol : (n : ℕ) → cast64 (cast64 n) ≡ n
unfolding cast64
cast64_invol n = ground arith

-- Below 2^63 the cast keeps the order.
pub leb-cast64_left :
    (a t : ℕ) → a < i64_half → cast64 t < i64_half → leb (cast64 a) t ≡ leb a (cast64 t)
unfolding cast64
leb-cast64_left a t h k = ground arith

pub leb-cast64_right :
    (t b : ℕ) → cast64 t < i64_half → b < i64_half → leb t (cast64 b) ≡ leb (cast64 t) b
unfolding cast64
leb-cast64_right t b h k = ground arith

pub ltb-cast64 :
    (a b : ℕ) → cast64 a < i64_half → cast64 b < i64_half → ltb (cast64 a) (cast64 b) ≡ ltb a b
unfolding cast64
ltb-cast64 a b h k = ground arith

-- From 2^63 on a `uint64_t` becomes negative.
pub leb-cast64_negative :
    (t b : ℕ)
    → cast64 t < i64_half
    → i64_half + b < i64_half + i64_half
    → leb t (cast64 (i64_half + b)) ≡ false
unfolding cast64
leb-cast64_negative t b h k = ground arith
