-- ===== src/Config/Floats.antt =====
-- Python's `int` and `float` as far as the sources compare them.
use url_crawler.Base.{ℕ, ◌*◌, Bool, true, false, not, ltb}

pub data ℤ : Type 0 where
  pos : ℕ → ℤ
  negsuc : ℕ → ℤ

-- `a < b`.
unfoldable pub int_lt : ℤ → ℤ → Bool
int_lt (pos m) (pos n) = ltb m n
int_lt (pos m) (negsuc n) = false
int_lt (negsuc m) (pos n) = true
int_lt (negsuc m) (negsuc n) = ltb n m

abbrev pub int_le : ℤ → ℤ → Bool
int_le a b = not (int_lt b a)

-- A finite float in microseconds, the two infinities and NaN.
pub data Float : Type 0 where
  finite : ℤ → Float
  inf minus_inf nan : Float

abbrev pub seconds : ℕ → Float
seconds n = finite (pos (n * 1000000))

abbrev pub zero_float : Float
zero_float = finite (pos 0)

unfoldable pub float_lt : Float → Float → Bool
unfolding int_lt
float_lt (finite a) (finite b) = int_lt a b
float_lt (finite a) inf = true
float_lt minus_inf (finite b) = true
float_lt minus_inf inf = true
float_lt _ _ = false

unfoldable pub float_le : Float → Float → Bool
unfolding int_lt
float_le (finite a) (finite b) = int_le a b
float_le (finite a) inf = true
float_le minus_inf (finite b) = true
float_le minus_inf inf = true
float_le minus_inf minus_inf = true
float_le inf inf = true
float_le _ _ = false

-- `math.isfinite`.
abbrev pub isfinite : Float → Bool
isfinite (finite a) = true
isfinite _ = false
