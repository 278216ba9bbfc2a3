-- ===== src/Prelude/Words.antt =====
-- Machine words: a uint64 counter wraps, and a time.Duration is an int64 number of nanoseconds.
use Prim.Native.Nat.{ℕ, ◌*◌, ◌%◌}
use anime_portable.Prelude.Int.{ℤ, pos}

abbrev pub u64 : ℕ → ℕ
u64 n = n % 18446744073709551616

-- time.Duration in nanoseconds.
abbrev pub Duration : Type 0
Duration = ℤ

abbrev pub milliseconds : ℕ → Duration
milliseconds n = pos (n * 1000000)

abbrev pub seconds : ℕ → Duration
seconds n = pos (n * 1000000000)

abbrev pub minutes : ℕ → Duration
minutes n = pos (n * 60000000000)

-- math.MaxInt64
abbrev pub max_int64 : ℕ
max_int64 = 9223372036854775807
