-- ===== src/Execution/Random.antt =====
-- internal/execution/random.go, on uint64 values below 2 ^ 64.
use Prim.Native.Nat.{bit_xor}
use skald.Prelude.{ℕ, ◌+◌, ◌-◌, ◌*◌, ◌/◌, ◌%◌, ◌^◌}
use skald.Prelude.Int.{ℤ, pos, negsuc}
use skald.Values.Float.{Float64, Floats}

-- uint64(x) of an int64.
unfoldable pub to_uint64 : ℤ → ℕ
to_uint64 (pos n) = n % 2 ^ 64
to_uint64 (negsuc n) = 2 ^ 64 - 1 - n % 2 ^ 64

unfoldable pub splitmix64 : ℕ → ℕ
splitmix64 x =
    let z0 = (x + 0x9e3779b97f4a7c15) % 2 ^ 64 in
    let z1 = bit_xor z0 (z0 / 2 ^ 30) * 0xbf58476d1ce4e5b9 % 2 ^ 64 in
    let z2 = bit_xor z1 (z1 / 2 ^ 27) * 0x94d049bb133111eb % 2 ^ 64 in bit_xor z2 (z2 / 2 ^ 31)

unfoldable pub jitter_from_seed : Floats → ℤ → ℤ → Float64
unfolding splitmix64 to_uint64
jitter_from_seed F seed counter =
    let v = splitmix64 (bit_xor (to_uint64 seed) (splitmix64 (to_uint64 counter))) in
    F.div (F.of_int (pos (v / 2 ^ 11))) (F.of_int (pos (2 ^ 53)))

-- `& math.MaxInt64` keeps the low 63 bits.
unfoldable pub next_seed : ℤ → ℤ
unfolding splitmix64 to_uint64
next_seed seed = pos (splitmix64 (to_uint64 seed) % 2 ^ 63)
