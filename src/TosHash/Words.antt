-- ===== src/TosHash/Words.antt =====
-- 64-bit words, their byte encodings (encoding/binary) and the mixing step of
-- internal/toshash/toshash.go. A word is a number below 2^64.
use Prim.Native.Nat.{bit_or, bit_xor}
use tos_pool.Prelude.{ℕ, ◌+◌, ◌-◌, ◌*◌, ◌/◌, ◌%◌, ◌^◌}

abbrev pub word : ℕ
word = 2 ^ 64

-- `x << k` and `x >> k`; a shift by 64 or more gives 0.
abbrev pub shift_left : ℕ → ℕ → ℕ
shift_left x k = (x * 2 ^ k) % word

abbrev pub shift_right : ℕ → ℕ → ℕ
shift_right x k = x / 2 ^ k

-- `k &= 63` is the remainder by 64.
unfoldable pub rotate_left : ℕ → ℕ → ℕ
rotate_left x k = let r = k % 64 in bit_or (shift_left x r) (shift_right x (64 - r))

unfoldable pub rotate_right : ℕ → ℕ → ℕ
rotate_right x k = let r = k % 64 in bit_or (shift_right x r) (shift_left x (64 - r))

abbrev pub mix_constant : ℕ
mix_constant = 0x517cc1b727220a95

unfoldable pub mix : ℕ → ℕ → ℕ → ℕ
unfolding rotate_left rotate_right
mix a b round =
    let rot = (round * 7) % 64 in
    let x = (a + b) % word in
    let y = bit_xor a (rotate_left b rot) in
    let z = (x * mix_constant) % word in bit_xor z (rotate_right y (rot / 2))
