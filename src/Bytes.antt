-- ===== src/Bytes.antt =====
-- Little-endian integers in byte sequences: `to_le_bytes`, `from_le_bytes` and the splitting of a
-- slice. A byte is a number below 256.
use native.Mathlib.Nat.{pow-suc}
use raydium_amm_fair.Common.{
  ℕ, zero, suc, ◌+◌, ◌*◌, ◌/◌, ◌%◌, ◌^◌, ◌<◌, ◌≡◌, refl, List, [], ◌∷◌, ◌++◌, arith, length,
}

pub le_bytes : ℕ → ℕ → List ℕ
le_bytes zero n = []
le_bytes (suc w) n = n % 256 ∷ le_bytes w (n / 256)

-- The value of the first `w` bytes, and the bytes behind them.
pub chunk : ℕ → List ℕ → ℕ × List ℕ
chunk zero bytes = (0, bytes)
chunk (suc w) [] = (0, [])
chunk (suc w) (b ∷ bytes) = let (n, rest) = chunk w bytes in (b + 256 * n, rest)

-- Fields one behind another, each a width in bytes and a value.
abbrev pub fields : List (ℕ × ℕ) → List ℕ
fields [] = []
fields ((w, n) ∷ fs) = le_bytes w n ++ fields fs

pub length-le_bytes : (w n : ℕ) → length (le_bytes w n) ≡ w
unfolding le_bytes
length-le_bytes zero n = refl
length-le_bytes (suc w) n = omega (arith, length-le_bytes w (n / 256))

pub chunk-le_bytes :
    (w n : ℕ) (rest : List ℕ) → n < 256 ^ w → chunk w (le_bytes w n ++ rest) ≡ (n, rest)
unfolding chunk le_bytes
chunk-le_bytes zero n rest h = let e : n ≡ 0 = omega arith in rw e
chunk-le_bytes (suc w) n rest h =
    let small : n / 256 < 256 ^ w = omega (arith, pow-suc 256 w) in
    rw (chunk-le_bytes w (n / 256) rest small) (ground arith)
