-- ===== src/Math/Fibonacci.antt =====
-- `Calculator::fibonacci` (program/src/math.rs).
use raydium_amm_fair.Common.{
  ℕ, zero, suc, ◌+◌, ◌-◌, List, [], ◌∷◌, ◌++◌, ◌==◌, if◌then◌else◌, get_elem?,
}
use raydium_amm_fair.Outcome.{Outcome, ok, ◌>>=◌, unwrap}
use raydium_amm_fair.Word.{checked_add}

-- The entry that round `i` pushes.
next_entry : ℕ → List ℕ → Outcome ℕ
next_entry i fb = if i == 0 then ok 0 else if i == 1 then ok 1 else if i == 2 then ok 2 else (do
  a ← unwrap (get_elem? fb (i - 1))
  b ← unwrap (get_elem? fb (i - 2))
  unwrap (checked_add 64 a b))

-- The rounds that are left, the round `i` and the entries so far.
fibonacci_from : ℕ → ℕ → List ℕ → Outcome (List ℕ)
fibonacci_from zero i fb = ok fb
fibonacci_from (suc left) i fb = do
  entry ← next_entry i fb
  fibonacci_from left (i + 1) (fb ++ (entry ∷ []))

unfoldable pub fibonacci : ℕ → Outcome (List ℕ)
unfolding fibonacci_from next_entry
fibonacci order_num = fibonacci_from order_num 0 []
