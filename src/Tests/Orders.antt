-- ===== src/Tests/Orders.antt =====
-- Batches of identifiers, and the next identifier.
use mathlib.Core.List.{flatten}
use raydium_amm_fair.Dex.Batches.Both.{interleave, batches_of_both-partition}
use raydium_amm_fair.Common.{ℕ, ◌^◌, ◌<◌, ◌≡◌, List, [], ◌∷◌, ◌++◌, replicate, arith, refl}
use raydium_amm_fair.Outcome.{ok}
use raydium_amm_fair.State.Accounts.{incr_client_order_id, incr_client_order_id_fresh}
use raydium_amm_fair.Dex.Batches.{batches_of, batches_of_both}
use raydium_amm_fair.Dex.Batches.Filled.{IsFull, batches_of-partition}
use raydium_amm_fair.Tests.World.{pool}

abbrev ten : List ℕ
ten = 1 ∷ 2 ∷ 3 ∷ 4 ∷ 5 ∷ 6 ∷ 7 ∷ 8 ∷ 9 ∷ 10 ∷ []

batches_of-partition_example :
    (batches : List (List ℕ)) × (batches_of ten ≡ ok batches)
    × IsFull batches
    × (n : ℕ) × (n < 8)
    × (flatten batches ≡ ten ++ replicate n 0)
batches_of-partition_example = batches_of-partition ten

batches_of_both-partition_example :
    (batches : List (List ℕ)) × (batches_of_both ten (21 ∷ 22 ∷ []) ≡ ok batches)
    × IsFull batches
    × (n : ℕ) × (n < 8)
    × (flatten batches ≡ interleave ten (21 ∷ 22 ∷ []) ++ replicate n 0)
batches_of_both-partition_example = batches_of_both-partition ten (21 ∷ 22 ∷ [])

in_turns : interleave (1 ∷ 2 ∷ 3 ∷ 4 ∷ []) (5 ∷ 6 ∷ []) ≡ 1 ∷ 5 ∷ 2 ∷ 6 ∷ 3 ∷ 4 ∷ []
unfolding interleave
in_turns = refl

incr_client_order_id_fresh_example :
    (0 < (incr_client_order_id pool).client_order_id)
    × ((incr_client_order_id pool).client_order_id < 2 ^ 64)
    × ¬ ((incr_client_order_id pool).client_order_id ≡ pool.client_order_id)
incr_client_order_id_fresh_example = incr_client_order_id_fresh pool (omega arith)
