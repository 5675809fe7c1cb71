-- ===== src/Dex/Batches.antt =====
-- The identifiers of orders to cancel, eight to a call (program/src/processor.rs). The source keeps an
-- array of eight zeros, an index `count` and a vector of full arrays.
pub mod Filled
pub mod Both
use raydium_amm_fair.Common.{
  ℕ, zero, suc, ◌+◌, Option, none, some, List, [], ◌∷◌, ◌++◌, ◌==◌, ◌!=◌, if◌then◌else◌, replicate,
}
use raydium_amm_fair.Outcome.{Outcome, ok, panic, ◌>>=◌}

-- A write out of bounds is `none`: the source panics.
set_elem? : List ℕ → ℕ → ℕ → Option (List ℕ)
set_elem? [] i v = none
set_elem? (x ∷ xs) zero v = some (v ∷ xs)
set_elem? (x ∷ xs) (suc i) v = elim (set_elem? xs i v) [ none ↦ none | some ys ↦ some (x ∷ ys) ]

pub record Batches : Type 0 where
  pub order_ids_vec : List (List ℕ)
  pub order_ids : List ℕ
  pub count : ℕ

abbrev pub no_batches : Batches
no_batches = record { order_ids_vec = []; order_ids = replicate 8 0; count = 0 }

-- `order_ids[count] = id; count += 1;`
pub put_id : ℕ → Batches → Outcome Batches
unfolding set_elem?
put_id id b = elim (set_elem? b.order_ids b.count id) [
  | none ↦ panic
  | some ids ↦ ok (record b { order_ids = ids; count = b.count + 1 })
]

-- `if count == 8 { … }`
pub flush_full : Batches → Batches
flush_full b =
    if b.count == 8
    then record {
      order_ids_vec = b.order_ids_vec ++ (b.order_ids ∷ []);
      order_ids = replicate 8 0;
      count = 0;
    }
    else b

-- `if count != 0 { … }`, behind the loop.
pub flush_rest : Batches → List (List ℕ)
flush_rest b = if b.count != 0 then b.order_ids_vec ++ (b.order_ids ∷ []) else b.order_ids_vec

-- The loop of the swaps and of `do_purge_orders`, over one list.
fill_from : List ℕ → Batches → Outcome Batches
fill_from [] b = ok b
fill_from (id ∷ ids) b = do b' ← put_id id b; fill_from ids (flush_full b')

unfoldable pub batches_of : List ℕ → Outcome (List (List ℕ))
unfolding fill_from put_id flush_full flush_rest
batches_of ids = do b ← fill_from ids no_batches; ok (flush_rest b)

-- The loop of `process_withdraw` and `do_cancel_all_orders_state`, over both lists side by side.
fill_both : List ℕ → List ℕ → Batches → Outcome Batches
fill_both [] [] b = ok b
fill_both (x ∷ xs) [] b = do b' ← put_id x b; fill_both xs [] (flush_full b')
fill_both [] (y ∷ ys) b = do b' ← put_id y b; fill_both [] ys (flush_full b')
fill_both (x ∷ xs) (y ∷ ys) b = do
  b' ← put_id x b
  b'' ← put_id y b'
  fill_both xs ys (flush_full b'')

unfoldable pub batches_of_both : List ℕ → List ℕ → Outcome (List (List ℕ))
unfolding fill_both put_id flush_full flush_rest
batches_of_both bids asks = do b ← fill_both bids asks no_batches; ok (flush_rest b)
