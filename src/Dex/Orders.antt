-- ===== src/Dex/Orders.antt =====
-- The pool's own orders (`Processor::get_amm_orders` and the two price queries,
-- program/src/processor.rs).
use raydium_amm_fair.Common.{
  ℕ, zero, suc, ◌+◌, ◌/◌, ◌%◌, ◌^◌, Bool, Option, none, some, List, [], ◌∷◌, ◌++◌, ltb, ◌!=◌,
  if◌then◌else◌, get_elem?,
}
use raydium_amm_fair.Outcome.{Outcome, ok, ◌>>=◌, unwrap}
use raydium_amm_fair.Dex.Types.{OpenOrders, LeafNode}

-- Bit `i` of a word, and the number of its lowest 128 bits that are zero.
abbrev pub is_bit_set : ℕ → ℕ → Bool
is_bit_set word i = word / 2 ^ i % 2 != 0

count_zeros_below : ℕ → ℕ → ℕ
count_zeros_below zero word = 0
count_zeros_below (suc n) word = count_zeros_below n word + (if is_bit_set word n then 0 else 1)

pub count_zeros : ℕ → ℕ
unfolding count_zeros_below
count_zeros word = count_zeros_below 128 word

abbrev push_found : Option LeafNode → List LeafNode → List LeafNode
push_found none orders = orders
push_found (some leaf) orders = orders ++ (leaf ∷ [])

-- One slot: nothing if it is free, else the order is looked up on its side of the book.
collect_slot :
    OpenOrders
    → (ℕ → Option LeafNode)
    → (ℕ → Option LeafNode)
    → ℕ
    → List LeafNode × List LeafNode
    → Outcome (List LeafNode × List LeafNode)
collect_slot open_orders bids asks i (bids_orders, asks_orders) =
    if is_bit_set open_orders.free_slot_bits i then ok (bids_orders, asks_orders) else (do
      key ← unwrap (get_elem? open_orders.orders i)
      if is_bit_set open_orders.is_bid_bits i
          then ok (push_found (bids key) bids_orders, asks_orders)
          else ok (bids_orders, push_found (asks key) asks_orders))

collect_slots :
    OpenOrders
    → (ℕ → Option LeafNode)
    → (ℕ → Option LeafNode)
    → ℕ
    → ℕ
    → List LeafNode × List LeafNode
    → Outcome (List LeafNode × List LeafNode)
collect_slots open_orders bids asks zero i found = ok found
collect_slots open_orders bids asks (suc left) i found = do
  found' ← collect_slot open_orders bids asks i found
  collect_slots open_orders bids asks left (i + 1) found'

-- `sort_by` is stable: an order is put behind those of its price.
insert_by : (ℕ → ℕ → Bool) → LeafNode → List LeafNode → List LeafNode
insert_by before x [] = x ∷ []
insert_by before x (y ∷ ys) =
    if before x.price y.price then x ∷ y ∷ ys else y ∷ insert_by before x ys

abbrev sort_onto : (ℕ → ℕ → Bool) → List LeafNode → List LeafNode → List LeafNode
sort_onto before sorted [] = sorted
sort_onto before sorted (x ∷ xs) = sort_onto before (insert_by before x sorted) xs

unfoldable pub get_amm_orders :
    OpenOrders
    → (ℕ → Option LeafNode)
    → (ℕ → Option LeafNode)
    → Outcome (List LeafNode × List LeafNode)
unfolding count_zeros collect_slot collect_slots insert_by
get_amm_orders open_orders bids asks = do
  (bids_orders, asks_orders) ←
      if count_zeros open_orders.free_slot_bits != 0
      then collect_slots open_orders bids asks 128 0 ([], [])
      else ok ([], [])
  ok (sort_onto (λ a b. ltb b a) [] bids_orders, sort_onto ltb [] asks_orders)
