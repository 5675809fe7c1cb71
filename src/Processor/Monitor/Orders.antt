-- ===== src/Processor/Monitor/Orders.antt =====
-- One order of `Processor::do_place_orders` (program/src/processor.rs): its identifier and its call.
use raydium_amm_fair.Common.{
  ℕ, Bool, true, false, Option, none, some, List, [], ◌∷◌, ◌||◌, ◌==◌, if◌then◌else◌,
}
use raydium_amm_fair.Outcome.{Outcome, ok, unwrap, non_zero, ◌>>=◌}
use raydium_amm_fair.State.Accounts.{AmmInfo, Pubkey, incr_client_order_id}
use raydium_amm_fair.Chain.{Bank}
use raydium_amm_fair.Dex.Types.{Market, Side, OrderAccounts, NewOrder}
use raydium_amm_fair.Processor.Monitor.Accounts.{MonitorAccounts}

contains : List ℕ → ℕ → Bool
contains [] x = false
contains (y ∷ ys) x = y == x || contains ys x

-- `ids.retain(|x| !replaced.contains(x))`
unfoldable pub retain_new : List ℕ → List ℕ → List ℕ
unfolding contains
retain_new replaced [] = []
retain_new replaced (x ∷ xs) =
    if contains replaced x then retain_new replaced xs else x ∷ retain_new replaced xs

unfoldable pub pop_front : List ℕ → Option (ℕ × List ℕ)
pop_front [] = none
pop_front (x ∷ xs) = some (x, xs)

unfoldable pub pop_back : List ℕ → Option (ℕ × List ℕ)
pop_back [] = none
pop_back (x ∷ xs) = elim (pop_back xs) [ none ↦ some (x, []) | some (y, ys) ↦ some (y, x ∷ ys) ]

-- The identifier of the next order: a new one where no order is left to replace, else the last order
-- for the first one of the side, and the first for the others. `fresh` tells the two cases apart.
pub record ChosenId : Type 0 where
  pub amm : AmmInfo
  pub id : ℕ
  pub fresh : Bool
  pub rest : List ℕ

unfoldable pub choose_id : AmmInfo → List ℕ → ℕ → Outcome ChosenId
unfolding pop_front pop_back
choose_id amm [] valid_num =
    let amm' = incr_client_order_id amm in
    ok (record { amm = amm'; id = amm'.client_order_id; fresh = true; rest = [] })
choose_id amm (x ∷ xs) valid_num = do
  (id, rest) ← unwrap (if valid_num == 0 then pop_back (x ∷ xs) else pop_front (x ∷ xs))
  ok (record { amm = amm; id = id; fresh = false; rest = rest })

order_accounts : MonitorAccounts → Pubkey → OrderAccounts
order_accounts a payer = record {
  market_program = a.market_program.key;
  market = a.market.key;
  open_orders = a.amm_open_orders.key;
  request_queue = a.market_request_queue.key;
  event_queue = a.market_event_queue.key;
  bids = a.market_bids.key;
  asks = a.market_asks.key;
  payer = payer;
  authority = a.amm_authority.key;
  coin_vault = a.market_coin_vault.key;
  pc_vault = a.market_pc_vault.key;
  token_program = a.token_program.key;
  rent = a.rent.key;
  srm_token = elim a.srm_token [ none ↦ none | some account ↦ some account.key ];
}

-- The call that places a new order or replaces one.
unfoldable pub send_order :
    Market → MonitorAccounts → Pubkey → Side → ℕ → ℕ → ℕ → ChosenId → Bank → Outcome Bank
unfolding order_accounts
send_order mk a payer side limit_price max_coin_qty max_pc_qty chosen bank = do
  price ← non_zero limit_price
  coin_qty ← non_zero max_coin_qty
  pc_qty ← non_zero max_pc_qty
  let order : NewOrder = record {
    side = side;
    limit_price = price;
    max_coin_qty = coin_qty;
    max_native_pc_qty_including_fees = pc_qty;
    client_order_id = chosen.id;
    limit = 65535;
  }
  if chosen.fresh
      then mk.new_order (order_accounts a payer) order bank
      else mk.replace_order (order_accounts a payer) order bank
