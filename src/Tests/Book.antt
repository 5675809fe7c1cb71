-- ===== src/Tests/Book.antt =====
-- The small chain with an open market and a pool that uses it.
use raydium_amm_fair.Common.{◌-◌, ◌^◌, none, List, [], ◌∷◌, replicate}
use raydium_amm_fair.Outcome.{ok}
use raydium_amm_fair.Config.{openbook_program}
use raydium_amm_fair.State.Accounts.{AmmInfo}
use raydium_amm_fair.Chain.{AccountInfo, AccountData, Bank, write}
use raydium_amm_fair.Dex.Types.{Market, MarketState, OpenOrders}
use raydium_amm_fair.Tests.World.{pool, bank, keys}

abbrev market_state : MarketState
market_state = record { coin_mint = 31; pc_mint = 32; coin_lot_size = 1000; pc_lot_size = 10 }

-- No order stands on the book.
abbrev pub no_orders : OpenOrders
no_orders = record {
  market = 15;
  owner = 902;
  native_coin_free = 0;
  native_coin_total = 0;
  native_pc_free = 0;
  native_pc_total = 0;
  free_slot_bits = 2 ^ 128 - 1;
  is_bid_bits = 0;
  orders = replicate 128 0;
}

-- A market that accepts every call.
abbrev pub open_market : Market
open_market = record {
  load_market = λ d a p b. ok market_state;
  load_open_orders = λ a m o p b. ok no_orders;
  load_bids = λ m a b. ok (λ k. none);
  load_asks = λ m a b. ok (λ k. none);
  load_event_queue = λ m a b. ok [];
  cancel_orders = λ a ids b. ok b;
  settle_funds = λ a b. ok b;
  new_order = λ a o b. ok b;
  replace_order = λ a o b. ok b;
}

abbrev pub book_pool : AmmInfo
book_pool = record pool { status = 1; reset_flag = 1; market_program = openbook_program }

abbrev pub book_bank : Bank
book_bank = write 10 (AccountData.amm_data book_pool) bank

abbrev pub monitor_list : List AccountInfo
monitor_list = keys (
    901 ∷ 905 ∷ 904 ∷ 10 ∷ 902 ∷ 11 ∷ 25 ∷ 12 ∷ 13 ∷ openbook_program ∷ 15 ∷ 19 ∷ 20 ∷ 21 ∷ 29 ∷ 18
    ∷ 16 ∷ 17 ∷ [])
