-- ===== src/Dex/Types.antt =====
-- The records of serum-dex that program/src reads, and its calls as a parameter.
use raydium_amm_fair.Common.{ℕ, Bool, Option, List}
use raydium_amm_fair.Outcome.{Outcome}
use raydium_amm_fair.State.Accounts.{Pubkey}
use raydium_amm_fair.Chain.{Bank}

pub data Side : Type 0 where
  bid ask : Side

-- `EventView`: a fill with its side, whether the owner was the maker, and what was paid and received.
pub data EventView : Type 0 where
  fill : Side → Bool → ℕ → ℕ → EventView
  out : EventView

pub record Event : Type 0 where
  pub owner : Pubkey
  pub view : EventView

pub record MarketState : Type 0 where
  pub coin_mint : Pubkey
  pub pc_mint : Pubkey
  pub coin_lot_size : ℕ
  pub pc_lot_size : ℕ

pub record OpenOrders : Type 0 where
  pub market : Pubkey
  pub owner : Pubkey
  pub native_coin_free : ℕ
  pub native_coin_total : ℕ
  pub native_pc_free : ℕ
  pub native_pc_total : ℕ
  pub free_slot_bits : ℕ
  pub is_bid_bits : ℕ
  pub orders : List ℕ

pub record LeafNode : Type 0 where
  pub price : ℕ
  pub client_order_id : ℕ

-- The market's accounts in a call, as the invoker passes them.
pub record SettleAccounts : Type 0 where
  pub market_program : Pubkey
  pub market : Pubkey
  pub open_orders : Pubkey
  pub authority : Pubkey
  pub market_coin_vault : Pubkey
  pub market_pc_vault : Pubkey
  pub coin_vault : Pubkey
  pub pc_vault : Pubkey
  pub market_vault_signer : Pubkey
  pub token_program : Pubkey
  pub referrer_pc : Option Pubkey

pub record CancelAccounts : Type 0 where
  pub market_program : Pubkey
  pub market : Pubkey
  pub bids : Pubkey
  pub asks : Pubkey
  pub open_orders : Pubkey
  pub authority : Pubkey
  pub event_queue : Pubkey

pub record OrderAccounts : Type 0 where
  pub market_program : Pubkey
  pub market : Pubkey
  pub open_orders : Pubkey
  pub request_queue : Pubkey
  pub event_queue : Pubkey
  pub bids : Pubkey
  pub asks : Pubkey
  pub payer : Pubkey
  pub authority : Pubkey
  pub coin_vault : Pubkey
  pub pc_vault : Pubkey
  pub token_program : Pubkey
  pub rent : Pubkey
  pub srm_token : Option Pubkey

-- A limit order, as the invoker passes it.
pub record NewOrder : Type 0 where
  pub side : Side
  pub limit_price : ℕ
  pub max_coin_qty : ℕ
  pub max_native_pc_qty_including_fees : ℕ
  pub client_order_id : ℕ
  pub limit : ℕ

-- `Market::load_checked` (whether a market with the flag `Disabled` is taken too, the account, the
-- program), `OpenOrders::load_checked` (the account, the market, the authority), the
-- order book's sides as a search by key, the event queue, and the four calls that change the book.
pub record Market : Type 0 where
  pub load_market : Bool → Pubkey → Pubkey → Bank → Outcome MarketState
  pub load_open_orders : Pubkey → Pubkey → Pubkey → Pubkey → Bank → Outcome OpenOrders
  pub load_bids : MarketState → Pubkey → Bank → Outcome (ℕ → Option LeafNode)
  pub load_asks : MarketState → Pubkey → Bank → Outcome (ℕ → Option LeafNode)
  pub load_event_queue : MarketState → Pubkey → Bank → Outcome (List Event)
  pub cancel_orders : CancelAccounts → List ℕ → Bank → Outcome Bank
  pub settle_funds : SettleAccounts → Bank → Outcome Bank
  pub new_order : OrderAccounts → NewOrder → Bank → Outcome Bank
  pub replace_order : OrderAccounts → NewOrder → Bank → Outcome Bank
