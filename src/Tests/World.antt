-- ===== src/Tests/World.antt =====
-- A small chain: a token program of its own, a pool without order book, and a user.
use raydium_amm_fair.Common.{ℕ, none, ◌+◌, ◌-◌, true, some, List, [], ◌∷◌, ◌==◌, leb, if◌then◌else◌}
use raydium_amm_fair.Error.{ProgramError}
use raydium_amm_fair.Outcome.{Outcome, ok, err}
use raydium_amm_fair.State.Accounts.{Pubkey, AmmInfo, TargetOrders, initial_state_data}
use raydium_amm_fair.State.Fees.{initial_fees}
use raydium_amm_fair.Chain.{Account, AccountData, AccountInfo, Bank, Runtime, write}
use raydium_amm_fair.Dex.Types.{Market}

-- Any error of a called program.
abbrev pub refused {ℓ} : {A : Type ℓ} → Outcome A
refused = err (ProgramError.external 0)

-- A transfer within the balance, between two accounts.
unfoldable pub debit_credit : AccountData → AccountData → Pubkey → Pubkey → ℕ → Bank → Outcome Bank
debit_credit (AccountData.token_data t) (AccountData.token_data u) s d n b =
    if leb n t.amount
    then ok (
        write d (AccountData.token_data (record u { amount = u.amount + n }))
          (write s (AccountData.token_data (record t { amount = t.amount - n })) b))
    else refused
debit_credit _ _ s d n b = refused

unfoldable pub token_transfer : Pubkey → Pubkey → Pubkey → ℕ → Bank → Outcome Bank
unfolding debit_credit
token_transfer s d authority n b =
    if s == d then ok b else debit_credit (b s).content (b d).content s d n b

unfoldable pub credit_only : AccountData → Pubkey → ℕ → Bank → Outcome Bank
credit_only (AccountData.token_data t) d n b =
    ok (write d (AccountData.token_data (record t { amount = t.amount + n })) b)
credit_only _ d n b = refused

unfoldable pub token_mint : Pubkey → Pubkey → Pubkey → ℕ → Bank → Outcome Bank
unfolding credit_only
token_mint m d authority n b = credit_only (b d).content d n b

unfoldable pub debit_supply : AccountData → AccountData → Pubkey → Pubkey → ℕ → Bank → Outcome Bank
debit_supply (AccountData.token_data t) (AccountData.mint_data u) s m n b =
    if leb n t.amount
    then ok (
        write m (AccountData.mint_data (record u { supply = u.supply - n }))
          (write s (AccountData.token_data (record t { amount = t.amount - n })) b))
    else refused
debit_supply _ _ s m n b = refused

unfoldable pub token_burn : Pubkey → Pubkey → Pubkey → ℕ → Bank → Outcome Bank
unfolding debit_supply
token_burn s m authority n b = debit_supply (b s).content (b m).content s m n b

abbrev pub runtime : Runtime
runtime = record {
  program_id = 900;
  spl_token_id = 901;
  create_program_address = λ nonce. some 902;
  config_address = 903;
  clock_id = 904;
  clock = ok (record { unix_timestamp = 50; epoch = 7 });
  transfer = token_transfer;
  mint_to = token_mint;
  burn = token_burn;
}

-- A market that refuses every call.
abbrev pub closed_market : Market
closed_market = record {
  load_market = λ d a p b. refused;
  load_open_orders = λ a m o p b. refused;
  load_bids = λ m a b. refused;
  load_asks = λ m a b. refused;
  load_event_queue = λ m a b. refused;
  cancel_orders = λ a ids b. refused;
  settle_funds = λ a b. refused;
  new_order = λ a o b. refused;
  replace_order = λ a o b. refused;
}

abbrev pub pool : AmmInfo
pool = record {
  status = 6;
  nonce = 254;
  order_num = 7;
  depth = 3;
  coin_decimals = 6;
  pc_decimals = 6;
  state = 1;
  reset_flag = 0;
  min_size = 1;
  vol_max_cut_ratio = 0;
  amount_wave = 0;
  coin_lot_size = 1;
  pc_lot_size = 1;
  min_price_multiplier = 1;
  max_price_multiplier = 1000000000;
  sys_decimal_value = 1000000;
  fees = initial_fees;
  state_data = initial_state_data 0;
  coin_vault = 12;
  pc_vault = 13;
  coin_vault_mint = 31;
  pc_vault_mint = 32;
  lp_mint = 26;
  open_orders = 11;
  market = 15;
  market_program = 14;
  target_orders = 25;
  amm_owner = 0;
  lp_amount = 10000;
  client_order_id = 0;
  recent_epoch = 0;
}

abbrev pub target : TargetOrders
target = record {
  owner = 10;
  buy_orders = [];
  target_x = 0;
  target_y = 0;
  plan_x_buy = 0;
  plan_y_buy = 0;
  plan_x_sell = 0;
  plan_y_sell = 0;
  placed_x = 0;
  placed_y = 0;
  calc_pnl_x = 100000;
  calc_pnl_y = 100000;
  sell_orders = [];
  replace_buy_client_id = [];
  replace_sell_client_id = [];
  last_order_numerator = 0;
  last_order_denominator = 0;
  plan_orders_cur = 0;
  place_orders_cur = 0;
  valid_buy_order_num = 0;
  valid_sell_order_num = 0;
  free_slot_bits = 0;
}

abbrev token : Pubkey → ℕ → Account
token mint amount = record {
  owner = 901;
  lamports = 0;
  content = AccountData.token_data (record {
    mint = mint;
    owner = 24;
    amount = amount;
    delegate = none;
    close_authority = none;
  });
}

-- Mint 31 is coin, 32 is pc, 26 the pool's shares.
abbrev pub bank : Bank
bank k =
    if k == 10
    then record { owner = 900; lamports = 0; content = AccountData.amm_data pool }
    else if k == 12
    then token 31 100000
    else if k == 13
    then token 32 100000
    else if k == 22
    then token 31 5000
    else if k == 23
    then token 32 5000
    else if k == 25
    then record { owner = 900; lamports = 0; content = AccountData.target_data target }
    else if k == 26
    then record {
      owner = 901;
      lamports = 0;
      content = AccountData.mint_data (record {
        supply = 10000;
        decimals = 6;
        mint_authority = some 902;
        freeze_authority = none;
      });
    }
    else if k == 27
    then token 26 0
    else if k == 28
    then token 26 4000
    else if k == 30
    then record {
      owner = 900;
      lamports = 0;
      content = AccountData.sequencer_data (record { orders_hash = 77; next_index = 0 });
    }
    else record { owner = 0; lamports = 0; content = AccountData.other_data }

abbrev pub account : Pubkey → AccountInfo
account k = record { key = k; is_signer = k == 24; is_writable = true }

abbrev pub keys : List Pubkey → List AccountInfo
keys [] = []
keys (k ∷ ks) = account k ∷ keys ks

abbrev pub swap_list : List AccountInfo
swap_list =
    keys (901 ∷ 10 ∷ 902 ∷ 11 ∷ 12 ∷ 13 ∷ 14 ∷ 15 ∷ 16 ∷ 17 ∷ 18 ∷ 19 ∷ 20 ∷ 21 ∷ 22 ∷ 23 ∷ 24 ∷ [])

-- The bank behind a call.
abbrev pub bank_after : Outcome Bank → Bank
bank_after (ok b) = b
bank_after _ = bank
