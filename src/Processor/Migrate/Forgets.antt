-- ===== src/Processor/Migrate/Forgets.antt =====
-- What `process_migrate_to_openbook` (program/src/processor.rs) does to a pool.
use raydium_amm_fair.Common.{ℕ, ◌%◌, ◌≡◌, true, List, ◌||◌, not, ◌!=◌, arith}
use raydium_amm_fair.Error.{invalid_sign_account}
use raydium_amm_fair.Outcome.{ok, unwrap, after_bind, fail_if-eq-ok, ok-inj}
use raydium_amm_fair.Word.{as_width, checked_mul}
use raydium_amm_fair.Config.{amm_owner_id}
use raydium_amm_fair.State.Status.{status_into_u64, waiting_trade}
use raydium_amm_fair.State.Accounts.{AmmInfo}
use raydium_amm_fair.State.Initialize.{initialize, sys_decimal, min_size_of}
use raydium_amm_fair.State.Fees.{initial_fees}
use raydium_amm_fair.Chain.{AccountInfo, AccountData, Bank, Runtime, load_amm, load_target, write}
use raydium_amm_fair.Dex.Types.{Market, MarketState}
use raydium_amm_fair.Math.Decimal.{restore_decimal, convert_in_pc_lot_size}
use raydium_amm_fair.Processor.Swap.Settled.{write-same}
use raydium_amm_fair.Processor.Initialize.Programs.{System}
use raydium_amm_fair.Processor.Migrate.{
  MigrateAccounts, migrate_accounts, check_migrate, leave_market, enter_market, moved_pool,
  moved_target, process_migrate_to_openbook,
}

-- The pool before and after: the same shares in the same vaults, on the new market, waiting for its
-- opening time, with the first fees and without any profit that is owed.
pub record IsMoved (a : MigrateAccounts) (amm amm' : AmmInfo) : Type 0 where
  pub lp_amount : amm'.lp_amount ≡ amm.lp_amount
  pub coin_vault : amm'.coin_vault ≡ amm.coin_vault
  pub pc_vault : amm'.pc_vault ≡ amm.pc_vault
  pub market : amm'.market ≡ a.new_market.key
  pub open_orders : amm'.open_orders ≡ a.new_amm_open_orders.key
  pub status : amm'.status ≡ status_into_u64 waiting_trade
  pub fees : amm'.fees ≡ initial_fees
  pub owed_coin : amm'.state_data.need_take_pnl_coin ≡ 0
  pub owed_pc : amm'.state_data.need_take_pnl_pc ≡ 0

moved_pool-IsMoved :
    (a : MigrateAccounts) (new : MarketState) (epoch : ℕ) (amm : AmmInfo) {amm' : AmmInfo}
    → moved_pool a new epoch amm ≡ ok amm'
    → IsMoved a amm amm'
unfolding moved_pool initialize
moved_pool-IsMoved a new epoch amm h =
    let cd = amm.coin_decimals % 256 in
    let pd = amm.pc_decimals % 256 in
    let base : AmmInfo = record amm {
      market_program = a.new_market_program.key;
      market = a.new_market.key;
      open_orders = a.new_amm_open_orders.key;
    } in
    after_bind
      (initialize (amm.nonce % 256) amm.state_data.pool_open_time cd pd new.coin_lot_size
        new.pc_lot_size epoch base)
      h
      λ started e h0.
        after_bind (sys_decimal cd pd new.coin_lot_size new.pc_lot_size) e λ value _ h1.
          after_bind (min_size_of cd new.coin_lot_size value) h1 λ _ _ h2.
            after_bind (unwrap (checked_mul 64 value 5)) h2 λ wave _ h3.
              after_bind (convert_in_pc_lot_size pd cd new.pc_lot_size new.coin_lot_size value) h3
                λ _ _ h4. record {
                  lp_amount = ground arith;
                  coin_vault = ground arith;
                  pc_vault = ground arith;
                  market = ground arith;
                  open_orders = ground arith;
                  status = ground arith;
                  fees = ground arith;
                  owed_coin = ground arith;
                  owed_pc = ground arith;
                }

-- A migration that succeeds is signed by the program's owner and leaves the pool with its shares
-- and its vaults on the new market, waiting for trade; the profit that the pool owed is forgotten,
-- whatever it was, and the fees are the first ones again.
pub process_migrate_to_openbook-IsMoved :
    (rt : Runtime) (sys : System) (mk : Market) (accounts : List AccountInfo) (bank : Bank)
    (a : MigrateAccounts) (amm : AmmInfo) {bank' : Bank}
    → migrate_accounts accounts ≡ ok a
    → load_amm rt a.amm.key bank ≡ ok amm
    → process_migrate_to_openbook rt sys mk accounts bank ≡ ok bank'
    → (a.admin.is_signer ≡ true)
      × (a.admin.key ≡ amm_owner_id)
      × (amm' : AmmInfo) × ((bank' a.amm.key).content ≡ AccountData.amm_data amm')
      × IsMoved a amm amm'
unfolding process_migrate_to_openbook check_migrate
process_migrate_to_openbook-IsMoved rt sys mk accounts bank a amm {bank'} parsed loaded h =
    let h0 = rw parsed at h in
    let h1 = rw loaded at h0 in
    after_bind (check_migrate rt sys a amm) h1 λ _ e2 h2.
      let (owner, _) =
        fail_if-eq-ok (not a.admin.is_signer || a.admin.key != amm_owner_id) invalid_sign_account _
          e2 in
      after_bind (load_target rt a.amm_target_orders.key a.amm.key bank) h2 λ target _ h3.
        after_bind (restore_decimal target.calc_pnl_x amm.pc_decimals amm.sys_decimal_value) h3
          λ wide_pc _ h4. after_bind (as_width 64 wide_pc) h4 λ pc _ h5.
            after_bind (restore_decimal target.calc_pnl_y amm.coin_decimals amm.sys_decimal_value)
              h5
              λ wide_coin _ h6. after_bind (as_width 64 wide_coin) h6 λ coin _ h7.
                after_bind (leave_market mk a amm bank) h7 λ (old, left) _ h8.
                  after_bind (enter_market rt sys mk a amm left) h8 λ (new, entered) _ h9.
                    after_bind rt.clock h9 λ clock _ h10.
                      after_bind (moved_pool a new clock.epoch amm) h10 λ amm' e11 h11.
                        after_bind (moved_target old new pc coin amm' target) h11 λ target' _ h12.
                          let b1 =
                            write a.amm_target_orders.key (AccountData.target_data target')
                              entered in
                          let stored = write-same a.amm.key (AccountData.amm_data amm') b1 in
                          (
                            ground arith,
                            ground arith,
                            amm',
                            rw (← ok-inj h12) stored,
                            moved_pool-IsMoved a new clock.epoch amm e11,
                          )
