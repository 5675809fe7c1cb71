-- ===== src/Processor/Swap/Facts.antt =====
-- What a successful `swap_context` has established.
use raydium_amm_fair.Common.{
  ℕ, ◌+◌, ◌%◌, ◌≡◌, ◌≢◌, sym, true, false, List, not, arith, ◌||◌, ◌==◌, ◌!=◌,
}
use raydium_amm_fair.Error.{
  invalid_sign_account, invalid_spl_token_program, invalid_program_address, invalid_coin_vault,
  invalid_pc_vault, invalid_user_token,
}
use raydium_amm_fair.Outcome.{ok, ok-inj, after_bind, fail_if-eq-ok, fail_if-ok}
use raydium_amm_fair.State.Status.{AmmStatus, status_from_u64, orderbook_permission}
use raydium_amm_fair.State.Accounts.{AmmInfo, Pubkey}
use raydium_amm_fair.Chain.{
  AccountInfo, AccountData, TokenAccount, Bank, Runtime, load_amm, unpack_token_account,
  authority_id,
}
use raydium_amm_fair.Dex.Types.{Market}
use raydium_amm_fair.Math.Totals.{calc_total_without_take_pnl_no_orderbook}
use raydium_amm_fair.Processor.Swap.Context.{
  SwapAccounts, SwapContext, SwapPool, swap_accounts, check_swap_accounts, open_for_swap, swap_pool,
  direction_of, swap_context,
}

pub unpack-content :
    (rt : Runtime) (k : Pubkey) (bank : Bank) {t : TokenAccount}
    → unpack_token_account rt k bank ≡ ok t
    → (bank k).content ≡ AccountData.token_data t
unfolding unpack_token_account
unpack-content rt k bank h = ground arith

pub load_amm-content :
    (rt : Runtime) (k : Pubkey) (bank : Bank) {a : AmmInfo}
    → load_amm rt k bank ≡ ok a
    → (bank k).content ≡ AccountData.amm_data a
unfolding load_amm
load_amm-content rt k bank h = ground arith

-- The keys that a swap has compared: the vaults are the pool's, and neither of the user's accounts is.
pub record KeysApart (a : SwapAccounts) (coin pc : Pubkey) : Type 0 where
  pub coin_vault : a.amm_coin_vault.key ≡ coin
  pub pc_vault : a.amm_pc_vault.key ≡ pc
  pub source_coin : a.user_source.key ≢ coin
  pub source_pc : a.user_source.key ≢ pc
  pub destination_coin : a.user_destination.key ≢ coin
  pub destination_pc : a.user_destination.key ≢ pc
  pub signed : a.user_source_owner.is_signer ≡ true

pub check-KeysApart :
    (rt : Runtime) (a : SwapAccounts) (amm : AmmInfo)
    → check_swap_accounts rt a amm ≡ ok tt
    → KeysApart a amm.coin_vault amm.pc_vault
unfolding check_swap_accounts
check-KeysApart rt a amm h =
    let (signed, h1) = fail_if-eq-ok (not a.user_source_owner.is_signer) invalid_sign_account _ h in
    let (_, h2) =
      fail_if-eq-ok (a.token_program.key != rt.spl_token_id) invalid_spl_token_program _ h1 in
    after_bind (authority_id rt (amm.nonce % 256)) h2 λ authority _ h3.
      let (_, h4) = fail_if-eq-ok (a.amm_authority.key != authority) invalid_program_address _ h3 in
      let (coin, h5) =
        fail_if-eq-ok (a.amm_coin_vault.key != amm.coin_vault) invalid_coin_vault _ h4 in
      let (pc, h6) = fail_if-eq-ok (a.amm_pc_vault.key != amm.pc_vault) invalid_pc_vault _ h5 in
      let (source, h7) =
        fail_if-eq-ok (a.user_source.key == amm.pc_vault || a.user_source.key == amm.coin_vault)
          invalid_user_token _ h6 in
      let destination =
        fail_if-ok
          (a.user_destination.key == amm.pc_vault || a.user_destination.key == amm.coin_vault)
          invalid_user_token h7 in
      record {
        coin_vault = ground arith;
        pc_vault = ground arith;
        source_coin = ground arith;
        source_pc = ground arith;
        destination_coin = ground arith;
        destination_pc = ground arith;
        signed = ground arith;
      }

-- Of the pool's record, opening it for a swap changes the status only.
open_for_swap-frame :
    (rt : Runtime) (s : AmmStatus) (amm : AmmInfo) {amm' : AmmInfo}
    → open_for_swap rt s amm ≡ ok amm'
    → (amm'.coin_vault ≡ amm.coin_vault)
      × (amm'.pc_vault ≡ amm.pc_vault)
      × (amm'.state_data ≡ amm.state_data)
unfolding open_for_swap
open_for_swap-frame rt s amm h = (ground arith, ground arith, ground arith)

-- What a successful context tells of the bank.
pub record IsSwapContext (bank : Bank) (c : SwapContext) : Type 0 where
  pub keys : KeysApart c.accounts c.amm.coin_vault c.amm.pc_vault
  pub coin_content : (bank c.amm.coin_vault).content ≡ AccountData.token_data c.coin_vault
  pub pc_content : (bank c.amm.pc_vault).content ≡ AccountData.token_data c.pc_vault
  pub source_content : (bank c.accounts.user_source.key).content ≡ AccountData.token_data c.source
  pub destination_content :
      (t : TokenAccount) × ((bank c.accounts.user_destination.key).content
        ≡ AccountData.token_data t)
  pub amm_content :
      (amm : AmmInfo) × ((bank c.accounts.amm.key).content ≡ AccountData.amm_data amm)
      × (amm.coin_vault ≡ c.amm.coin_vault)
      × (amm.pc_vault ≡ c.amm.pc_vault)
      × (amm.state_data ≡ c.amm.state_data)
  pub totals :
      c.enable_orderbook ≡ false
      → (c.pool.total_coin + c.amm.state_data.need_take_pnl_coin ≡ c.coin_vault.amount)
        × (c.pool.total_pc + c.amm.state_data.need_take_pnl_pc ≡ c.pc_vault.amount)

swap_pool-totals :
    (rt : Runtime) (mk : Market) (a : SwapAccounts) (amm : AmmInfo) (pc coin : ℕ) (bank : Bank)
    {pool : SwapPool}
    → swap_pool rt mk false a amm pc coin bank ≡ ok pool
    → (pool.total_coin + amm.state_data.need_take_pnl_coin ≡ coin)
      × (pool.total_pc + amm.state_data.need_take_pnl_pc ≡ pc)
unfolding swap_pool calc_total_without_take_pnl_no_orderbook
swap_pool-totals rt mk a amm pc coin bank h = (ground arith, ground arith)

pub swap_context-IsSwapContext :
    (rt : Runtime) (mk : Market) (accounts : List AccountInfo) (bank : Bank) {c : SwapContext}
    → swap_context rt mk accounts bank ≡ ok c
    → IsSwapContext bank c
unfolding swap_context
swap_context-IsSwapContext rt mk accounts bank h = after_bind (swap_accounts accounts) h λ a e1 h1.
    after_bind (load_amm rt a.amm.key bank) h1 λ amm e2 h2.
      after_bind (status_from_u64 amm.status) h2 λ status e3 h3.
        after_bind (check_swap_accounts rt a amm) h3 λ u e4 h4.
          after_bind (unpack_token_account rt a.amm_coin_vault.key bank) h4 λ coin_vault e5 h5.
            after_bind (unpack_token_account rt a.amm_pc_vault.key bank) h5 λ pc_vault e6 h6.
              after_bind (unpack_token_account rt a.user_source.key bank) h6 λ source e7 h7.
                after_bind (unpack_token_account rt a.user_destination.key bank) h7
                  λ destination e8 h8. after_bind (open_for_swap rt status amm) h8 λ amm' e9 h9.
                    after_bind
                      (swap_pool rt mk (orderbook_permission status) a amm' pc_vault.amount
                        coin_vault.amount bank)
                      h9
                      λ pool e10 h10.
                        after_bind (direction_of source destination coin_vault pc_vault) h10
                          λ direction e11 h11.
                            let (coin, pc, data') = open_for_swap-frame rt status amm e9 in
                            let keys : KeysApart a amm'.coin_vault amm'.pc_vault =
                              rw (coin, pc) (check-KeysApart rt a amm e4) in
                            let context : SwapContext = record {
                              accounts = a;
                              enable_orderbook = orderbook_permission status;
                              amm = amm';
                              coin_vault = coin_vault;
                              pc_vault = pc_vault;
                              source = source;
                              pool = pool;
                              direction = direction;
                            } in
                            let facts : IsSwapContext bank context = record {
                              keys = keys;
                              coin_content =
                                  rw (← keys.coin_vault)
                                    (unpack-content rt a.amm_coin_vault.key bank e5);
                              pc_content =
                                  rw (← keys.pc_vault)
                                    (unpack-content rt a.amm_pc_vault.key bank e6);
                              source_content = unpack-content rt a.user_source.key bank e7;
                              destination_content =
                                  (destination, unpack-content rt a.user_destination.key bank e8);
                              amm_content = (
                                amm,
                                load_amm-content rt a.amm.key bank e2,
                                sym coin,
                                sym pc,
                                sym data',
                              );
                              totals = λ off.
                                  swap_pool-totals rt mk a amm' pc_vault.amount coin_vault.amount
                                    bank (rw off at e10);
                            } in
                            rw (ok-inj h11) at facts
