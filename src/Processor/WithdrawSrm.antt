-- ===== src/Processor/WithdrawSrm.antt =====
-- `process_withdraw_srm` (program/src/processor.rs). Logs are left out.
use raydium_amm_fair.Common.{ℕ, ◌%◌, List, ◌||◌, ◌&&◌, not, ltb, ◌==◌, ◌!=◌}
use raydium_amm_fair.Error.{
  invalid_status, invalid_sign_account, invalid_spl_token_program, invalid_program_address,
  invalid_owner, invalid_srm_mint, invalid_input, insufficient_funds,
}
use raydium_amm_fair.Outcome.{Outcome, fail_if, ◌>>=◌, ◌>>◌}
use raydium_amm_fair.Config.{amm_owner_id, srm_token_id, msrm_token_id}
use raydium_amm_fair.State.Status.{status_into_u64, uninitialized}
use raydium_amm_fair.Chain.{
  AccountInfo, Bank, Runtime, next_account_info, authority_id, load_amm, unpack_token_account,
}

-- `amount` is the field of `WithdrawSrmInstruction`.
unfoldable pub process_withdraw_srm : Runtime → List AccountInfo → ℕ → Bank → Outcome Bank
unfolding next_account_info
process_withdraw_srm rt accounts amount bank = do
  (token_program_info, r1) ← next_account_info accounts
  (amm_info, r2) ← next_account_info r1
  (amm_owner_info, r3) ← next_account_info r2
  (amm_authority_info, r4) ← next_account_info r3
  (srm_token_info, r5) ← next_account_info r4
  (dest_srm_token_info, _) ← next_account_info r5
  amm ← load_amm rt amm_info.key bank
  fail_if (amm.status == status_into_u64 uninitialized) invalid_status
  fail_if (not amm_owner_info.is_signer || amm_owner_info.key != amm_owner_id) invalid_sign_account
  fail_if (token_program_info.key != rt.spl_token_id) invalid_spl_token_program
  authority ← authority_id rt (amm.nonce % 256)
  fail_if (amm_authority_info.key != authority) invalid_program_address
  srm_token ← unpack_token_account rt srm_token_info.key bank
  fail_if (srm_token.owner != amm_authority_info.key) invalid_owner
  fail_if (srm_token.mint != srm_token_id && srm_token.mint != msrm_token_id) invalid_srm_mint
  dest_srm_token ← unpack_token_account rt dest_srm_token_info.key bank
  fail_if (srm_token.mint != dest_srm_token.mint) invalid_input
  fail_if (ltb srm_token.amount amount) insufficient_funds
  rt.transfer srm_token_info.key dest_srm_token_info.key amm_authority_info.key amount bank
