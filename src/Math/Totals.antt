-- ===== src/Math/Totals.antt =====
-- The pool's totals (`Calculator::calc_exact_vault_in_serum` and its callers, program/src/math.rs).
use raydium_amm_fair.Common.{ℕ, true, false, List, [], ◌∷◌, ◌!=◌, if◌then◌else◌}
use raydium_amm_fair.Error.{checked_add_overflow, checked_sub_overflow}
use raydium_amm_fair.Outcome.{Outcome, ok, ok_or, unwrap, ◌>>=◌}
use raydium_amm_fair.Word.{checked_add, checked_sub}
use raydium_amm_fair.State.Accounts.{Pubkey, AmmInfo}
use raydium_amm_fair.Dex.Types.{Event, EventView, Side, OpenOrders}

-- One event of the pool: the overflow checks of the build make `+=` and `-=` panic.
apply_view : EventView → ℕ × ℕ → Outcome (ℕ × ℕ)
apply_view (EventView.fill Side.bid true paid received) (pc, coin) = do
  pc' ← unwrap (checked_sub pc paid)
  coin' ← unwrap (checked_add 64 coin received)
  ok (pc', coin')
apply_view (EventView.fill Side.ask true paid received) (pc, coin) = do
  coin' ← unwrap (checked_sub coin paid)
  pc' ← unwrap (checked_add 64 pc received)
  ok (pc', coin')
apply_view (EventView.fill _ false paid received) totals = ok totals
apply_view EventView.out totals = ok totals

apply_events : Pubkey → List Event → ℕ × ℕ → Outcome (ℕ × ℕ)
unfolding apply_view
apply_events owner [] totals = ok totals
apply_events owner (event ∷ events) totals = do
  totals' ← if event.owner != owner then ok totals else apply_view event.view totals
  apply_events owner events totals'

-- The result is the total of pc and the total of coin, with the events that are not settled yet.
unfoldable pub calc_exact_vault_in_serum : OpenOrders → List Event → Pubkey → Outcome (ℕ × ℕ)
unfolding apply_events
calc_exact_vault_in_serum open_orders events amm_open =
    apply_events amm_open events (open_orders.native_pc_total, open_orders.native_coin_total)

unfoldable pub calc_total_without_take_pnl :
    ℕ → ℕ → OpenOrders → AmmInfo → List Event → Pubkey → Outcome (ℕ × ℕ)
unfolding calc_exact_vault_in_serum
calc_total_without_take_pnl pc_amount coin_amount open_orders amm events amm_open = do
  (pc_total_in_serum, coin_total_in_serum) ← calc_exact_vault_in_serum open_orders events amm_open
  pc_sum ← ok_or (checked_add 64 pc_amount pc_total_in_serum) checked_add_overflow
  total_pc ← ok_or (checked_sub pc_sum amm.state_data.need_take_pnl_pc) checked_sub_overflow
  coin_sum ← ok_or (checked_add 64 coin_amount coin_total_in_serum) checked_add_overflow
  total_coin ← ok_or (checked_sub coin_sum amm.state_data.need_take_pnl_coin) checked_sub_overflow
  ok (total_pc, total_coin)

unfoldable pub calc_total_without_take_pnl_no_orderbook : ℕ → ℕ → AmmInfo → Outcome (ℕ × ℕ)
calc_total_without_take_pnl_no_orderbook pc_amount coin_amount amm = do
  total_pc ← ok_or (checked_sub pc_amount amm.state_data.need_take_pnl_pc) checked_sub_overflow
  total_coin ←
      ok_or (checked_sub coin_amount amm.state_data.need_take_pnl_coin) checked_sub_overflow
  ok (total_pc, total_coin)
