-- ===== src/Processor/Monitor/Trace.antt =====
-- A whole monitor step on the graph of states.
use raydium_amm_fair.Common.{
  ℕ, ◌≡◌, Option, none, some, List, ◌==◌, ◌!=◌, then_of, else_of, arith, Bool-cases, inl, inr,
}
use raydium_amm_fair.Error.{invalid_market_program, invalid_owner, market_lot_size_is_too_large}
use raydium_amm_fair.Outcome.{Outcome, ok, after_bind, fail_if-eq-ok, ok-inj, ◌>>=◌}
use raydium_amm_fair.Config.{openbook_program}
use raydium_amm_fair.State.Status.{
  AmmState, AmmStatus, status_from_u64, state_from_u64, state_into_u64, invlid_state, idle_state,
  cancel_all_orders_state, plan_orders_state, cancel_order_state, place_orders_state,
  purge_order_state, reset_flag_into_u64, reset_yes,
}
use raydium_amm_fair.State.Accounts.{AmmInfo}
use raydium_amm_fair.Chain.{AccountInfo, AccountData, Bank, Runtime, load_amm, write}
use raydium_amm_fair.Processor.Swap.Facts.{load_amm-content}
use raydium_amm_fair.Processor.Swap.Settled.{write-same}
use raydium_amm_fair.Dex.Types.{Market}
use raydium_amm_fair.Instruction.Types.{MonitorStepInstruction}
use raydium_amm_fair.Processor.Market.{unwrap_result}
use raydium_amm_fair.Processor.Monitor.Accounts.{MonitorAccounts, monitor_accounts, check_accounts}
use raydium_amm_fair.Processor.Monitor.Place.{MonitorResult}
use raydium_amm_fair.Processor.Monitor.Step.{
  state_step, status_step, monitor_branch, store_result, process_monitor_step,
}
use raydium_amm_fair.Processor.Monitor.Graph.{reset, cleared, IsStep, stay-IsStep}
use raydium_amm_fair.Processor.Monitor.Steps.{
  state_of_number, unwrap_result-ok, idle_step-IsStep, cancel_all_step-IsStep, plan_step-IsStep,
  cancel_order_step-IsStep, place_step-IsStep, purge_step-IsStep,
}

-- The result of a step, or no step.
abbrev IsMaybeStep : AmmInfo → AmmState → Option MonitorResult → Type 0
IsMaybeStep amm s none = Unit
IsMaybeStep amm s (some r) = IsStep s amm r.amm

module _ (rt : Runtime) (mk : Market) (a : MonitorAccounts) (amm : AmmInfo) (bank : Bank) where
  some_step :
      (s : AmmState) (m : Outcome MonitorResult) {o : Option MonitorResult}
      → ((r : MonitorResult) → m ≡ ok r → IsStep s amm r.amm)
      → (unwrap_result m >>= λ r. ok (some r)) ≡ ok o
      → IsMaybeStep amm s o
  some_step s m keep h =
      after_bind (unwrap_result m) h λ r e1 h1. rw (← ok-inj h1) (keep r (unwrap_result-ok m e1))

  state_step-IsStep :
      (integer_sqrt : ℕ → ℕ) (monitor : MonitorStepInstruction) (s : AmmState)
      {o : Option MonitorResult}
      → amm.state ≡ state_into_u64 s
      → state_step rt mk a amm bank integer_sqrt monitor s ≡ ok o
      → IsMaybeStep amm s o
  unfolding state_step
  state_step-IsStep integer_sqrt monitor invlid_state e h = rw (← ok-inj h) tt
  state_step-IsStep integer_sqrt monitor idle_state e h =
      some_step idle_state _ (λ r h'. idle_step-IsStep rt mk a amm bank integer_sqrt h') h
  state_step-IsStep integer_sqrt monitor cancel_all_orders_state e h =
      some_step cancel_all_orders_state _
        (λ r h'. cancel_all_step-IsStep rt mk a amm bank cancel_all_orders_state e cleared h') h
  state_step-IsStep integer_sqrt monitor plan_orders_state e h =
      some_step plan_orders_state _
        (λ r h'. plan_step-IsStep rt mk a amm bank monitor.plan_order_limit e h') h
  state_step-IsStep integer_sqrt monitor cancel_order_state e h =
      some_step cancel_order_state _ (λ r h'. cancel_order_step-IsStep rt mk a amm bank h') h
  state_step-IsStep integer_sqrt monitor place_orders_state e h =
      some_step place_orders_state _
        (λ r h'. place_step-IsStep rt mk a amm bank monitor.place_order_limit e h') h
  state_step-IsStep integer_sqrt monitor purge_order_state e h =
      some_step purge_order_state _ (λ r h'. purge_step-IsStep rt mk a amm bank e h') h

  status_step-IsStep :
      (integer_sqrt : ℕ → ℕ) (monitor : MonitorStepInstruction) (status : AmmStatus) (s : AmmState)
      {o : Option MonitorResult}
      → amm.state ≡ state_into_u64 s
      → status_step rt mk a amm bank integer_sqrt monitor status s ≡ ok o
      → IsMaybeStep amm s o
  unfolding status_step
  status_step-IsStep integer_sqrt monitor AmmStatus.initialized s e h =
      state_step-IsStep integer_sqrt monitor s e h
  status_step-IsStep integer_sqrt monitor AmmStatus.order_book_only s e h =
      state_step-IsStep integer_sqrt monitor s e h
  status_step-IsStep integer_sqrt monitor _ s e h = absurd (cc h)

  monitor_branch-IsStep :
      (integer_sqrt : ℕ → ℕ) (monitor : MonitorStepInstruction) (status : AmmStatus) (s : AmmState)
      {o : Option MonitorResult}
      → amm.state ≡ state_into_u64 s
      → monitor_branch rt mk a amm bank integer_sqrt monitor status s ≡ ok o
      → IsMaybeStep amm s o
  unfolding monitor_branch
  monitor_branch-IsStep integer_sqrt monitor status s e h =
      let wanted = amm.reset_flag == reset_flag_into_u64 reset_yes in
      elim (Bool-cases wanted) [
        | inl yes' ↦
            let flag : amm.reset_flag ≡ reset_flag_into_u64 reset_yes = ground arith in
            some_step s _ (λ r h'. cancel_all_step-IsStep rt mk a amm bank s e (reset s flag) h')
              (then_of wanted _ yes' h)
        | inr no' ↦
            let h1 = else_of wanted _ no' h in
            elim (Bool-cases (amm.order_num == 0)) [
              | inl nothing ↦ rw (← ok-inj (then_of (amm.order_num == 0) _ nothing h1)) tt
              | inr orders ↦
                  status_step-IsStep integer_sqrt monitor status s e
                    (else_of (amm.order_num == 0) _ orders h1)
            ]
      ]

-- What a monitor step leaves in the pool's account.
pub record IsMonitored (a : MonitorAccounts) (s : AmmState) (amm : AmmInfo) (bank' : Bank)
    (amm' : AmmInfo) : Type 0 where
  pub recorded : (bank' a.amm.key).content ≡ AccountData.amm_data amm'
  pub step : IsStep s amm amm'

stored-IsMonitored :
    (a : MonitorAccounts) (s : AmmState) (amm : AmmInfo) (bank : Bank) (o : Option MonitorResult)
    → (bank a.amm.key).content ≡ AccountData.amm_data amm
    → amm.state ≡ state_into_u64 s
    → IsMaybeStep amm s o
    → (amm' : AmmInfo) × IsMonitored a s amm (store_result a bank o) amm'
stored-IsMonitored a s amm bank none c e i =
    (amm, record { recorded = c; step = stay-IsStep s amm e })
stored-IsMonitored a s amm bank (some r) c e i = (
  r.amm,
  record {
    recorded =
        write-same a.amm.key (AccountData.amm_data r.amm)
          (write a.amm_target_orders.key (AccountData.target_data r.target) r.bank);
    step = i;
  },
)

-- A monitor step that succeeds moves the pool's state along an edge of the graph: from idle to
-- planning or to the cancellation of all orders, from planning to placing or back to idle, from
-- placing to purging, to idle or to the cancellation, from purging, from the cancellation of all
-- orders and from the unused state of cancelling to idle, from any state to idle where a reset is
-- wanted, or nowhere. Besides the state it changes only the reset flag, the last client order
-- identifier and the statistics, and the profit that is owed does not fall.
pub process_monitor_step-edge :
    (integer_sqrt : ℕ → ℕ) (rt : Runtime) (mk : Market) (accounts : List AccountInfo)
    (monitor : MonitorStepInstruction) (bank : Bank) (a : MonitorAccounts) (amm : AmmInfo)
    (s : AmmState) {bank' : Bank}
    → monitor_accounts accounts ≡ ok a
    → load_amm rt a.amm.key bank ≡ ok amm
    → state_from_u64 amm.state ≡ ok s
    → process_monitor_step integer_sqrt rt mk accounts monitor bank ≡ ok bank'
    → (amm' : AmmInfo) × IsMonitored a s amm bank' amm'
unfolding process_monitor_step
process_monitor_step-edge integer_sqrt rt mk accounts monitor bank a amm s {bank'} parsed loaded e
      h =
    let h0 = rw (parsed, loaded) at h in
    after_bind (check_accounts rt a amm bank) h0 λ _ _ h1.
      let (_, h2) =
        fail_if-eq-ok (a.market_program.key != openbook_program) invalid_market_program _ h1 in
      let (_, h3) = fail_if-eq-ok ((bank a.amm.key).owner != rt.program_id) invalid_owner _ h2 in
      let (_, h4) = fail_if-eq-ok (amm.min_size == 0) market_lot_size_is_too_large _ h3 in
      after_bind (status_from_u64 amm.status) h4 λ status _ h5.
        let h6 = rw e at h5 in
        after_bind (monitor_branch rt mk a amm bank integer_sqrt monitor status s) h6 λ o e7 h7.
          let number = state_of_number amm.state e in
          let i = monitor_branch-IsStep rt mk a amm bank integer_sqrt monitor status s number e7 in
          let c = load_amm-content rt a.amm.key bank loaded in
          rw (← ok-inj h7) (stored-IsMonitored a s amm bank o c number i)
