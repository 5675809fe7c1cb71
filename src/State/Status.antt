-- ===== src/State/Status.antt =====
-- `AmmStatus`, `AmmState`, `AmmResetFlag`, `AmmParams` and `SimulateParams` of program/src/state.rs.
-- `from_u64` panics (`unreachable!`) on a number that is no variant.
use raydium_amm_fair.Common.{ℕ, ◌≡◌, refl, Bool, true, false, ◌||◌, List, [], ◌∷◌, ◌==◌, get_elem?}
use raydium_amm_fair.Outcome.{Outcome, ok, unwrap}

pub data AmmStatus : Type 0 where
  uninitialized initialized disabled withdraw_only : AmmStatus
  liquidity_only order_book_only swap_only waiting_trade : AmmStatus

abbrev statuses : List AmmStatus
statuses =
    uninitialized ∷ initialized ∷ disabled ∷ withdraw_only ∷ liquidity_only ∷ order_book_only
    ∷ swap_only ∷ waiting_trade ∷ []

unfoldable pub status_from_u64 : ℕ → Outcome AmmStatus
status_from_u64 status = unwrap (get_elem? statuses status)

abbrev pub status_into_u64 : AmmStatus → ℕ
status_into_u64 uninitialized = 0
status_into_u64 initialized = 1
status_into_u64 disabled = 2
status_into_u64 withdraw_only = 3
status_into_u64 liquidity_only = 4
status_into_u64 order_book_only = 5
status_into_u64 swap_only = 6
status_into_u64 waiting_trade = 7

unfoldable pub valid_status : ℕ → Bool
valid_status s = s == 1 || s == 2 || s == 3 || s == 4 || s == 5 || s == 6 || s == 7

abbrev pub deposit_permission : AmmStatus → Bool
deposit_permission uninitialized = false
deposit_permission initialized = true
deposit_permission disabled = false
deposit_permission withdraw_only = false
deposit_permission liquidity_only = true
deposit_permission order_book_only = true
deposit_permission swap_only = true
deposit_permission waiting_trade = true

abbrev pub withdraw_permission : AmmStatus → Bool
withdraw_permission uninitialized = false
withdraw_permission initialized = true
withdraw_permission disabled = false
withdraw_permission withdraw_only = true
withdraw_permission liquidity_only = true
withdraw_permission order_book_only = true
withdraw_permission swap_only = true
withdraw_permission waiting_trade = true

abbrev pub swap_permission : AmmStatus → Bool
swap_permission uninitialized = false
swap_permission initialized = true
swap_permission disabled = false
swap_permission withdraw_only = false
swap_permission liquidity_only = false
swap_permission order_book_only = false
swap_permission swap_only = true
swap_permission waiting_trade = true

abbrev pub orderbook_permission : AmmStatus → Bool
orderbook_permission uninitialized = false
orderbook_permission initialized = true
orderbook_permission disabled = false
orderbook_permission withdraw_only = false
orderbook_permission liquidity_only = false
orderbook_permission order_book_only = true
orderbook_permission swap_only = false
orderbook_permission waiting_trade = false

-- `invlid_state` is the source's spelling.
pub data AmmState : Type 0 where
  invlid_state idle_state cancel_all_orders_state plan_orders_state : AmmState
  cancel_order_state place_orders_state purge_order_state : AmmState

abbrev states : List AmmState
states =
    invlid_state ∷ idle_state ∷ cancel_all_orders_state ∷ plan_orders_state ∷ cancel_order_state
    ∷ place_orders_state ∷ purge_order_state ∷ []

unfoldable pub state_from_u64 : ℕ → Outcome AmmState
state_from_u64 state = unwrap (get_elem? states state)

abbrev pub state_into_u64 : AmmState → ℕ
state_into_u64 invlid_state = 0
state_into_u64 idle_state = 1
state_into_u64 cancel_all_orders_state = 2
state_into_u64 plan_orders_state = 3
state_into_u64 cancel_order_state = 4
state_into_u64 place_orders_state = 5
state_into_u64 purge_order_state = 6

unfoldable pub valid_state : ℕ → Bool
valid_state s = s == 0 || s == 1 || s == 2 || s == 3 || s == 4 || s == 5 || s == 6

pub data AmmResetFlag : Type 0 where
  reset_yes reset_no : AmmResetFlag

abbrev pub reset_flag_into_u64 : AmmResetFlag → ℕ
reset_flag_into_u64 reset_yes = 0
reset_flag_into_u64 reset_no = 1

pub data AmmParams : Type 0 where
  status state order_num depth amount_wave min_price_multiplier : AmmParams
  max_price_multiplier min_size vol_max_cut_ratio fees amm_owner set_open_time : AmmParams
  last_order_distance init_order_depth set_switch_time clear_open_time : AmmParams
  seperate update_open_order : AmmParams

abbrev params : List AmmParams
params =
    status ∷ state ∷ order_num ∷ depth ∷ amount_wave ∷ min_price_multiplier ∷ max_price_multiplier
    ∷ min_size ∷ vol_max_cut_ratio ∷ fees ∷ amm_owner ∷ set_open_time ∷ last_order_distance
    ∷ init_order_depth ∷ set_switch_time ∷ clear_open_time ∷ seperate ∷ update_open_order ∷ []

unfoldable pub params_from_u64 : ℕ → Outcome AmmParams
params_from_u64 param = unwrap (get_elem? params param)

pub data SimulateParams : Type 0 where
  pool_info swap_base_in_info swap_base_out_info run_crank_info : SimulateParams

abbrev simulate_params : List SimulateParams
simulate_params = pool_info ∷ swap_base_in_info ∷ swap_base_out_info ∷ run_crank_info ∷ []

unfoldable pub simulate_params_from_u64 : ℕ → Outcome SimulateParams
simulate_params_from_u64 flag = unwrap (get_elem? simulate_params flag)

-- Every stored status and state is read back as it was written.
pub status_from_u64-into : (s : AmmStatus) → status_from_u64 (status_into_u64 s) ≡ ok s
unfolding status_from_u64
status_from_u64-into uninitialized = refl
status_from_u64-into _ = refl

pub state_from_u64-into : (s : AmmState) → state_from_u64 (state_into_u64 s) ≡ ok s
unfolding state_from_u64
state_from_u64-into invlid_state = refl
state_from_u64-into _ = refl
