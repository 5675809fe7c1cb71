-- ===== src/Processor/Monitor/Sent.antt =====
-- What placing orders does to the pool's record.
use raydium_amm_fair.Common.{
  ℕ, zero, suc, ◌+◌, ◌≡◌, refl, sym, ap, ◌∙◌, true, false, List, [], ◌∷◌, ◌⊎◌, ◌&&◌, ltb, ◌!=◌,
  then_of, else_of, Bool-cases, inl, inr, ◌%◌, ◌==◌, if◌then◌else◌,
}
use raydium_amm_fair.Outcome.{ok, unwrap, read_at, write_at, after_bind, ok-inj}
use raydium_amm_fair.Word.{checked_add, checked_mul}
use raydium_amm_fair.State.Status.{state_into_u64, cancel_all_orders_state}
use raydium_amm_fair.State.Accounts.{AmmInfo, incr_client_order_id}
use raydium_amm_fair.Chain.{Runtime, unpack_token_account}
use raydium_amm_fair.Dex.Types.{Market, bid, ask}
use raydium_amm_fair.Math.Decimal.{convert_price_out, convert_vol_out, convert_out_pc_lot_size}
use raydium_amm_fair.Processor.Monitor.Accounts.{MonitorAccounts}
use raydium_amm_fair.Processor.Monitor.Orders.{ChosenId, choose_id, pop_back, pop_front, send_order}
use raydium_amm_fair.Processor.Monitor.Place.{
  Placing, send_bid, place_bid, send_ask, place_ask, short_of_funds, available, reload_funds,
  end_round, place_round, place_rounds,
}

-- Only the last client order identifier and the state change, and the state only where the loop
-- stops.
pub record IsPlacing (amm : AmmInfo) (p : Placing) : Type 0 where
  pub kept : p.amm ≡ record amm { client_order_id = p.amm.client_order_id; state = p.amm.state }
  pub state :
      ((p.stopped ≡ false) × (p.amm.state ≡ amm.state))
      ⊎ ((p.stopped ≡ true) × (p.amm.state ≡ state_into_u64 cancel_all_orders_state))

choose_id-amm :
    (amm : AmmInfo) (ids : List ℕ) (n : ℕ) {c : ChosenId}
    → choose_id amm ids n ≡ ok c
    → c.amm ≡ record amm { client_order_id = c.amm.client_order_id }
unfolding choose_id incr_client_order_id
choose_id-amm amm [] n h =
    let same = ap (λ c. c.amm) (ok-inj h) in
    sym same ∙ ap (λ (a : AmmInfo). record amm { client_order_id = a.client_order_id }) same
choose_id-amm amm (x ∷ xs) n h =
    after_bind (unwrap (if n == 0 then pop_back (x ∷ xs) else pop_front (x ∷ xs))) h λ (_, _) _ h1.
      let same = ap (λ c. c.amm) (ok-inj h1) in
      sym same ∙ ap (λ (a : AmmInfo). record amm { client_order_id = a.client_order_id }) same

-- A round that goes on leaves the record with another identifier at most.
abbrev Continues : Placing → Placing → Type 0
Continues p p' =
    (p'.stopped ≡ p.stopped) × (p'.amm ≡ record p.amm { client_order_id = p'.amm.client_order_id })

send_bid-Continues :
    (mk : Market) (a : MonitorAccounts) (price qty pc : ℕ) (p : Placing) {p' : Placing}
    → send_bid mk a price qty pc p ≡ ok p'
    → Continues p p'
unfolding send_bid
send_bid-Continues mk a price qty pc p h =
    after_bind (choose_id p.amm p.bids_client_ids p.target.valid_buy_order_num) h λ c e1 h1.
      after_bind (write_at p.target.replace_buy_client_id p.target.valid_buy_order_num c.id) h1
        λ ids _ h2.
          after_bind (send_order mk a a.amm_pc_vault.key bid price qty pc c p.bank) h2 λ b _ h3.
            after_bind (unwrap (checked_add 64 p.target.valid_buy_order_num 1)) h3 λ num _ h4.
              let same = ok-inj h4 in
              let kept = choose_id-amm p.amm p.bids_client_ids p.target.valid_buy_order_num e1 in
              (rw (← same), rw (← same) kept)

send_ask-Continues :
    (mk : Market) (a : MonitorAccounts) (price qty : ℕ) (p : Placing) {p' : Placing}
    → send_ask mk a price qty p ≡ ok p'
    → Continues p p'
unfolding send_ask
send_ask-Continues mk a price qty p h =
    after_bind (choose_id p.amm p.asks_client_ids p.target.valid_sell_order_num) h λ c e1 h1.
      after_bind (write_at p.target.replace_sell_client_id p.target.valid_sell_order_num c.id) h1
        λ ids _ h2.
          after_bind (send_order mk a a.amm_coin_vault.key ask price qty 1 c p.bank) h2 λ b _ h3.
            after_bind (unwrap (checked_add 64 p.target.valid_sell_order_num 1)) h3 λ num _ h4.
              let same = ok-inj h4 in
              let kept = choose_id-amm p.amm p.asks_client_ids p.target.valid_sell_order_num e1 in
              (rw (← same), rw (← same) kept)

same-IsPlacing :
    (amm : AmmInfo) (p p' : Placing)
    → p.stopped ≡ false
    → IsPlacing amm p
    → Continues p p'
    → IsPlacing amm p'
same-IsPlacing amm p p' go i (s, e) =
    let same_state : p'.amm.state ≡ p.amm.state = ap (λ a. a.state) e in
    record {
      kept =
          e
          ∙ ap (λ (b : AmmInfo). record b { client_order_id = p'.amm.client_order_id }) i.kept
          ∙ ap (λ z. record amm { client_order_id = p'.amm.client_order_id; state = z })
              (sym same_state);
      state = elim i.state [
        | inl (_, kept) ↦ inl (s ∙ go, same_state ∙ kept)
        | inr (stopped, _) ↦ absurd (cc)
      ];
    }

short-IsPlacing : (amm : AmmInfo) (p : Placing) → IsPlacing amm p → IsPlacing amm (short_of_funds p)
unfolding short_of_funds
short-IsPlacing amm p i = record {
  kept = ap (λ (b : AmmInfo). record b { state = state_into_u64 cancel_all_orders_state }) i.kept;
  state = inr (refl, refl);
}

Continues-refl : (p : Placing) → Continues p p
Continues-refl p = (refl, refl)

module _ (amm : AmmInfo) (p : Placing) {p' : Placing} (go : p.stopped ≡ false)
    (i : IsPlacing amm p) where
  place_bid-IsPlacing :
      (mk : Market) (a : MonitorAccounts) (n : ℕ) → place_bid mk a n p ≡ ok p' → IsPlacing amm p'
  unfolding place_bid
  place_bid-IsPlacing mk a n h = after_bind (read_at p.target.buy_orders n) h λ order _ h1.
      after_bind (convert_price_out order.price p.amm.pc_lot_size) h1 λ price _ h2.
        after_bind
          (convert_vol_out order.vol p.amm.coin_decimals p.amm.coin_lot_size
            p.amm.sys_decimal_value)
          h2
          λ qty _ h3.
            after_bind
              (convert_out_pc_lot_size (p.amm.pc_decimals % 256) (p.amm.coin_decimals % 256)
                p.amm.pc_lot_size p.amm.coin_lot_size p.amm.sys_decimal_value)
              h3
              λ lot _ h4. after_bind (unwrap (checked_mul 64 qty price)) h4 λ product _ h5.
                after_bind (unwrap (checked_mul 64 product lot)) h5 λ pc _ h6.
                  elim (Bool-cases (ltb p.pc_available pc)) [
                    | inl short ↦ rw (← ok-inj (rw short at h6)) (short-IsPlacing amm p i)
                    | inr enough ↦ elim (Bool-cases (price != 0 && qty != 0)) [
                      | inl sent ↦
                          same-IsPlacing amm p p' go i
                            (send_bid-Continues mk a price qty pc p (rw (enough, sent) at h6))
                      | inr nothing ↦ rw (← ok-inj (rw (enough, nothing) at h6)) i
                    ]
                  ]

  place_ask-IsPlacing :
      (mk : Market) (a : MonitorAccounts) (n : ℕ) → place_ask mk a n p ≡ ok p' → IsPlacing amm p'
  unfolding place_ask
  place_ask-IsPlacing mk a n h = after_bind (read_at p.target.sell_orders n) h λ order _ h1.
      after_bind (convert_price_out order.price p.amm.pc_lot_size) h1 λ price _ h2.
        after_bind
          (convert_vol_out order.vol p.amm.coin_decimals p.amm.coin_lot_size
            p.amm.sys_decimal_value)
          h2
          λ qty _ h3. after_bind (unwrap (checked_mul 64 qty p.amm.coin_lot_size)) h3 λ coin _ h4.
            elim (Bool-cases (ltb p.coin_available coin)) [
              | inl short ↦ rw (← ok-inj (rw short at h4)) (short-IsPlacing amm p i)
              | inr enough ↦ elim (Bool-cases (price != 0 && qty != 0)) [
                | inl sent ↦
                    same-IsPlacing amm p p' go i
                      (send_ask-Continues mk a price qty p (rw (enough, sent) at h4))
                | inr nothing ↦ rw (← ok-inj (rw (enough, nothing) at h4)) i
              ]
            ]

  end_round-IsPlacing :
      (rt : Runtime) (mk : Market) (a : MonitorAccounts)
      → end_round rt mk a p ≡ ok p'
      → IsPlacing amm p'
  unfolding end_round reload_funds
  end_round-IsPlacing rt mk a h =
      after_bind (unwrap (checked_add 64 p.target.place_orders_cur 1)) h λ cur _ h1.
        after_bind
          (mk.load_open_orders a.amm_open_orders.key a.market.key a.amm_authority.key
            p.amm.market_program p.bank)
          h1
          λ orders _ h2. after_bind (unpack_token_account rt a.amm_pc_vault.key p.bank) h2 λ v _ h3.
            after_bind (unpack_token_account rt a.amm_pc_vault.key p.bank) h3 λ w _ h4.
              after_bind
                (available v.amount orders.native_pc_free p.amm.state_data.need_take_pnl_pc) h4
                λ pc _ h5.
                  after_bind
                    (available w.amount orders.native_coin_free p.amm.state_data.need_take_pnl_coin)
                    h5
                    λ coin _ h6.
                      let same = ok-inj h6 in
                      same-IsPlacing amm p p' go i (rw (← same), rw (← same))

place_round-IsPlacing :
    (rt : Runtime) (mk : Market) (a : MonitorAccounts) (amm : AmmInfo) (n : ℕ) (p : Placing)
    {p' : Placing}
    → p.stopped ≡ false
    → IsPlacing amm p
    → place_round rt mk a n p ≡ ok p'
    → IsPlacing amm p'
unfolding place_round
place_round-IsPlacing rt mk a amm n p go i h = after_bind (place_bid mk a n p) h λ p1 e1 h1.
    let i1 = place_bid-IsPlacing amm p go i mk a n e1 in
    elim (Bool-cases p1.stopped) [
      | inl stop ↦ rw (← ok-inj (then_of p1.stopped _ stop h1)) i1
      | inr go1 ↦ after_bind (place_ask mk a n p1) (else_of p1.stopped _ go1 h1) λ p2 e2 h2.
          let i2 = place_ask-IsPlacing amm p1 go1 i1 mk a n e2 in
          elim (Bool-cases p2.stopped) [
            | inl stop ↦ rw (← ok-inj (then_of p2.stopped _ stop h2)) i2
            | inr go2 ↦ end_round-IsPlacing amm p2 go2 i2 rt mk a (else_of p2.stopped _ go2 h2)
          ]
    ]

pub place_rounds-IsPlacing :
    (rt : Runtime) (mk : Market) (a : MonitorAccounts) (amm : AmmInfo) (left n : ℕ) (p : Placing)
    {p' : Placing}
    → p.stopped ≡ false
    → IsPlacing amm p
    → place_rounds rt mk a left n p ≡ ok p'
    → IsPlacing amm p'
unfolding place_rounds
place_rounds-IsPlacing rt mk a amm zero n p go i h = rw (← ok-inj h) i
place_rounds-IsPlacing rt mk a amm (suc left) n p go i h =
    after_bind (place_round rt mk a n p) h λ p1 e1 h1.
      let i1 = place_round-IsPlacing rt mk a amm n p go i e1 in
      elim (Bool-cases p1.stopped) [
        | inl stop ↦ rw (← ok-inj (then_of p1.stopped _ stop h1)) i1
        | inr go1 ↦
            place_rounds-IsPlacing rt mk a amm left (n + 1) p1 go1 i1 (else_of p1.stopped _ go1 h1)
      ]
