-- ===== src/Tests/Laws.antt =====
-- The token program of the small chain keeps the laws of transfers and of issues.
use raydium_amm_fair.Common.{
  ℕ, ◌+◌, ◌-◌, ◌≤◌, ◌≡◌, ◌≢◌, refl, false, ◌==◌, leb, arith, Bool-cases, inl, inr, ℕ_discrete,
}
use raydium_amm_fair.Outcome.{ok, ok-inj}
use raydium_amm_fair.State.Accounts.{Pubkey}
use raydium_amm_fair.Chain.{AccountData, Bank, IsTransfer, IsMint, IsBurn, balance, write}
use raydium_amm_fair.Processor.Swap.Settled.{write-same, write-other}
use raydium_amm_fair.Tests.World.{
  debit_credit, token_transfer, credit_only, token_mint, debit_supply, token_burn, runtime,
}

debit_credit-moves :
    (cs cd : AccountData) (s d : Pubkey) (n : ℕ) (b b' : Bank)
    → s ≢ d
    → (b s).content ≡ cs
    → (b d).content ≡ cd
    → debit_credit cs cd s d n b ≡ ok b'
    → (balance b' s + n ≡ balance b s)
      × (balance b' d ≡ balance b d + n)
      × ((k : Pubkey) → k ≢ s → k ≢ d → b' k ≡ b k)
unfolding debit_credit
debit_credit-moves (AccountData.token_data t) (AccountData.token_data u) s d n b b' ne es ed h =
    elim (Bool-cases (leb n t.amount)) [
      | inl e ↦
          let written = ok-inj (rw e at h) in
          let to_d = AccountData.token_data (record u { amount = u.amount + n }) in
          let from_s = AccountData.token_data (record t { amount = t.amount - n }) in
          let b1 = write s from_s b in
          let le : n ≤ t.amount = ground arith in
          (
            rw (← written, write-other s d to_d b1 ne, write-same s from_s b, es) omega arith,
            rw (← written, write-same d to_d b1, ed),
            λ k ks kd. rw (← written, write-other k d to_d b1 kd, write-other k s from_s b ks),
          )
      | inr e ↦ absurd (cc (rw e at h))
    ]
debit_credit-moves (AccountData.token_data t) _ s d n b b' ne es ed h = absurd (cc h)
debit_credit-moves _ _ s d n b b' ne es ed h = absurd (cc h)

apart_test : (s d : ℕ) → s ≢ d → (s == d) ≡ false
apart_test s d ne = ground arith

token_transfer-moves :
    (s d a : Pubkey) (n : ℕ) (b b' : Bank)
    → s ≢ d
    → token_transfer s d a n b ≡ ok b'
    → (balance b' s + n ≡ balance b s)
      × (balance b' d ≡ balance b d + n)
      × ((k : Pubkey) → k ≢ s → k ≢ d → b' k ≡ b k)
unfolding token_transfer
token_transfer-moves s d a n b b' ne h =
    debit_credit-moves (b s).content (b d).content s d n b b' ne refl refl
      (rw (apart_test s d ne) at h)

token_transfer-frame :
    (s d a k : Pubkey) (n : ℕ) (b b' : Bank)
    → k ≢ s
    → k ≢ d
    → token_transfer s d a n b ≡ ok b'
    → b' k ≡ b k
unfolding token_transfer
token_transfer-frame s d a k n b b' ks kd h = elim (Bool-cases (s == d)) [
  | inl e ↦ let same = ok-inj (rw e at h) in rw (← same)
  | inr e ↦
      let ne : s ≢ d = ground arith in
      (debit_credit-moves (b s).content (b d).content s d n b b' ne refl refl (rw e at h)).2 k ks kd
]

credit_only-keep :
    (c : AccountData) (d k : Pubkey) (n : ℕ) (b b' : Bank)
    → (b d).content ≡ c
    → credit_only c d n b ≡ ok b'
    → balance b k ≤ balance b' k
unfolding credit_only
credit_only-keep (AccountData.token_data t) d k n b b' e h =
    let more = AccountData.token_data (record t { amount = t.amount + n }) in
    let written = ok-inj h in
    elim (ℕ_discrete k d) [
      | yes same ↦ rw (← written, same, write-same d more b, e) omega arith
      | no ne ↦ rw (← written, write-other k d more b ne) omega arith
    ]
credit_only-keep _ d k n b b' e h = absurd (cc h)

pub runtime-IsTransfer : IsTransfer runtime
runtime-IsTransfer = record {
  debit = λ s d a n b b' ne h. (token_transfer-moves s d a n b b' ne h).0;
  credit = λ s d a n b b' ne h. (token_transfer-moves s d a n b b' ne h).1;
  frame = token_transfer-frame;
}

pub runtime-IsMint : IsMint runtime
unfolding token_mint
runtime-IsMint = record {
  keep = λ m d a k n b b' h. credit_only-keep (b d).content d k n b b' refl h;
}

debit_supply-frame :
    (cs cm : AccountData) (s m k : Pubkey) (n : ℕ) (b b' : Bank)
    → k ≢ s
    → k ≢ m
    → debit_supply cs cm s m n b ≡ ok b'
    → b' k ≡ b k
unfolding debit_supply
debit_supply-frame (AccountData.token_data t) (AccountData.mint_data u) s m k n b b' ks km h =
    elim (Bool-cases (leb n t.amount)) [
      | inl e ↦
          let written = ok-inj (rw e at h) in
          let less = AccountData.mint_data (record u { supply = u.supply - n }) in
          let from_s = AccountData.token_data (record t { amount = t.amount - n }) in
          rw (← written, write-other k m less (write s from_s b) km, write-other k s from_s b ks)
      | inr e ↦ absurd (cc (rw e at h))
    ]
debit_supply-frame (AccountData.token_data t) _ s m k n b b' ks km h = absurd (cc h)
debit_supply-frame _ _ s m k n b b' ks km h = absurd (cc h)

pub runtime-IsBurn : IsBurn runtime
unfolding token_burn
runtime-IsBurn = record {
  frame =
      λ s m a k n b b' ks km h. debit_supply-frame (b s).content (b m).content s m k n b b' ks km h;
}
