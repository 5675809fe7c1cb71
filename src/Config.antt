-- ===== src/Config.antt =====
-- The fixed keys of program/src/processor.rs: `srm_token`, `msrm_token`, and the main network's
-- `config_feature`.
use raydium_amm_fair.State.Accounts.{Pubkey}

-- SRMuApVNdxXokk5GT7XD5cUUgXMBCoAz2LHeuAoKWRt in base 58
abbrev pub srm_token_id : Pubkey
srm_token_id = 61162412943203236637054258964678404793611825426054826206657161051540661764870

-- MSRMcoVyrFxnSgo5uXwone5SKcGhT1KEJMFEkMEWf9L
abbrev pub msrm_token_id : Pubkey
msrm_token_id = 37650451447990642593286270624013593457159050945467568454060895173284720229381

-- GThUX1Atko4tqhN2NaiTazWSeFWMuiUvfFnyJyUghFMJ
abbrev pub amm_owner_id : Pubkey
amm_owner_id = 73067284147519526558740807223026779464008677136784376455861304904417431762661

-- srmqPvymJeFKQ4zGQed1GFppgkRHL9kaELCbyksJtPX
abbrev pub openbook_program : Pubkey
openbook_program = 108085175840840934649285426733261002661514262951838229669611042586598562662157

-- FCxGKqGSVeV1d3WsmAXt45A5iQdCS6kKCeJy3EUBigMG
abbrev pub referrer_owner : Pubkey
referrer_owner = 26807218770986811479356490075015569568671991278525678683654573906677089571795

-- 7YttLkHDoNj9wyDur5pM1ejNaAvT9X4eqaYcHQqtj2G5
abbrev pub create_pool_fee_address : Pubkey
create_pool_fee_address =
    6715074946445070983610840595290551555354831503775011174748409599837006942561
