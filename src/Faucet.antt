-- ===== src/Faucet.antt =====
-- programs/faucet/src/lib.rs: the faucet of the test tokens. The token program is a parameter.
use omnipair_rs.Base.{ℕ, ◌*◌, ◌^◌, Pubkey}
use omnipair_rs.Outcome.{Result, ◌>>=◌}
use omnipair_rs.Token.{TokenProgram, or_external}

pub record FaucetMint : Type 0 where
  pub user_token0_account : Pubkey
  pub user_token1_account : Pubkey
  pub token0_mint : Pubkey
  pub token1_mint : Pubkey

-- 50000 tokens of 6 decimals.
abbrev pub mint_amount : ℕ
mint_amount = 50_000 * 10 ^ 6

module _ (t : TokenProgram) where
  open t use {Ledger, mint_to}

  -- `handle_faucet_mint`, with the `token_mint_to` of this program, which skips nothing.
  unfoldable pub handle_faucet_mint : FaucetMint → Ledger → Result Ledger
  handle_faucet_mint a l = do
    minted ← or_external t (mint_to a.token0_mint a.user_token0_account mint_amount l)
    or_external t (mint_to a.token1_mint a.user_token1_account mint_amount minted)
