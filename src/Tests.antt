-- ===== src/Tests.antt =====
-- Concrete inputs for the examples: a pair with debt on both sides, a position in it, and a token
-- program whose ledger is a function from the accounts to their balances.
pub mod Swaps
pub mod Debts
pub mod Loans
pub mod Shares
pub mod Rates
pub mod Numbers
pub mod Protocol
pub mod Runs
pub mod Quotes
pub mod Exclusions
pub mod Dispatched
pub mod Custody
pub mod Views
use omnipair_rs.Base.{
  ℕ, ◌+◌, ◌-◌, ◌≤◌, ◌≡◌, ◌≢◌, false, Option, none, some, List, [], ◌∷◌, leb, ◌==◌, if◌then◌else◌,
  Pubkey, arith,
}
pub use omnipair_rs.Outcome.{value_or}
use omnipair_rs.Outcome.{Result, ok, err}
use omnipair_rs.RateModel.{RateModel}
use omnipair_rs.Futarchy.{RevenueShare, RevenueRecipients, RevenueDistribution, FutarchyAuthority}
use omnipair_rs.Pair.{Side, Pair}
use omnipair_rs.Position.{UserPosition}
use omnipair_rs.Token.{TokenProgram, IsTokenProgram}
use omnipair_rs.Breaker.{Sysvar, ProgramIds}

abbrev pub side_a : Side
side_a = record {
  reserve = 1_000_000;
  cash_reserve = 900_000;
  last_price_ema = record { symmetric = 2_000_000_000; directional = 2_000_000_000 };
  last_rate = 20_000_000;
  total_debt = 100_000;
  total_debt_shares = 100_000_000_000;
  total_collateral = 50_000;
  token_decimals = 6;
}

abbrev pub side_b : Side
side_b = record {
  reserve = 2_000_000;
  cash_reserve = 1_900_000;
  last_price_ema = record { symmetric = 500_000_000; directional = 500_000_000 };
  last_rate = 20_000_000;
  total_debt = 100_000;
  total_debt_shares = 100_000_000_000;
  total_collateral = 0;
  token_decimals = 6;
}

abbrev pub pair_ab : Pair
pair_ab = record {
  token0 = 10;
  token1 = 20;
  lp_mint = 30;
  rate_model = 40;
  swap_fee_bps = 30;
  half_life = 60_000;
  fixed_cf_bps = none;
  side0 = side_a;
  side1 = side_b;
  last_update = 100;
  total_supply = 1_414_213;
  params_hash = 0;
  version = 1;
  bump = 255;
  vault_bumps = record { reserve0 = 1; reserve1 = 2; collateral0 = 3; collateral1 = 4 };
  reduce_only = false;
}

-- It owes 20000 units of token 1 against 50000 units of token 0.
abbrev pub debtor : UserPosition
debtor = record {
  owner = 7;
  pair = 8;
  collateral0_liquidation_cf_bps = 8_500;
  collateral1_liquidation_cf_bps = 0;
  collateral0 = 50_000;
  collateral1 = 0;
  debt0_shares = 0;
  debt1_shares = 20_000_000_000;
  bump = 254;
}

abbrev pub model : RateModel
model = record {
  exp_rate = 2;
  target_util_start = 300_000_000;
  target_util_end = 500_000_000;
  half_life_ms = 259_200_000;
  min_rate = 10_000_000;
  max_rate = 0;
  initial_rate = 20_000_000;
}

abbrev pub split : RevenueDistribution
split = record {
  futarchy_treasury_bps = 3_000;
  buybacks_vault_bps = 3_000;
  team_treasury_bps = 4_000;
}

abbrev pub protocol : FutarchyAuthority
protocol = record {
  version = 1;
  authority = 1;
  recipients = record { futarchy_treasury = 2; buybacks_vault = 3; team_treasury = 4 };
  revenue_share = record { swap_bps = 1_000; interest_bps = 1_000 };
  revenue_distribution = split;
  global_reduce_only = false;
  bump = 253;
}

-- A transaction of one instruction, of another program.
abbrev pub sysvar : Sysvar
sysvar = record {
  key = 99;
  load_current_index = some 0;
  load_instruction_at = λ i. some (record { program_id = 5; data_bytes = []; accounts = [] });
  bytes = some (1 ∷ 0 ∷ []);
}

abbrev pub ids : ProgramIds
ids = record { program = 6; instructions_sysvar = 99 }

abbrev pub moved : Pubkey → Pubkey → ℕ → (Pubkey → ℕ) → Pubkey → ℕ
moved from to amount l k = if k == from then l k - amount else if k == to then l k + amount else l k

abbrev pub tokens : TokenProgram
tokens = record {
  Ledger = Pubkey → ℕ;
  balance = λ l k. l k;
  transfer_checked =
      λ from to amount l. if leb amount (l from) then some (moved from to amount l) else none;
  mint_to = λ mint to amount l. some (λ k. if k == to then l k + amount else l k);
  burn = λ mint from amount l.
      if leb amount (l from) then some (λ k. if k == from then l k - amount else l k) else none;
}

pub tokens-IsTokenProgram : IsTokenProgram tokens
tokens-IsTokenProgram = record {
  debits = λ from to amount l l' apart h. ground arith;
  credits = λ from to amount l l' apart h. ground arith;
  others = λ from to third amount l l' not_from not_to h. ground arith;
}

-- Every account holds ten million units.
abbrev pub ledger : Pubkey → ℕ
ledger k = 10_000_000
