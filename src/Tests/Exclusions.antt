-- ===== src/Tests/Exclusions.antt =====
-- Examples for the circuit breaker: a borrow, and liquidity of the same pair in its transaction.
use omnipair_rs.Base.{◌≢◌, ◌≡◌, refl, arith}
use omnipair_rs.Outcome.{ok}
use omnipair_rs.Breaker.{load_instruction_count}
use omnipair_rs.Liquidity.{LiquidityAccounts}
use omnipair_rs.Liquidity.Add
use omnipair_rs.Liquidity.Remove
use omnipair_rs.System.Exclusion.{running, borrow_excludes_deltas}
use omnipair_rs.Tests.{model, pair_ab, debtor, protocol, sysvar, ids, tokens, ledger}
use omnipair_rs.Tests.Loans.{debt_accounts, after_borrow, after_borrow-eq}
use omnipair_rs.Tests.Shares.{offer, request}

abbrev provider : LiquidityAccounts
provider = record {
  reserve0_vault = 51;
  reserve1_vault = 52;
  user_token0 = 53;
  user_token1 = 54;
  user_lp = 56;
}

counted-eq : load_instruction_count sysvar.bytes ≡ ok 1
unfolding load_instruction_count
counted-eq = refl

borrow_excludes_deltas_example :
    (Add.add tokens 100 model ids 8
        (running 0 sysvar)
        protocol
        provider
        offer
        (after_borrow.1)
        (after_borrow.2)
      ≢ ok (pair_ab, ledger))
    × (Remove.remove tokens 100 model ids 8
          (running 0 sysvar)
          protocol
          provider
          request
          (after_borrow.1)
          (after_borrow.2)
        ≢ ok (pair_ab, ledger))
borrow_excludes_deltas_example =
    borrow_excludes_deltas tokens 100 model ids 8 sysvar protocol debt_accounts 5_000 debtor pair_ab
      ledger 1 0 provider offer request (after_borrow.1) (after_borrow.2) (pair_ab, ledger)
      after_borrow-eq counted-eq (omega arith)
