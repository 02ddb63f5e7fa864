-- ===== src/Vaults/Payouts.antt =====
-- Proofs: the update of a pair (state/pair.rs) and the claim of protocol fees
-- (instructions/futarchy/claim_protocol_fees.rs) leave the vaults of a pair with what the pair counts.
use native.Mathlib.Nat.{div-mul-le_self, mul-le-mul_left}
use omnipair_rs.Base.{ℕ, ◌+◌, ◌-◌, ◌*◌, ◌/◌, ◌≤◌, ◌≡◌, refl, true, arith}
use omnipair_rs.Word.{saturating_sub}
use omnipair_rs.Outcome.{ok, chain, guarded, require, invalid_distribution}
use omnipair_rs.Constants.{bps_denominator}
use omnipair_rs.RateModel.{RateModel}
use omnipair_rs.Futarchy.{FutarchyAuthority, RevenueDistribution, is_valid}
use omnipair_rs.Futarchy.Claim.{
  ClaimAccounts, Claim, share_of, split_claim, pay_claim, handle_claim,
}
use omnipair_rs.Futarchy.Revenue.{is_valid_iff}
use omnipair_rs.Pair.{Pair, update, elapse}
use omnipair_rs.Pair.Accounting.{update-IsElapsed}
use omnipair_rs.Token.{TokenProgram, transfer}
use omnipair_rs.Vaults.{Vaults, AreApart, IsTokenLedger, IsBacked, IsSame}
use omnipair_rs.Vaults.Transfers.{transfer_draws}
use omnipair_rs.Vaults.Payments.{reserve0_pays, reserve1_pays}

-- An update leaves the identity of the pair.
pub update-IsSame :
    (slot : ℕ) (m : RateModel) (bps : ℕ) (p q : Pair) → update slot m bps p ≡ ok q → IsSame p q
unfolding update elapse
update-IsSame slot m bps p q h = ground arith

-- A recipient's share, without a bound on the claimable amount.
share-le :
    (claimable bps : ℕ) {share : ℕ}
    → share_of claimable bps ≡ ok share
    → share * bps_denominator ≤ claimable * bps
unfolding share_of
share-le claimable bps {share} h =
    let floor = div-mul-le_self (claimable * bps) bps_denominator in
    let small : share ≤ claimable * bps / bps_denominator = ground arith in omega arith

-- The three recipients get no more than the claimable amount.
split-le :
    (d : RevenueDistribution) (claimable : ℕ) {c : Claim}
    → is_valid d ≡ true
    → split_claim d claimable ≡ ok c
    → c.futarchy + c.buybacks + c.team ≤ claimable
unfolding split_claim
split-le d claimable {c} valid h =
    let whole = (is_valid_iff d).0 valid in
    let (b, eb, h1) = chain (share_of claimable d.buybacks_vault_bps) _ h in
    let (m, em, h2) = chain (share_of claimable d.team_treasury_bps) _ h1 in
    let lb = share-le claimable d.buybacks_vault_bps eb in
    let lm = share-le claimable d.team_treasury_bps em in
    let parts : d.buybacks_vault_bps + d.team_treasury_bps ≤ bps_denominator = omega arith in
    let both = mul-le-mul_left claimable parts in
    let le : b + m ≤ claimable = omega arith in parts_lem claimable b m le h2
  where
    parts_lem :
        (claimable b m : ℕ) {c : Claim}
        → b + m ≤ claimable
        → ok (record {
          futarchy = saturating_sub (saturating_sub claimable b) m;
          buybacks = b;
          team = m;
        })
          ≡ ok c
        → c.futarchy + c.buybacks + c.team ≤ claimable
    parts_lem claimable b m le h = ground arith

module _ (t : TokenProgram) (laws : IsTokenLedger t) (v : Vaults) (apart : AreApart v) where
  open t use {Ledger, balance}

  -- An update counts no more than before.
  pub update-IsBacked :
      (slot : ℕ) (m : RateModel) (bps : ℕ) (p q : Pair) (l : Ledger)
      → update slot m bps p ≡ ok q
      → IsBacked t v p l
      → IsBacked t v q l
  update-IsBacked slot m bps p q l h backed =
      let ((_, _, cash0, _, e0, _, _), (_, _, cash1, _, e1, _, _), _, _, _, _, _) =
        update-IsElapsed slot m bps p h in
      (omega arith, omega arith, omega arith, omega arith)

  -- A claim draws its parts from its reserve vault.
  pay_claim0 :
      (a : ClaimAccounts) (c : Claim) (l l' : Ledger)
      → a.reserve_vault ≡ v.reserve0
      → pay_claim t a c l ≡ ok l'
      → (balance l v.reserve0 ≤ balance l' v.reserve0 + (c.futarchy + c.buybacks + c.team))
        × (balance l v.reserve1 ≤ balance l' v.reserve1)
        × (balance l v.collateral0 ≤ balance l' v.collateral0)
        × (balance l v.collateral1 ≤ balance l' v.collateral1)
  unfolding pay_claim
  pay_claim0 a c l l' e h =
      let (l1, sent, h1) =
        chain (transfer t a.reserve_vault a.futarchy_treasury c.futarchy l) _ h in
      let (l2, sent1, h2) =
        chain (transfer t a.reserve_vault a.buybacks_vault c.buybacks l1) _ h1 in
      let first : transfer t v.reserve0 a.futarchy_treasury c.futarchy l ≡ ok l1 = rw (← e) sent in
      let second : transfer t v.reserve0 a.buybacks_vault c.buybacks l1 ≡ ok l2 = rw (← e) sent1 in
      let third : transfer t v.reserve0 a.team_treasury c.team l2 ≡ ok l' = rw (← e) h2 in
      let others = reserve0_pays t laws v apart a.futarchy_treasury c.futarchy l l1 first in
      let others1 = reserve0_pays t laws v apart a.buybacks_vault c.buybacks l1 l2 second in
      let others2 = reserve0_pays t laws v apart a.team_treasury c.team l2 l' third in
      let less = transfer_draws t laws v.reserve0 a.futarchy_treasury c.futarchy l l1 first in
      let less1 = transfer_draws t laws v.reserve0 a.buybacks_vault c.buybacks l1 l2 second in
      let less2 = transfer_draws t laws v.reserve0 a.team_treasury c.team l2 l' third in
      (omega arith, omega arith, omega arith, omega arith)

  pay_claim1 :
      (a : ClaimAccounts) (c : Claim) (l l' : Ledger)
      → a.reserve_vault ≡ v.reserve1
      → pay_claim t a c l ≡ ok l'
      → (balance l v.reserve1 ≤ balance l' v.reserve1 + (c.futarchy + c.buybacks + c.team))
        × (balance l v.reserve0 ≤ balance l' v.reserve0)
        × (balance l v.collateral0 ≤ balance l' v.collateral0)
        × (balance l v.collateral1 ≤ balance l' v.collateral1)
  unfolding pay_claim
  pay_claim1 a c l l' e h =
      let (l1, sent, h1) =
        chain (transfer t a.reserve_vault a.futarchy_treasury c.futarchy l) _ h in
      let (l2, sent1, h2) =
        chain (transfer t a.reserve_vault a.buybacks_vault c.buybacks l1) _ h1 in
      let first : transfer t v.reserve1 a.futarchy_treasury c.futarchy l ≡ ok l1 = rw (← e) sent in
      let second : transfer t v.reserve1 a.buybacks_vault c.buybacks l1 ≡ ok l2 = rw (← e) sent1 in
      let third : transfer t v.reserve1 a.team_treasury c.team l2 ≡ ok l' = rw (← e) h2 in
      let others = reserve1_pays t laws v apart a.futarchy_treasury c.futarchy l l1 first in
      let others1 = reserve1_pays t laws v apart a.buybacks_vault c.buybacks l1 l2 second in
      let others2 = reserve1_pays t laws v apart a.team_treasury c.team l2 l' third in
      let less = transfer_draws t laws v.reserve1 a.futarchy_treasury c.futarchy l l1 first in
      let less1 = transfer_draws t laws v.reserve1 a.buybacks_vault c.buybacks l1 l2 second in
      let less2 = transfer_draws t laws v.reserve1 a.team_treasury c.team l2 l' third in
      (omega arith, omega arith, omega arith, omega arith)

  -- A claim from the reserve vaults pays what they hold beyond the cash at most, to whomever.
  pub handle_claim-IsBacked :
      (authority : FutarchyAuthority) (a0 a1 : ClaimAccounts) (p : Pair) (l l' : Ledger)
      → a0.reserve_vault ≡ v.reserve0
      → a1.reserve_vault ≡ v.reserve1
      → handle_claim t authority a0 a1 p l ≡ ok l'
      → IsBacked t v p l
      → IsBacked t v p l'
  unfolding handle_claim
  handle_claim-IsBacked authority a0 a1 p l l' e0 e1 h backed =
      let d = authority.revenue_distribution in
      let (valid, h1) = guarded (require (is_valid d) invalid_distribution) _ h in
      let left0 = saturating_sub (balance l a0.reserve_vault) p.side0.cash_reserve in
      let left1 = saturating_sub (balance l a1.reserve_vault) p.side1.cash_reserve in
      let (c0, split0, h2) = chain (split_claim d left0) _ h1 in
      let (c1, split1, h3) = chain (split_claim d left1) _ h2 in
      let (paid, pays0, pays1) = chain (pay_claim t a0 c0 l) _ h3 in
      let valid' : is_valid d ≡ true = ground arith in
      let le0 = split-le d left0 valid' split0 in
      let le1 = split-le d left1 valid' split1 in
      let moves0 = pay_claim0 a0 c0 l paid e0 pays0 in
      let moves1 = pay_claim1 a1 c1 paid l' e1 pays1 in
      let same0 : left0 ≡ balance l v.reserve0 - p.side0.cash_reserve = rw e0 refl in
      let same1 : left1 ≡ balance l v.reserve1 - p.side1.cash_reserve = rw e1 refl in
      (omega arith, omega arith, omega arith, omega arith)
