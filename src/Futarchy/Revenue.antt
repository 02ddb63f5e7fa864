-- ===== src/Futarchy/Revenue.antt =====
-- Proofs: the revenue shares and the payment of a claim (instructions/futarchy).
use native.Mathlib.Nat.{mul-le-mul_left, div-mul-le_self, div-le_of_le-mul}
use omnipair_rs.Base.{
  ℕ, ◌+◌, ◌-◌, ◌*◌, ◌/◌, ◌≤◌, ◌<◌, ◌≡◌, ◌≢◌, ◌↔◌, inl, inr, sym, ◌∙◌, Bool, true, Option, none,
  some, Pubkey, arith,
}
use omnipair_rs.Word.{u64, saturating_sub}
use omnipair_rs.Outcome.{ok, chain, require, invalid_distribution, Result-cases}
use omnipair_rs.Constants.{bps_denominator}
use omnipair_rs.Futarchy.{
  RevenueShare, RevenueRecipients, RevenueDistribution, FutarchyAuthority, is_valid, initialize,
}
use omnipair_rs.Futarchy.Admin.{
  UpdateProtocolRevenueArgs, init_futarchy_authority, update_protocol_revenue, update_swap_bps,
  update_interest_bps, update_distribution,
}
use omnipair_rs.Futarchy.Claim.{
  ClaimAccounts, Claim, share_of, split_claim, pay_claim, handle_claim,
}
use omnipair_rs.Token.{TokenProgram, IsTokenProgram, transfer}
use omnipair_rs.Token.Moves.{transfer_debits, transfer_others}
use omnipair_rs.Pair.{Pair}

-- The parts of a distribution are the whole.
abbrev pub IsWhole : RevenueDistribution → Type 0
IsWhole d = d.futarchy_treasury_bps + d.buybacks_vault_bps + d.team_treasury_bps ≡ bps_denominator

-- No share of the revenue is more than the revenue, and the distribution is whole.
abbrev pub IsSound : FutarchyAuthority → Type 0
IsSound a =
    (a.revenue_share.swap_bps ≤ bps_denominator)
    × (a.revenue_share.interest_bps ≤ bps_denominator)
    × IsWhole a.revenue_distribution

-- The test on saturating sums passes exactly for the distributions whose parts are the whole.
pub is_valid_iff : (d : RevenueDistribution) → is_valid d ≡ true ↔ IsWhole d
unfolding is_valid
is_valid_iff d = (λ h. ground arith, λ h. ground arith)

-- The authority that is created is sound.
pub init-IsSound :
    (upgrade_authority : Option Pubkey) (deployer key : Pubkey) (share : RevenueShare)
    (recipients : RevenueRecipients) (d : RevenueDistribution) (bump : ℕ) {a : FutarchyAuthority}
    → init_futarchy_authority upgrade_authority deployer key share recipients d bump ≡ ok a
    → IsSound a × (upgrade_authority ≡ some deployer)
unfolding init_futarchy_authority initialize
init-IsSound upgrade_authority deployer key share recipients d bump h = ground arith

update_swap_bps-IsSound :
    (bps : Option ℕ) (a : FutarchyAuthority) {b : FutarchyAuthority}
    → IsSound a
    → update_swap_bps bps a ≡ ok b
    → IsSound b
unfolding update_swap_bps
update_swap_bps-IsSound none a sound h = ground arith
update_swap_bps-IsSound (some bps) a sound h = ground arith

update_interest_bps-IsSound :
    (bps : Option ℕ) (a : FutarchyAuthority) {b : FutarchyAuthority}
    → IsSound a
    → update_interest_bps bps a ≡ ok b
    → IsSound b
unfolding update_interest_bps
update_interest_bps-IsSound none a sound h = ground arith
update_interest_bps-IsSound (some bps) a sound h = ground arith

update_distribution-IsSound :
    (d : Option RevenueDistribution) (a : FutarchyAuthority) {b : FutarchyAuthority}
    → IsSound a
    → update_distribution d a ≡ ok b
    → IsSound b
unfolding update_distribution is_valid
update_distribution-IsSound none a sound h = ground arith
update_distribution-IsSound (some d) a sound h = ground arith

-- If no share of the revenue is above the whole and the distribution adds up to it, this holds
-- after every update of the revenue that succeeds.
pub update_protocol_revenue-IsSound :
    (args : UpdateProtocolRevenueArgs) (a : FutarchyAuthority) {b : FutarchyAuthority}
    → IsSound a
    → update_protocol_revenue args a ≡ ok b
    → IsSound b
unfolding update_protocol_revenue
update_protocol_revenue-IsSound args a {b} sound h =
    elim (Result-cases (update_swap_bps args.swap_bps a)) [
      | inr (e, bad) ↦ ground arith
      | inl (b1, first) ↦ elim (Result-cases (update_interest_bps args.interest_bps b1)) [
        | inr (e, bad) ↦ ground arith
        | inl (b2, second) ↦
            update_distribution-IsSound args.revenue_distribution b2 {b = b}
              (update_interest_bps-IsSound args.interest_bps b1
                (update_swap_bps-IsSound args.swap_bps a sound first) second)
              (ground arith)
      ]
    ]

share_of-eq :
    (claimable bps : ℕ) {share : ℕ}
    → claimable < u64
    → bps ≤ bps_denominator
    → share_of claimable bps ≡ ok share
    → share * bps_denominator ≤ claimable * bps
unfolding share_of
share_of-eq claimable bps {share} fits le h =
    let floor = div-mul-le_self (claimable * bps) bps_denominator in
    let most = mul-le-mul_left claimable le in
    let below : claimable * bps / bps_denominator ≤ claimable =
      div-le_of_le-mul bps_denominator {m = claimable * bps} {n = claimable} (omega arith) in
    let exact : share ≡ claimable * bps / bps_denominator = ground arith in rw exact floor

-- A claim is paid out in full: the three recipients' parts are the claimable amount.
pub split_claim_exact :
    (d : RevenueDistribution) (claimable : ℕ) {c : Claim}
    → is_valid d ≡ true
    → claimable < u64
    → split_claim d claimable ≡ ok c
    → c.futarchy + c.buybacks + c.team ≡ claimable
unfolding split_claim
split_claim_exact d claimable {c} valid fits h =
    let whole = (is_valid_iff d).0 valid in
    elim (Result-cases (share_of claimable d.buybacks_vault_bps)) [
      | inr (e, bad) ↦ ground arith
      | inl (b, eb) ↦ elim (Result-cases (share_of claimable d.team_treasury_bps)) [
        | inr (e, bad) ↦ ground arith
        | inl (m, em) ↦
            let lb = share_of-eq claimable d.buybacks_vault_bps fits (omega arith) eb in
            let lm = share_of-eq claimable d.team_treasury_bps fits (omega arith) em in
            let parts : d.buybacks_vault_bps + d.team_treasury_bps ≤ bps_denominator =
              omega arith in
            let both = mul-le-mul_left claimable parts in
            let le : b + m ≤ claimable = omega arith in ground arith
      ]
    ]

valid_lem : (b : Bool) → require b invalid_distribution ≡ ok tt → b ≡ true
valid_lem b h = ground arith

-- None of the recipients' accounts is the vault.
abbrev pub AreElsewhere : Pubkey → ClaimAccounts → Type 0
AreElsewhere vault a =
    (vault ≢ a.futarchy_treasury) × (vault ≢ a.buybacks_vault) × (vault ≢ a.team_treasury)

-- A payment of the parts of what a vault holds beyond an amount leaves it with this amount.
paid_out_lem :
    (t : TokenProgram) (laws : IsTokenProgram t) (d : RevenueDistribution) (a : ClaimAccounts)
    (cash : ℕ) (l : t.Ledger) {c : Claim} {l' : t.Ledger}
    → is_valid d ≡ true
    → t.balance l a.reserve_vault < u64
    → cash ≤ t.balance l a.reserve_vault
    → AreElsewhere a.reserve_vault a
    → split_claim d (t.balance l a.reserve_vault - cash) ≡ ok c
    → pay_claim t a c l ≡ ok l'
    → t.balance l' a.reserve_vault ≡ cash
unfolding pay_claim
paid_out_lem t laws d a cash l {c} {l'} valid fits has (nf, nb, nt) split paid =
    let exact =
      split_claim_exact d (t.balance l a.reserve_vault - cash) valid (omega arith) split in
    elim (Result-cases (transfer t a.reserve_vault a.futarchy_treasury c.futarchy l)) [
      | inr (e, bad) ↦ ground arith
      | inl (l1, m1) ↦
          elim (Result-cases (transfer t a.reserve_vault a.buybacks_vault c.buybacks l1)) [
            | inr (e, bad) ↦ ground arith
            | inl (l2, m2) ↦
                let d1 =
                  transfer_debits t laws a.reserve_vault a.futarchy_treasury c.futarchy l nf m1 in
                let d2 =
                  transfer_debits t laws a.reserve_vault a.buybacks_vault c.buybacks l1 nb m2 in
                let d3 =
                  transfer_debits t laws a.reserve_vault a.team_treasury c.team l2 {l' = l'} nt
                    (ground arith) in
                omega arith
          ]
    ]

-- A vault that is neither the paying one nor a recipient's account is left alone.
unpaid_lem :
    (t : TokenProgram) (laws : IsTokenProgram t) (a : ClaimAccounts) (c : Claim) (vault : Pubkey)
    (l : t.Ledger) {l' : t.Ledger}
    → vault ≢ a.reserve_vault
    → AreElsewhere vault a
    → pay_claim t a c l ≡ ok l'
    → t.balance l' vault ≡ t.balance l vault
unfolding pay_claim
unpaid_lem t laws a c vault l {l'} apart (nf, nb, nt) h =
    let from = a.reserve_vault in
    let (l1, m1, h1) = chain (transfer t from a.futarchy_treasury c.futarchy l) _ h in
    let (l2, m2, m3) = chain (transfer t from a.buybacks_vault c.buybacks l1) _ h1 in
    transfer_others t laws from a.team_treasury c.team l2 vault apart nt m3
    ∙ transfer_others t laws from a.buybacks_vault c.buybacks l1 vault apart nb m2
    ∙ transfer_others t laws from a.futarchy_treasury c.futarchy l vault apart nf m1

-- A claim that succeeds pays out exactly what the reserve vaults hold beyond the cash reserves: when
-- the balances fit a u64 and are at least the cash reserves, and the two vaults differ from each other
-- and from all recipients' accounts, each vault is left with exactly the cash reserve of its token.
pub claim_leaves_cash :
    (t : TokenProgram) (laws : IsTokenProgram t) (authority : FutarchyAuthority)
    (a0 a1 : ClaimAccounts) (p : Pair) (l : t.Ledger) {l' : t.Ledger}
    → t.balance l a0.reserve_vault < u64
    → t.balance l a1.reserve_vault < u64
    → p.side0.cash_reserve ≤ t.balance l a0.reserve_vault
    → p.side1.cash_reserve ≤ t.balance l a1.reserve_vault
    → a0.reserve_vault ≢ a1.reserve_vault
    → AreElsewhere a0.reserve_vault a0 × AreElsewhere a0.reserve_vault a1
    → AreElsewhere a1.reserve_vault a0 × AreElsewhere a1.reserve_vault a1
    → handle_claim t authority a0 a1 p l ≡ ok l'
    → (t.balance l' a0.reserve_vault ≡ p.side0.cash_reserve)
      × (t.balance l' a1.reserve_vault ≡ p.side1.cash_reserve)
unfolding handle_claim
claim_leaves_cash t laws authority a0 a1 p l {l'} fits0 fits1 has0 has1 apart (s00, s01) (s10, s11)
      h =
    let d = authority.revenue_distribution in
    let held0 = t.balance l a0.reserve_vault in
    let held1 = t.balance l a1.reserve_vault in
    let (_, valid, h1) = chain (require (is_valid d) invalid_distribution) _ h in
    let (c0, split0, h2) = chain (split_claim d (saturating_sub held0 p.side0.cash_reserve)) _ h1 in
    let (c1, split1, h3) = chain (split_claim d (saturating_sub held1 p.side1.cash_reserve)) _ h2 in
    let (l1, paid0, paid1) = chain (pay_claim t a0 c0 l) _ h3 in
    let is_whole : is_valid d ≡ true = valid_lem (is_valid d) valid in
    let same0 = unpaid_lem t laws a1 c1 a0.reserve_vault l1 {l' = l'} apart s01 paid1 in
    let same1 =
      unpaid_lem t laws a0 c0 a1.reserve_vault l {l' = l1} (λ e. apart (sym e)) s10 paid0 in
    let left0 =
      paid_out_lem t laws d a0 p.side0.cash_reserve l {c = c0} {l' = l1} is_whole fits0 has0 s00
        split0 paid0 in
    let left1 =
      paid_out_lem t laws d a1 p.side1.cash_reserve l1 {c = c1} {l' = l'} is_whole (rw same1 fits1)
        (rw same1 has1) s11 (rw same1 split1) paid1 in
    (same0 ∙ left0, left1)
