-- ===== src/Vaults/Solvency.antt =====
-- Proofs: a pair with its vaults, over the update that comes before an instruction (state/pair.rs).
use omnipair_rs.Base.{ℕ, ◌≡◌, ◌≢◌, ◌∙◌, sym, Bool, true, false, not, Pubkey}
use omnipair_rs.Outcome.{ok}
use omnipair_rs.RateModel.{RateModel}
use omnipair_rs.Futarchy.{FutarchyAuthority}
use omnipair_rs.Pair.{Pair, update}
use omnipair_rs.Token.{TokenProgram}
use omnipair_rs.Vaults.{
  Vaults, Identity, HasIdentity, IsSame, AreApart, IsTokenLedger, IsBacked, reserve_of,
}
use omnipair_rs.Vaults.Payouts.{update-IsSame, update-IsBacked}

-- Two different reserve vaults are those of the two tokens.
pub other_side :
    (v : Vaults) (b b' : Bool) (k k' : Pubkey)
    → k ≡ reserve_of b v
    → k' ≡ reserve_of b' v
    → k ≢ k'
    → k' ≡ reserve_of (not b) v
other_side v true true k k' e e' d = absurd (d (e ∙ sym e'))
other_side v true false k k' e e' d = e'
other_side v false true k k' e e' d = e'
other_side v false false k k' e e' d = absurd (d (e ∙ sym e'))

-- A pair of the identity, with its vaults.
abbrev pub IsSolvent : (t : TokenProgram) → Identity → Vaults → Pair → t.Ledger → Type 0
IsSolvent t i v p l = HasIdentity i p × IsBacked t v p l

pub HasIdentity-same : (i : Identity) (p q : Pair) → HasIdentity i p → IsSame p q → HasIdentity i q
HasIdentity-same i p q (h0, h1, h2) (e0, e1, e2) = (e0 ∙ h0, e1 ∙ h1, e2 ∙ h2)

pub ends :
    (t : TokenProgram) (i : Identity) (v : Vaults) (q r : Pair) (l l' : t.Ledger)
    → IsSolvent t i v r l
    → IsBacked t v q l' × IsSame r q
    → IsSolvent t i v q l'
ends t i v q r l l' (identity, _) (backed, same) = (HasIdentity-same i r q identity same, backed)

module _ (t : TokenProgram) (laws : IsTokenLedger t) (v : Vaults) (apart : AreApart v)
    (i : Identity) (slot : ℕ) (m : RateModel) (authority : FutarchyAuthority) (p : Pair) where
  open t use {Ledger, balance}

  -- The update comes first.
  pub updated_lem :
      (l : Ledger) {r : Pair}
      → update slot m authority.revenue_share.interest_bps p ≡ ok r
      → IsSolvent t i v p l
      → IsSolvent t i v r l × (r.token0 ≡ p.token0)
  updated_lem l {r} h (identity, backed) =
      let same = update-IsSame slot m authority.revenue_share.interest_bps p r h in
      (
        (
          HasIdentity-same i p r identity same,
          update-IsBacked t laws v apart slot m authority.revenue_share.interest_bps p r l h backed,
        ),
        same.0,
      )
