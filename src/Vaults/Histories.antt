-- ===== src/Vaults/Histories.antt =====
-- Proofs: the vaults of a pair hold what it counts, whatever is requested of the program and whatever
-- other programs do with the tokens in between.
use omnipair_rs.Base.{◌≡◌, inl, inr, arith, List, [], ◌∷◌}
use omnipair_rs.Outcome.{Result-cases}
use omnipair_rs.Token.{TokenProgram}
use omnipair_rs.System.{State}
use omnipair_rs.System.Request.{process}
use omnipair_rs.System.History.{Event, requested, elsewhere, after, replay}
use omnipair_rs.Vaults.{Vaults, Identity, AreApart, AreVaultsOf, IsTokenLedger, KeepsMints, Keep}
use omnipair_rs.Vaults.Solvent.{IsBackedState, IsTrusted, process-IsBacked}

module _ (t : TokenProgram) (laws : IsTokenLedger t) (v : Vaults) (apart : AreApart v)
    (i : Identity) where
  open t use {Ledger, balance}

  -- What the source relies on in an event: the vaults are the pair's, the token program keeps mints
  -- apart, a flash loan calls what `IsTrusted` says; and other programs, for which the pair does not
  -- sign, take nothing from the vaults.
  abbrev pub IsAllowed : Event Ledger → State Ledger → Type 0
  IsAllowed (requested c e request) s =
      AreVaultsOf c i v × KeepsMints t c × (e.pair_key ≡ i.key) × IsTrusted t laws v apart i request
  IsAllowed (elsewhere l) s = Keep t v s.ledger l

  abbrev pub AreAllowed : List (Event Ledger) → State Ledger → Type 0
  AreAllowed [] s = Unit {0}
  AreAllowed (event ∷ events) s = IsAllowed event s × AreAllowed events (after t event s)

  after-IsBacked :
      (event : Event Ledger) (s : State Ledger)
      → IsAllowed event s
      → IsBackedState t laws v apart i s
      → IsBackedState t laws v apart i (after t event s)
  unfolding after
  after-IsBacked (elsewhere l) s kept (identity, backed) =
      (identity, (omega arith, omega arith, omega arith, omega arith))
  after-IsBacked (requested c e request) s (of, mints, key, trusted) solvent =
      elim (Result-cases (process t c e request s)) [
        | inr (failure, fails) ↦ rw fails solvent
        | inl (s', done) ↦
            rw done
              (process-IsBacked t laws v apart i c of mints e key request s s' trusted done solvent)
      ]

  -- Whatever is requested of the program, and whatever other programs do in between, the reserve
  -- vaults of a pair hold its cash reserves and its collateral vaults its collateral, if they do at
  -- the start: the token program being as the laws say, the vaults the four accounts that the pair
  -- owns, and nobody else taking anything out of them.
  pub replay-IsBacked :
      (events : List (Event Ledger)) (s : State Ledger)
      → AreAllowed events s
      → IsBackedState t laws v apart i s
      → IsBackedState t laws v apart i (replay t events s)
  unfolding replay
  replay-IsBacked [] s allowed solvent = solvent
  replay-IsBacked (event ∷ events) s (now, later) solvent =
      replay-IsBacked events (after t event s) later (after-IsBacked event s now solvent)
