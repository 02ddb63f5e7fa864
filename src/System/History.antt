-- ===== src/System/History.antt =====
-- A history of the program: requests, one after another, each with the accounts and the clock of its
-- time, and what other programs do to the token balances in between.
use omnipair_rs.Base.{List, [], ◌∷◌}
use omnipair_rs.Token.{TokenProgram}
use omnipair_rs.Accounts.{Chain}
use omnipair_rs.System.{State}
use omnipair_rs.System.Dispatch.{Env}
use omnipair_rs.System.Request.{Request, process, settled}

pub data Event (Ledger : Type 0) : Type 0 where
  requested : Chain → Env → Request Ledger → Event Ledger
  elsewhere : Ledger → Event Ledger

module _ (t : TokenProgram) where
  open t use {Ledger}

  -- A request that fails changes nothing.
  unfoldable pub after : Event Ledger → State Ledger → State Ledger
  after (requested c e request) s = settled s (process t c e request s)
  after (elsewhere l) s = record s { ledger = l }

  unfoldable pub replay : List (Event Ledger) → State Ledger → State Ledger
  replay [] s = s
  replay (event ∷ events) s = replay events (after event s)
