-- ===== src/Outcome.antt =====
-- What an instruction returns (programs/omnipair/src/errors.rs): a value, one of the program's error
-- codes, or the abort of a panic. An instruction that does not return `ok` leaves no state behind.
use omnipair_rs.Base.{◌≡◌, refl, ap, ◌⊎◌, inl, inr, Bool, true, false, Option, none, some, arith}

pub data ErrorCode : Type 0 where
  invalid_deployer argument_missing invalid_swap_fee_bps invalid_interest_fee_bps invalid_half_life
        invalid_futarchy_authority invalid_reduce_only_authority invalid_argument amount_zero
        insufficient_amount0_in insufficient_amount1_in borrowing_power_exceeded
        invalid_token_account invalid_token_program borrow_exceeds_reserve insufficient_amount0
        insufficient_amount1 insufficient_output_amount slippage_exceeded insufficient_liquidity
        insufficient_cash_reserve0 insufficient_cash_reserve1 overflow undercollateralized
        insufficient_balance_for_collateral insufficient_amount insufficient_balance
        insufficient_debt user_position_not_initialized zero_debt_amount not_undercollateralized
        broken_invariant invariant_overflow fee_math_overflow output_amount_overflow
        reserve_overflow reserve_underflow cash_reserve_underflow denominator_overflow
        liquidity_math_overflow liquidity_sqrt_overflow liquidity_underflow
        liquidity_conversion_overflow supply_overflow supply_underflow debt_math_overflow
        debt_share_math_overflow debt_share_division_overflow debt_utilization_overflow invalid_mint
        invalid_mint_len invalid_distribution invalid_lp_mint_key invalid_lp_name invalid_lp_symbol
        invalid_lp_uri account_not_empty invalid_mint_authority frozen_lp_mint non_zero_supply
        wrong_lp_decimals invalid_vault_same_account invalid_vault invalid_params_hash
        invalid_version invalid_token_order invalid_rate_model invalid_pair invalid_util_bounds
        invalid_rate_params reduce_only_mode reduce_only_has_debt liquidity_delta_circuit_breaker
        liquidity_delta_circuit_breaker_cpi invalid_instructions_sysvar
        insufficient_post_withdraw_debt_coverage invalid_recipient :
      ErrorCode

-- `panics` stands for `unwrap`, `expect`, an assertion, a division by zero and, since the program is
-- built with `overflow-checks`, for an overflow of `+`, `-` and `*`. `external` is an error of a
-- program that is called, such as the token program.
pub data Failure : Type 0 where
  fails : ErrorCode → Failure
  panics external : Failure

pub data Result {ℓ} (T : Type ℓ) : Type ℓ where
  ok : (value : T) → Result T
  err : (failure : Failure) → Result T

-- `require!` and its relatives.
abbrev pub require : (condition : Bool) → ErrorCode → Result (Unit {0})
require false code = err (fails code)
require true code = ok tt

abbrev pub ok_or {ℓ} : {T : Type ℓ} → Option T → ErrorCode → Result T
ok_or none code = err (fails code)
ok_or (some value) code = ok value

infixl 5 ◌>>=◌ ◌>>◌
-- The operator `?` of the source, between two steps of an instruction.
abbrev pub ◌>>=◌ {ℓ κ} : {T : Type ℓ} {U : Type κ} → Result T → (T → Result U) → Result U
err failure >>= next = err failure
ok value >>= next = next value

abbrev pub ◌>>◌ {ℓ} : {U : Type ℓ} → Result (Unit {0}) → Result U → Result U
step >> rest = step >>= λ done. rest

-- `unwrap`, `expect` and the checks of plain arithmetic.
abbrev pub unwrap {ℓ} : {A : Type ℓ} → Option A → Result A
unwrap (some a) = ok a
unwrap none = err panics

-- A step has a value or a failure.
pub Result-cases {ℓ} :
    {T : Type ℓ} (step : Result T)
    → ((value : T) × (step ≡ ok value)) ⊎ ((failure : Failure) × (step ≡ err failure))
Result-cases (err failure) = inr (failure, refl)
Result-cases (ok value) = inl (value, refl)

-- The value of a result that is `ok`.
abbrev pub value_or {ℓ} : {A : Type ℓ} → A → Result A → A
value_or d (ok a) = a
value_or d (err e) = d

pub ok-injective {ℓ} : {A : Type ℓ} {a b : A} → ok a ≡ ok b → a ≡ b
ok-injective {a = a} h = ap (value_or a) h

-- The parts of a chain that succeeds.
pub chain {ℓ κ} :
    {A : Type ℓ} {B : Type κ} (r : Result A) (f : A → Result B) {b : B}
    → (r >>= f) ≡ ok b
    → (a : A) × (r ≡ ok a) × (f a ≡ ok b)
chain (err e) f h = ground arith
chain (ok a) f h = (a, refl, h)

pub guarded {ℓ} :
    {B : Type ℓ} (v : Result (Unit {0})) (r : Result B) {b : B}
    → (v >> r) ≡ ok b
    → (v ≡ ok tt) × (r ≡ ok b)
guarded (err e) r h = ground arith
guarded (ok done) r h = (refl, h)
