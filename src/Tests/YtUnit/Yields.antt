-- ===== src/Tests/YtUnit/Yields.antt =====
-- The unit tests of YTToken: the yield index and its claims.
use principal.Base.{
  zero, suc, ltb, ◌+◌, ◌-◌, ◌*◌, ◌/◌, ◌-◌, ltb, suc, ℕ, Bool, true, false, not, ◌≡◌, refl, List, [],
  ◌∷◌, ◌&&◌, ◌==◌,
}
use principal.Base.Int.{quot_ℤ, ℤ, pos, negsuc, ltb_ℤ}
use principal.Host.{M, pure, gets, ◌>>=◌, ◌>>◌}
use principal.Tests.Unit.{passes, should_panic, all, eq_ℤ}
use principal.Tests.Chain.{at_time, admin}
use principal.Tests.YtUnit.{
  Test, empty, setup, deployed_at, grant, set_minter, mint, transfer, units, pending_is, index_is,
  publish, t0, update_yield_index, claim_yield, rate_rises,
}
use principal.Yt

abbrev minter : ℕ
minter = 4

abbrev user : ℕ
user = 5

abbrev alice : ℕ
alice = 5

abbrev bob : ℕ
bob = 6

-- A cleared account that holds a thousand units.
abbrev holding : Test Unit
holding = do setup; set_minter admin minter; grant user; mint user (units 1000)

abbrev genesis_above_scale_does_not_overpay_first_mint : Test Bool
genesis_above_scale_does_not_overpay_first_mint = do
  deployed_at 10500000
  set_minter admin minter
  grant user
  mint user (units 1000)
  first ← claim_yield minter user
  update_yield_index
  index ← index_is 10000000
  second ← claim_yield minter user
  pure (eq_ℤ first (pos 0) && index && eq_ℤ second (pos 0))

abbrev no_yield_without_rate_increase : Test Bool
no_yield_without_rate_increase = do
  holding
  update_yield_index
  index ← index_is 10000000
  claimed ← claim_yield minter user
  pure (index && eq_ℤ claimed (pos 0))

abbrev expected_factor : ℕ
expected_factor = 10000000 * 10000000 / 10300000

abbrev expected_claim : ℕ
expected_claim = units 1000 * (10000000 - expected_factor) / 10000000

abbrev exact : ℕ
exact = 1000 * (10300000 - 10000000) / 10300000

abbrev yield_accrues_after_rate_increase : Test Bool
yield_accrues_after_rate_increase = do
  holding
  rate_rises 10300000
  index ← index_is expected_factor
  claimed ← claim_yield minter user
  again ← claim_yield minter user
  pure (
      index
      && eq_ℤ claimed (pos expected_claim)
      && eq_ℤ (quot_ℤ claimed (pos 10000000)) (pos exact)
      && eq_ℤ again (pos 0))

-- Step `i` of the thirty from the rate 1.00 to the rate 1.30.
abbrev step : ℕ → Test Unit
step i = do
  publish (10000000 + (13000000 - 10000000) * i / 30) (t0 + i)
  at_time (t0 + i)
  update_yield_index

abbrev steps : ℕ → Test Unit
steps zero = pure tt
steps (suc i) = do steps i; step (suc i)

abbrev single_jump_expected : ℕ
single_jump_expected = units 1000 * (13000000 - 10000000) / 13000000

-- The two differ by less than a hundredth of a percent.
abbrev is_near : ℤ → ℕ → Bool
is_near (pos a) b = ltb (((a - b) + (b - a)) * 1000000) (b * 100)
is_near (negsuc a) b = false

abbrev yield_is_path_independent_across_many_intermediate_updates : Test Bool
yield_is_path_independent_across_many_intermediate_updates = do
  holding
  steps 30
  claimed ← claim_yield minter user
  pure (is_near claimed single_jump_expected)

abbrev late_buyer_does_not_receive_prior_yield : Test Bool
late_buyer_does_not_receive_prior_yield = do
  holding
  grant bob
  rate_rises 10300000
  mint bob (units 500)
  pending ← pending_is bob 0
  late ← claim_yield minter bob
  early ← claim_yield minter alice
  pure (pending && eq_ℤ late (pos 0) && ltb_ℤ (pos 0) early)

abbrev transfer_settles_both_sides : Test Bool
transfer_settles_both_sides = do
  holding
  grant bob
  rate_rises 10300000
  transfer alice bob (units 1000)
  sender ← claim_yield minter alice
  recipient ← claim_yield minter bob
  pure (ltb_ℤ (pos 0) sender && eq_ℤ recipient (pos 0))

abbrev update_yield_index_blocked_by_stale_oracle : Test Unit
update_yield_index_blocked_by_stale_oracle = do setup; at_time (t0 + 3601); update_yield_index

abbrev claim_yield_rejects_non_minter_caller : Test ℤ
claim_yield_rejects_non_minter_caller = do holding; claim_yield 8 user

abbrev suite : List Bool
suite =
    passes empty genesis_above_scale_does_not_overpay_first_mint
    ∷ passes empty no_yield_without_rate_increase
    ∷ passes empty yield_accrues_after_rate_increase
    ∷ passes empty yield_is_path_independent_across_many_intermediate_updates
    ∷ passes empty late_buyer_does_not_receive_prior_yield
    ∷ passes empty transfer_settles_both_sides
    ∷ should_panic empty update_yield_index_blocked_by_stale_oracle
    ∷ should_panic empty claim_yield_rejects_non_minter_caller
    ∷ []

suite_lem : all suite ≡ true
unfolding principal.Permissioning.initialize principal.Oracle.initialize
    principal.Oracle.set_reference_value Yt.initialize principal.Oracle.is_fresh
    principal.Oracle.get_reference_value Yt.set_minter principal.Permissioning.grant_account
    principal.Permissioning.grant_asset Yt.mint principal.Permissioning.is_allowed
    principal.Permissioning.is_allowed_for_asset Yt.settle principal.Host.checked
    principal.Host.in_i128 principal.Base.Int.◌+ℤ◌ principal.Base.Balances.get_amount Yt.claim_yield
    Yt.update_yield_index Yt.accrued_yield_index principal.Base.Balances.set_amount Yt.advance_index
    principal.Host.mul_div principal.Base.Int.◌*ℤ◌ quot_ℤ Yt.settle_pending Yt.accrue
    principal.Base.Int.◌-ℤ◌ Yt.add_pending Yt.pending_claim Yt.transfer
suite_lem = refl
