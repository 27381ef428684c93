-- ===== src/Tests/PtRuns.antt =====
-- Runs of PTToken.
use principal.Base.{ℕ, ◌≡◌, refl, List, [], ◌∷◌, none, some, true, false, ◌==◌, ◌&&◌, if◌then◌else◌}
use principal.Base.Int.{ℤ, pos}
use principal.Base.Balances.{get_amount}
use principal.Host.{Env, Views, ok, err, commit, is_authorized}
use principal.Host.Errors.{PtError, pt}
use principal.Pt
use principal.Pt.{State, Call, Request, empty, run, total_supply}
use principal.Pt.Supply.{IsSound, run-IsSound}
use principal.Pt.Authority.{IsWired, IsFrozen, run-IsWired, run-IsFrozen}
use principal.Tests.Fixtures.{signed_by, views_at, views_without}

abbrev pub views : Views
views = views_at (pos 10000000)

-- The asset has deauthorized account 6.
abbrev pub without : Views
without = views_without 6 (pos 10000000)

-- Token 70 of the asset 20: the issuer 1 wires minter 40 and escrow 50, and 100 tokens are minted
-- to 5, who sends 30 to 6.
abbrev pub set_up : List Request
set_up =
    (views, signed_by 1 70, Call.initialize 1 30 20 5000 "PT" "PT" 7)
    ∷ (views, signed_by 1 70, Call.set_minter 1 40)
    ∷ (views, signed_by 1 70, Call.set_recovery_escrow 1 50)
    ∷ (views, signed_by 40 70, Call.mint 5 (pos 100))
    ∷ (views, signed_by 5 70, Call.transfer 5 6 (pos 30))
    ∷ []

run-IsSound_example : IsSound (run set_up empty)
run-IsSound_example = run-IsSound set_up

abbrev pub market : State
market = record {
  admin = some 1;
  minter = some 40;
  permissioning = some 30;
  underlying = some 20;
  recovery_escrow = some 50;
  maturity = some 5000;
  name = some "PT";
  symbol = some "PT";
  decimals = some 7;
  total_supply = some (pos 100);
  balances = (5, pos 70) ∷ (6, pos 30) ∷ [];
  allowances = λ owner spender.
      if owner == 5 && spender == 8
      then some (record { amount = pos 20; expiration_ledger = 60 })
      else none;
}

market_balances : get_amount (run set_up empty).balances 5 ≡ pos 70
unfolding get_amount principal.Host.run_all Pt.apply_call Pt.transfer Pt.mint Pt.set_recovery_escrow
    Pt.set_minter Pt.initialize principal.Host.checked principal.Host.in_i128
    principal.Base.Int.◌+ℤ◌ principal.Base.Balances.set_amount principal.Base.Int.◌-ℤ◌
market_balances = refl

-- Attempts around the deauthorized account: by its owner, by a spender, by somebody else.
abbrev attempts : List Request
attempts =
    (without, signed_by 6 70, Call.transfer 6 5 (pos 10))
    ∷ (without, signed_by 5 70, Call.transfer 5 6 (pos 10))
    ∷ (without, signed_by 8 70, Call.transfer_from 8 6 5 (pos 10))
    ∷ []

run-IsFrozen_example : IsFrozen 1 40 50 20 6 (pos 30) (run attempts market)
unfolding get_amount
run-IsFrozen_example =
    run-IsFrozen 1 40 50 20 6 (pos 30) attempts market
      (((refl, refl), refl), (((refl, refl), refl), (((refl, refl), refl), tt)))
      (record {
        wired = record {
          has_admin = refl;
          has_minter = refl;
          has_escrow = refl;
          has_underlying = refl;
        };
        held = refl;
      })

run-IsWired_example : IsWired 1 40 50 20 (run attempts market)
run-IsWired_example =
    run-IsWired 1 40 50 20 attempts market
      (record { has_admin = refl; has_minter = refl; has_escrow = refl; has_underlying = refl })

abbrev spent : State
spent = commit market (Pt.transfer_from views (signed_by 8 70) 8 5 6 (pos 15) market)

transfer_from_runs : Pt.transfer_from views (signed_by 8 70) 8 5 6 (pos 15) market ≡ ok (tt, spent)
unfolding Pt.transfer_from principal.Allowance.get_allowance get_amount principal.Host.checked
    principal.Host.in_i128 principal.Base.Int.◌-ℤ◌ principal.Base.Int.◌+ℤ◌
    principal.Base.Balances.set_amount
transfer_from_runs = refl

too_much_panics :
    Pt.transfer_from views (signed_by 8 70) 8 5 6 (pos 21) market
    ≡ err (pt PtError.insufficient_allowance)
unfolding Pt.transfer_from principal.Allowance.get_allowance
too_much_panics = refl
