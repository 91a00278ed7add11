-- ===== src/Ledger/Api/Balance.antt =====
-- Reading a balance through the C interface (src/ledger.cpp).
use machine_asset_tools.Prelude.{
  ℕ, ◌≡◌, pos, true, false, Option, some, ℤ, arith, inl, inr, Option-cases, pair_key,
}
use machine_asset_tools.Amount.{Amount, zero_amount}
use machine_asset_tools.Amount.Value.{value}
use machine_asset_tools.Amount.Compare.{zero_amount-value}
use machine_asset_tools.Map.{find}
use machine_asset_tools.Ledger.Basic.{get_account_asset_balance}
use machine_asset_tools.Ledger.Basic.Balances.{balance_value}
use machine_asset_tools.Ledger.Api.{
  Object, Thread, finish, initialized, is_initialized, cma_ledger_get_balance,
}

-- What a call that reads a balance leaves.
pub record Read (i a : ℕ) (o : Object) (t : Thread) (r : ℤ × Option Amount × Thread) : Type 0 where
  pub returns : r.0 ≡ pos 0
  pub message : r.2.last_err_msg ≡ ""
  pub ledger : r.2.ledger ≡ t.ledger
  pub balance : Amount
  pub written : r.1 ≡ some balance
  pub is_balance : value balance ≡ balance_value i a o.basic

-- On an initialised object, `cma_ledger_get_balance` with a pointer to the balance and none to its
-- place returns 0, clears the message, leaves the object as it was and writes the balance, which
-- is 0 if there is no entry.
pub get_balance-Read :
    (i a : ℕ) (old : Amount) (o : Object) (t : Thread)
    → t.ledger ≡ some o
    → is_initialized o ≡ true
    → Read i a o t (cma_ledger_get_balance i a false (some old) t)
unfolding cma_ledger_get_balance get_account_asset_balance finish initialized
get_balance-Read i a old o t given ready =
    elim (Option-cases (find (i, a) o.basic.account_asset_balance)) [
      | inl e ↦ record {
        returns = ground arith;
        message = ground arith;
        ledger = ground arith;
        balance = zero_amount;
        written = ground arith;
        is_balance = ground (arith, zero_amount-value);
      }
      | inr (b, e) ↦ record {
        returns = ground arith;
        message = ground arith;
        ledger = ground arith;
        balance = b;
        written = ground arith;
        is_balance = ground arith;
      }
    ]
