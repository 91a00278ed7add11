-- ===== src/Ledger/Basic/Progress.antt =====
-- When the transactions of `cma_ledger_basic` return: the invariant leaves no other reason to throw
-- than those that the caller can see.
use machine_asset_tools.Prelude.{
  ℕ, ◌+◌, ◌≤◌, ◌<◌, ◌^◌, ◌≡◌, ◌≢◌, true, false, some, arith, nat_key, pair_key, ok, String,
}
use machine_asset_tools.Amount.{Amount, amount_checked_add, amount_checked_sub, is_zero, is_one}
use machine_asset_tools.Amount.Value.{value, IsBytes, value-lt}
use machine_asset_tools.Amount.Arithmetic.{amount_checked_add-value, amount_checked_sub-value}
use machine_asset_tools.Amount.Compare.{is_zero_iff}
use machine_asset_tools.Map.{find}
use machine_asset_tools.Ledger.Types.{Asset, Account, AssetType, is_token_address_id}
use machine_asset_tools.Ledger.Basic.{
  BasicLedger, deposit, withdraw, transfer, supply_after_deposit, supply_after_withdraw,
  check_asset, balance_after_credit, balance_after_debit, find_supply,
}
use machine_asset_tools.Ledger.Basic.Balances.{
  balance_value, supply_value, find-le-total, find-find-le-total,
}
use machine_asset_tools.Ledger.Basic.Transactions.{stored_balance, write_both}
use machine_asset_tools.Ledger.Basic.Funds.{IsFunded}
use machine_asset_tools.Ledger.Basic.Conservation.{stored-IsBytes, stored_value}

-- Asset `i` is registered under a type that this ledger accepts.
pub record HasAsset (i : ℕ) (x : Asset) (l : BasicLedger) : Type 0 where
  pub registered : find i l.lassid_to_asset ≡ some x
  pub supported : x.type ≢ AssetType.base

-- No balance exceeds the supply of its asset.
pub balance-le-supply :
    (i a : ℕ) (l : BasicLedger) → IsFunded l → balance_value i a l ≤ supply_value i l
balance-le-supply i a l f = omega (arith, find-le-total i a l.account_asset_balance, f.conserved i)

supply_after_deposit_ok :
    (i : ℕ) (amount : Amount) (l : BasicLedger) (x : Asset)
    → HasAsset i x l
    → is_zero amount ≡ false
    → (amount_checked_add x.supply amount).1 ≡ true
    → (is_token_address_id x.type ≡ true → (is_zero x.supply ≡ true) × (is_one amount ≡ true))
    → supply_after_deposit i amount l ≡ (ok (amount_checked_add x.supply amount).0, l)
unfolding supply_after_deposit find_supply
supply_after_deposit_ok i amount l x h nz fits nft = ground arith

supply_after_withdraw_ok :
    (i : ℕ) (amount : Amount) (l : BasicLedger) (x : Asset)
    → HasAsset i x l
    → (amount_checked_sub x.supply amount).1 ≡ true
    → supply_after_withdraw i amount l ≡ (ok (amount_checked_sub x.supply amount).0, l)
unfolding supply_after_withdraw find_supply
supply_after_withdraw_ok i amount l x h fits = ground arith

check_asset_ok :
    (i : ℕ) (l : BasicLedger) (x : Asset) → HasAsset i x l → check_asset i l ≡ (ok tt, l)
unfolding check_asset find_supply
check_asset_ok i l x h = ground arith

balance_after_credit_ok :
    (unknown overflow : String) (i a : ℕ) (amount : Amount) (l : BasicLedger) (c : Account)
    → find a l.laccid_to_account ≡ some c
    → (amount_checked_add (stored_balance i a l) amount).1 ≡ true
    → balance_after_credit unknown overflow i a amount l
      ≡ (ok (amount_checked_add (stored_balance i a l) amount).0, l)
unfolding balance_after_credit
balance_after_credit_ok unknown overflow i a amount l c known fits = ground arith

balance_after_debit_ok :
    (unknown : String) (i a : ℕ) (amount : Amount) (l : BasicLedger) (c : Account)
    → find a l.laccid_to_account ≡ some c
    → (amount_checked_sub (stored_balance i a l) amount).1 ≡ true
    → balance_after_debit unknown i a amount l
      ≡ (ok (amount_checked_sub (stored_balance i a l) amount).0, l)
unfolding balance_after_debit
balance_after_debit_ok unknown i a amount l c known fits = ground arith

-- A deposit of a positive 32-byte amount returns if the ledger keeps the money invariant, the
-- asset is registered and not of the base type, the account is known, the sum of supply and amount
-- is below 256 ^ 32, and, for a token with an id, the supply is 0 and the amount 1: the balance
-- then has room too.
pub deposit_returns :
    (i a : ℕ) (amount : Amount) (l : BasicLedger) (x : Asset) (c : Account)
    → IsFunded l
    → IsBytes 32 amount
    → HasAsset i x l
    → find a l.laccid_to_account ≡ some c
    → 0 < value amount
    → value x.supply + value amount < 256 ^ 32
    → (is_token_address_id x.type ≡ true → (value x.supply ≡ 0) × (value amount ≡ 1))
    → (deposit i a amount l).0 ≡ ok tt
unfolding deposit
deposit_returns i a amount l x c f bytes asset known positive room nft =
    let s_bytes = f.supply_bytes i x asset.registered in
    let s_fits = (amount_checked_add-value 32 x.supply amount s_bytes bytes).2.1 room in
    let small : balance_value i a l ≤ value x.supply = ground (arith, balance-le-supply i a l f) in
    let b_fits =
      (amount_checked_add-value 32 (stored_balance i a l) amount (stored-IsBytes i a l f) bytes).2.1
        (omega (arith, stored_value i a l)) in
    ground (
      arith,
      supply_after_deposit_ok i amount l x asset (not_zero amount bytes positive) s_fits (λ t.
          ((is_zero_iff x.supply s_bytes).0.1 (nft t).0, (is_zero_iff amount bytes).1.1 (nft t).1)),
      balance_after_credit_ok "Account by id not found" "Asset balance overflow" i a amount l c
          known b_fits,
      write_both i a (amount_checked_add (stored_balance i a l) amount).0
          (amount_checked_add x.supply amount).0 l x asset.registered,
    )
  where
    not_zero : (amount : Amount) → IsBytes 32 amount → 0 < value amount → is_zero amount ≡ false
    not_zero amount b p = ground (arith, (is_zero_iff amount b).0.0)

-- A withdrawal of a 32-byte amount returns if the ledger keeps the money invariant, the asset is
-- registered and not of the base type, the account is known and its balance covers the amount: the
-- supply then covers it too.
pub withdraw_returns :
    (i a : ℕ) (amount : Amount) (l : BasicLedger) (x : Asset) (c : Account)
    → IsFunded l
    → IsBytes 32 amount
    → HasAsset i x l
    → find a l.laccid_to_account ≡ some c
    → value amount ≤ balance_value i a l
    → (withdraw i a amount l).0 ≡ ok tt
unfolding withdraw
withdraw_returns i a amount l x c f bytes asset known covered =
    let s_bytes = f.supply_bytes i x asset.registered in
    let small : balance_value i a l ≤ value x.supply = ground (arith, balance-le-supply i a l f) in
    let s_fits = (amount_checked_sub-value 32 x.supply amount s_bytes bytes).2.1 (omega arith) in
    let b_fits =
      (amount_checked_sub-value 32 (stored_balance i a l) amount (stored-IsBytes i a l f) bytes).2.1
        (omega (arith, stored_value i a l)) in
    ground (
      arith,
      supply_after_withdraw_ok i amount l x asset s_fits,
      balance_after_debit_ok "Account by id not found" i a amount l c known b_fits,
      write_both i a (amount_checked_sub (stored_balance i a l) amount).0
          (amount_checked_sub x.supply amount).0 l x asset.registered,
    )

-- A transfer of a 32-byte amount returns if the ledger keeps the money invariant, the asset is
-- registered and not of the base type, the two accounts are known and different, and the first
-- balance covers the amount: the second balance cannot overflow.
pub transfer_returns :
    (i a b : ℕ) (amount : Amount) (l : BasicLedger) (x : Asset) (c d : Account)
    → IsFunded l
    → IsBytes 32 amount
    → HasAsset i x l
    → a ≢ b
    → find a l.laccid_to_account ≡ some c
    → find b l.laccid_to_account ≡ some d
    → value amount ≤ balance_value i a l
    → (transfer i a b amount l).0 ≡ ok tt
unfolding transfer
transfer_returns i a b amount l x c d f bytes asset ne known_a known_b covered =
    let total_lt : value x.supply < 256 ^ 32 =
      value-lt 32 x.supply (f.supply_bytes i x asset.registered) in
    let small : balance_value i a l + balance_value i b l ≤ value x.supply = ground (
      arith,
      find-find-le-total i a b l.account_asset_balance ne,
      f.conserved i,
      asset.registered,
    ) in
    let a_fits =
      (amount_checked_sub-value 32 (stored_balance i a l) amount (stored-IsBytes i a l f) bytes).2.1
        (omega (arith, stored_value i a l)) in
    let b_fits =
      (amount_checked_add-value 32 (stored_balance i b l) amount (stored-IsBytes i b l f) bytes).2.1
        (omega (arith, stored_value i b l)) in
    ground (
      arith,
      check_asset_ok i l x asset,
      balance_after_debit_ok "Account from not found" i a amount l c known_a a_fits,
      balance_after_credit_ok "Account to not found" "Balance overflow" i b amount l d known_b
          b_fits,
    )
