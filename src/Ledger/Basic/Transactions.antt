-- ===== src/Ledger/Basic/Transactions.antt =====
-- What a deposit, a withdrawal or a transfer of `cma_ledger_basic` that returns has checked and
-- written, and that one that throws has written nothing.
use machine_asset_tools.Prelude.{
  is_negative, ℕ, ◌≡◌, ◌≢◌, true, false, none, some, ◌==◌, Result, ok, err, arith, String, nat_key,
  pair_key, ◌⊎◌, inl, inr, Option-cases, Bool-cases,
}
use machine_asset_tools.Amount.{
  Amount, zero_amount, is_zero, is_one, amount_checked_add, amount_checked_sub,
}
use machine_asset_tools.Map.{find, assign}
use machine_asset_tools.Ledger.Types.{Asset, is_token_address_id}
use machine_asset_tools.Ledger.Basic.{
  BasicLedger, find_supply, deposit, supply_after_deposit, supply_after_withdraw, check_asset,
  balance_after_credit, balance_after_debit, withdraw, transfer, set_account_asset_balance,
  set_asset_supply, find_account,
}

-- The call throws with a negative code and leaves the ledger alone.
abbrev pub Refuses : {A : Type 0} → BasicLedger → Result A × BasicLedger → Type 0
Refuses l (ok a, l') = ⊥
Refuses l (err message code, l') = (l' ≡ l) × (is_negative code ≡ true)

abbrev pub stored_balance : ℕ → ℕ → BasicLedger → Amount
stored_balance i a l = elim (find (i, a) l.account_asset_balance) [
  | none ↦ zero_amount
  | some b ↦ b
]

-- The supply of an asset that is known, written.
abbrev pub assign_supply : ℕ → Asset → Amount → BasicLedger → BasicLedger
assign_supply i x s l = record l {
  lassid_to_asset = assign i (record x { supply = s }) l.lassid_to_asset;
}

-- What step 1 of a deposit has checked.
pub record DepositChecked (i : ℕ) (amount : Amount) (l : BasicLedger) (asset : Asset) : Type 0 where
  pub known : find i l.lassid_to_asset ≡ some asset
  pub some_amount : is_zero amount ≡ false
  pub nft_is_one :
      is_token_address_id asset.type ≡ true → (is_zero asset.supply ≡ true) × (is_one amount ≡ true)
  pub fits : (amount_checked_add asset.supply amount).1 ≡ true

pub supply_after_deposit_cases :
    (i : ℕ) (amount : Amount) (l : BasicLedger)
    → Refuses l (supply_after_deposit i amount l)
      ⊎ ((asset : Asset) × DepositChecked i amount l asset
          × (supply_after_deposit i amount l ≡ (ok (amount_checked_add asset.supply amount).0, l)))
unfolding supply_after_deposit find_supply
supply_after_deposit_cases i amount l = elim (Option-cases (find i l.lassid_to_asset)) [
  | inl missing ↦ inl (ground (arith))
  | inr (x, known) ↦ elim (known_asset x known) [ inl r ↦ inl r | inr r ↦ inr (x, r.0, r.1) ]
]
  where
    known_asset :
        (x : Asset)
        → find i l.lassid_to_asset ≡ some x
        → Refuses l (supply_after_deposit i amount l)
          ⊎ (DepositChecked i amount l x
              × (supply_after_deposit i amount l ≡ (ok (amount_checked_add x.supply amount).0, l)))
    known_asset x known = ground arith

pub record WithdrawChecked (i : ℕ) (amount : Amount) (l : BasicLedger) (asset : Asset)
    : Type 0 where
  pub known : find i l.lassid_to_asset ≡ some asset
  pub covered : (amount_checked_sub asset.supply amount).1 ≡ true

pub supply_after_withdraw_cases :
    (i : ℕ) (amount : Amount) (l : BasicLedger)
    → Refuses l (supply_after_withdraw i amount l)
      ⊎ ((asset : Asset) × WithdrawChecked i amount l asset
          × (supply_after_withdraw i amount l ≡ (ok (amount_checked_sub asset.supply amount).0, l)))
unfolding supply_after_withdraw find_supply
supply_after_withdraw_cases i amount l = elim (Option-cases (find i l.lassid_to_asset)) [
  | inl missing ↦ inl (ground (arith))
  | inr (x, known) ↦ elim (known_asset x known) [ inl r ↦ inl r | inr r ↦ inr (x, r.0, r.1) ]
]
  where
    known_asset :
        (x : Asset)
        → find i l.lassid_to_asset ≡ some x
        → Refuses l (supply_after_withdraw i amount l)
          ⊎ (WithdrawChecked i amount l x
              × (supply_after_withdraw i amount l ≡ (ok (amount_checked_sub x.supply amount).0, l)))
    known_asset x known = ground arith

pub check_asset_cases :
    (i : ℕ) (l : BasicLedger)
    → Refuses l (check_asset i l)
      ⊎ ((asset : Asset) × (find i l.lassid_to_asset ≡ some asset) × (check_asset i l ≡ (ok tt, l)))
unfolding check_asset find_supply
check_asset_cases i l = elim (Option-cases (find i l.lassid_to_asset)) [
  | inl missing ↦ inl (ground (arith))
  | inr (x, known) ↦ elim (known_asset x known) [ inl r ↦ inl r | inr r ↦ inr (x, known, r) ]
]
  where
    known_asset :
        (x : Asset)
        → find i l.lassid_to_asset ≡ some x
        → Refuses l (check_asset i l) ⊎ (check_asset i l ≡ (ok tt, l))
    known_asset x known = ground arith

-- What a credit has checked.
pub record CreditChecked (i a : ℕ) (amount : Amount) (l : BasicLedger) : Type 0 where
  pub known : (find_account a l none).0 ≡ true
  pub fits : (amount_checked_add (stored_balance i a l) amount).1 ≡ true

pub balance_after_credit_cases :
    (unknown overflow : String) (i a : ℕ) (amount : Amount) (l : BasicLedger)
    → Refuses l (balance_after_credit unknown overflow i a amount l)
      ⊎ (CreditChecked i a amount l
          × (balance_after_credit unknown overflow i a amount l
              ≡ (ok (amount_checked_add (stored_balance i a l) amount).0, l)))
unfolding balance_after_credit find_account
balance_after_credit_cases unknown overflow i a amount l = ground arith

pub record DebitChecked (i a : ℕ) (amount : Amount) (l : BasicLedger) : Type 0 where
  pub known : (find_account a l none).0 ≡ true
  pub covered : (amount_checked_sub (stored_balance i a l) amount).1 ≡ true

pub balance_after_debit_cases :
    (unknown : String) (i a : ℕ) (amount : Amount) (l : BasicLedger)
    → Refuses l (balance_after_debit unknown i a amount l)
      ⊎ (DebitChecked i a amount l
          × (balance_after_debit unknown i a amount l
              ≡ (ok (amount_checked_sub (stored_balance i a l) amount).0, l)))
unfolding balance_after_debit find_account
balance_after_debit_cases unknown i a amount l = ground arith

-- The two writes at the end of a deposit and of a withdrawal, for an asset that is known.
pub write_both :
    (i a : ℕ) (balance supply : Amount) (l : BasicLedger) (asset : Asset)
    → find i l.lassid_to_asset ≡ some asset
    → set_asset_supply i supply (set_account_asset_balance i a balance l)
      ≡ (ok tt, assign_supply i asset supply (set_account_asset_balance i a balance l))
unfolding set_asset_supply set_account_asset_balance
write_both i a balance supply l asset known = ground arith

-- The writes of a deposit that passes its checks.
abbrev pub deposited : ℕ → ℕ → Amount → Asset → BasicLedger → BasicLedger
deposited i a amount asset l =
    assign_supply i asset (amount_checked_add asset.supply amount).0
      (set_account_asset_balance i a (amount_checked_add (stored_balance i a l) amount).0 l)

pub deposit_cases :
    (i a : ℕ) (amount : Amount) (l : BasicLedger)
    → Refuses l (deposit i a amount l)
      ⊎ ((asset : Asset) × DepositChecked i amount l asset
          × CreditChecked i a amount l
          × (deposit i a amount l ≡ (ok tt, deposited i a amount asset l)))
unfolding deposit
deposit_cases i a amount l = elim (supply_after_deposit_cases i amount l) [
  | inl r ↦ inl (ground arith)
  | inr (x, c, e) ↦
      elim (balance_after_credit_cases "Account by id not found" "Asset balance overflow" i a amount
        l) [
          | inl r ↦ inl (ground arith)
          | inr (d, f) ↦ inr (
            x,
            c,
            d,
            ground (
              arith,
              write_both i a (amount_checked_add (stored_balance i a l) amount).0
                  (amount_checked_add x.supply amount).0 l x c.known,
            ),
          )
        ]
]

abbrev pub withdrawn : ℕ → ℕ → Amount → Asset → BasicLedger → BasicLedger
withdrawn i a amount asset l =
    assign_supply i asset (amount_checked_sub asset.supply amount).0
      (set_account_asset_balance i a (amount_checked_sub (stored_balance i a l) amount).0 l)

pub withdraw_cases :
    (i a : ℕ) (amount : Amount) (l : BasicLedger)
    → Refuses l (withdraw i a amount l)
      ⊎ ((asset : Asset) × WithdrawChecked i amount l asset
          × DebitChecked i a amount l
          × (withdraw i a amount l ≡ (ok tt, withdrawn i a amount asset l)))
unfolding withdraw
withdraw_cases i a amount l = elim (supply_after_withdraw_cases i amount l) [
  | inl r ↦ inl (ground arith)
  | inr (x, c, e) ↦ elim (balance_after_debit_cases "Account by id not found" i a amount l) [
    | inl r ↦ inl (ground arith)
    | inr (d, f) ↦ inr (
      x,
      c,
      d,
      ground (
        arith,
        write_both i a (amount_checked_sub (stored_balance i a l) amount).0
            (amount_checked_sub x.supply amount).0 l x c.known,
      ),
    )
  ]
]

abbrev pub transferred : ℕ → ℕ → ℕ → Amount → BasicLedger → BasicLedger
transferred i a b amount l =
    set_account_asset_balance i b (amount_checked_add (stored_balance i b l) amount).0
      (set_account_asset_balance i a (amount_checked_sub (stored_balance i a l) amount).0 l)

pub transfer_cases :
    (i a b : ℕ) (amount : Amount) (l : BasicLedger)
    → Refuses l (transfer i a b amount l)
      ⊎ ((asset : Asset) × (find i l.lassid_to_asset ≡ some asset)
          × (a ≢ b)
          × DebitChecked i a amount l
          × CreditChecked i b amount l
          × (transfer i a b amount l ≡ (ok tt, transferred i a b amount l)))
unfolding transfer
transfer_cases i a b amount l = elim (check_asset_cases i l) [
  | inl r ↦ inl (ground arith)
  | inr (x, c, e) ↦ elim (Bool-cases (a == b)) [
    | inl same ↦ inl (ground arith)
    | inr ne ↦ elim (balance_after_debit_cases "Account from not found" i a amount l) [
      | inl r ↦ inl (ground arith)
      | inr (d, f) ↦
          elim (balance_after_credit_cases "Account to not found" "Balance overflow" i b amount l) [
            | inl r ↦ inl (ground arith)
            | inr (g, h) ↦ inr (x, c, ground arith, d, g, ground arith)
          ]
    ]
  ]
]
