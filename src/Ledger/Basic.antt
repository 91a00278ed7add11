-- ===== src/Ledger/Basic.antt =====
-- `class cma_ledger_basic` (src/ledger_impl.h, src/ledger_impl.cpp): the ledger over five hash
-- maps, with no removal.
pub mod Assets
pub mod Accounts
pub mod Transactions
pub mod Balances
pub mod Funds
pub mod Conservation
pub mod Progress
pub mod Sound
pub mod Tests
use machine_asset_tools.Prelude.{
  ℕ, ℤ, Bool, true, false, not, ◌&&◌, ◌||◌, Option, none, some, List, [], ◌==◌, if◌then◌else◌,
  Result, ok, err, Throws, pure, throw, gets, reads, ◌>>=◌, ◌>>◌, modify, throw_if, or_throw,
  exact_or_throw, nat_key, bytes_key, pair_key, negate, String,
}
use mathlib.Core.Option.{get_or}
use machine_asset_tools.Amount.{
  Amount, zero_amount, is_zero, is_one, amount_checked_add, amount_checked_sub,
}
use machine_asset_tools.Map.{Map, find, insert, assign, size}
use machine_asset_tools.Ledger.Types.{Bytes, Asset, AssetType, Account, write, is_token_address_id}
use machine_asset_tools.Ledger.Code

-- The members of the class.
pub record BasicLedger : Type 0 where
  pub account_to_laccid : Map Bytes ℕ
  pub laccid_to_account : Map ℕ Account
  pub asset_to_lassid : Map Bytes ℕ
  pub lassid_to_asset : Map ℕ Asset
  pub account_asset_balance : Map (ℕ × ℕ) Amount

-- `cma_ledger_basic() = default`
abbrev pub cma_ledger_basic : BasicLedger
cma_ledger_basic = record {
  account_to_laccid = [];
  laccid_to_account = [];
  asset_to_lassid = [];
  lassid_to_asset = [];
  account_asset_balance = [];
}

unfoldable pub clear : BasicLedger → BasicLedger
clear l = record {
  account_to_laccid = [];
  laccid_to_account = [];
  asset_to_lassid = [];
  lassid_to_asset = [];
  account_asset_balance = [];
}

unfoldable pub get_asset_count : BasicLedger → ℕ
get_asset_count l = size l.lassid_to_asset

-- The pointers that `find_asset` writes through.
pub record AssetOut : Type 0 where
  pub asset_type : Option AssetType
  pub token_address : Option Bytes
  pub token_id : Option Bytes
  pub supply : Option Amount

-- The `switch` on the type of the asset that was found.
found_asset : AssetType → Asset → AssetOut → Result Bool × AssetOut
found_asset AssetType.id a out = (ok true, record out { supply = write out.supply a.supply })
found_asset AssetType.token_address a out = (
  ok true,
  record out {
    token_address = write out.token_address a.token_address;
    supply = write out.supply a.supply;
  },
)
found_asset AssetType.token_address_id a out = (
  ok true,
  record out {
    token_address = write out.token_address a.token_address;
    token_id = write out.token_id a.token_id;
    supply = write out.supply a.supply;
  },
)
found_asset AssetType.token_address_id_amount a out = (
  ok true,
  record out {
    token_address = write out.token_address a.token_address;
    token_id = write out.token_id a.token_id;
    supply = write out.supply a.supply;
  },
)
found_asset AssetType.base a out = (err "Invalid asset type" Code.e_inval, out)

unfoldable pub find_asset : ℕ → BasicLedger → AssetOut → Result Bool × AssetOut
unfolding find found_asset
find_asset asset_id l out = elim (find asset_id l.lassid_to_asset) [
  | none ↦ (ok false, out)
  | some a ↦ found_asset a.type a (record out { asset_type = write out.asset_type a.type })
]

unfoldable pub set_asset_supply : ℕ → Amount → Throws BasicLedger (Unit {0})
unfolding find assign
set_asset_supply asset_id supply l = elim (find asset_id l.lassid_to_asset) [
  | none ↦ (err "Asset by id not found" Code.asset_not_found, l)
  | some a ↦ (
    ok tt,
    record l { lassid_to_asset = assign asset_id (record a { supply = supply }) l.lassid_to_asset },
  )
]

unfoldable pub get_account_count : BasicLedger → ℕ
get_account_count l = size l.laccid_to_account

-- The account pointer may be null; the third argument is not used.
unfoldable pub find_account : ℕ → BasicLedger → Option Account → Bool × Option Account
unfolding find
find_account account_id l account = elim (find account_id l.laccid_to_account) [
  | none ↦ (false, account)
  | some a ↦ (true, write account a)
]

-- The pointers to the balance and, by the flag, to the balance's place.
unfoldable pub get_account_asset_balance :
    ℕ → ℕ → Option Amount → Bool → BasicLedger → Result (Option Amount)
unfolding find
get_account_asset_balance asset_id account_id balance with_info l =
    if with_info
    then err "Account balance not available" (negate Code.balance_not_found)
    else elim balance [
      | none ↦ ok none
      | some _ ↦ elim (find (asset_id, account_id) l.account_asset_balance) [
        | none ↦ ok (some zero_amount)
        | some b ↦ ok (some b)
      ]
    ]

unfoldable pub set_account_asset_balance : ℕ → ℕ → Amount → BasicLedger → BasicLedger
unfolding find insert assign
set_account_asset_balance asset_id account_id balance l =
    elim (find (asset_id, account_id) l.account_asset_balance) [
      | none ↦ record l {
        account_asset_balance = (insert (asset_id, account_id) balance l.account_asset_balance).0;
      }
      | some _ ↦ record l {
        account_asset_balance = assign (asset_id, account_id) balance l.account_asset_balance;
      }
    ]

-- `find_asset` with pointers to locals for the type and the supply: what the locals hold.
find_supply : ℕ → BasicLedger → Result (Option (AssetType × Amount))
unfolding find_asset
find_supply asset_id l =
    let (r, out) = find_asset asset_id l (record {
      asset_type = some AssetType.id;
      token_address = none;
      token_id = none;
      supply = some zero_amount;
    }) in
    elim r [
      | ok true ↦ ok (some (get_or out.asset_type AssetType.id, get_or out.supply zero_amount))
      | ok false ↦ ok none
      | err message code ↦ err message code
    ]

-- `get_account_asset_balance` with a pointer to a zeroed local.
balance_of : ℕ → ℕ → BasicLedger → Result Amount
unfolding get_account_asset_balance
balance_of asset_id account_id l =
    elim (get_account_asset_balance asset_id account_id (some zero_amount) false l) [
      | ok b ↦ ok (get_or b zero_amount)
      | err message code ↦ err message code
    ]

-- `find_account(account_id, nullptr, nullptr)`
has_account : ℕ → BasicLedger → Bool
unfolding find_account
has_account account_id l = (find_account account_id l none).0

-- Step 1 of `deposit`: the supply that it will write.
unfoldable pub supply_after_deposit : ℕ → Amount → Throws BasicLedger Amount
unfolding find_supply
supply_after_deposit asset_id amount = do
  throw_if (is_zero amount) "Can't deposit zero" Code.balance_overflow
  found ← reads (find_supply asset_id)
  (asset_type, curr_supply) ← or_throw found "Asset by id not found" Code.asset_not_found
  new_supply ←
      exact_or_throw (amount_checked_add curr_supply amount) "Asset supply overflow"
        Code.supply_overflow
  throw_if (is_token_address_id asset_type && (not (is_zero curr_supply) || not (is_one amount)))
      "Can't deposit type id asset and end with higher amounts than 1" Code.supply_overflow
  pure new_supply

-- Step 1 of `withdraw`.
unfoldable pub supply_after_withdraw : ℕ → Amount → Throws BasicLedger Amount
unfolding find_supply
supply_after_withdraw asset_id amount = do
  found ← reads (find_supply asset_id)
  (_, curr_supply) ← or_throw found "Asset by id not found" Code.asset_not_found
  exact_or_throw (amount_checked_sub curr_supply amount) "Asset supply underflow"
      Code.supply_overflow

-- Step 1 of `transfer`.
unfoldable pub check_asset : ℕ → Throws BasicLedger (Unit {0})
unfolding find_supply
check_asset asset_id = do
  found ← reads (find_supply asset_id)
  or_throw found "Asset by id not found" Code.asset_not_found
  pure tt

-- An account is looked up and its balance raised: steps 2 and 3 of `deposit`, 4 and 5 of
-- `transfer`, each with its own messages.
unfoldable pub balance_after_credit : String → String → ℕ → ℕ → Amount → Throws BasicLedger Amount
unfolding balance_of has_account
balance_after_credit unknown overflow asset_id account_id amount = do
  known ← gets (has_account account_id)
  throw_if (not known) unknown Code.account_not_found
  curr_balance ← reads (balance_of asset_id account_id)
  exact_or_throw (amount_checked_add curr_balance amount) overflow Code.balance_overflow

-- The same with the balance lowered: steps 2 and 3 of `withdraw` and of `transfer`.
unfoldable pub balance_after_debit : String → ℕ → ℕ → Amount → Throws BasicLedger Amount
unfolding balance_of has_account
balance_after_debit unknown asset_id account_id amount = do
  known ← gets (has_account account_id)
  throw_if (not known) unknown Code.account_not_found
  curr_balance ← reads (balance_of asset_id account_id)
  exact_or_throw (amount_checked_sub curr_balance amount) "Insufficient funds"
      Code.insufficient_funds

unfoldable pub deposit : ℕ → ℕ → Amount → Throws BasicLedger (Unit {0})
deposit asset_id to_account_id amount = do
  new_supply ← supply_after_deposit asset_id amount
  new_balance ←
      balance_after_credit "Account by id not found" "Asset balance overflow" asset_id to_account_id
        amount
  modify (set_account_asset_balance asset_id to_account_id new_balance)
  set_asset_supply asset_id new_supply

unfoldable pub withdraw : ℕ → ℕ → Amount → Throws BasicLedger (Unit {0})
withdraw asset_id from_account_id amount = do
  new_supply ← supply_after_withdraw asset_id amount
  new_balance ← balance_after_debit "Account by id not found" asset_id from_account_id amount
  modify (set_account_asset_balance asset_id from_account_id new_balance)
  set_asset_supply asset_id new_supply

unfoldable pub transfer : ℕ → ℕ → ℕ → Amount → Throws BasicLedger (Unit {0})
transfer asset_id from_account_id to_account_id amount = do
  check_asset asset_id
  throw_if (from_account_id == to_account_id) "Account from equal to account to" Code.e_inval
  new_balance_from ← balance_after_debit "Account from not found" asset_id from_account_id amount
  new_balance_to ←
      balance_after_credit "Account to not found" "Balance overflow" asset_id to_account_id amount
  modify (set_account_asset_balance asset_id from_account_id new_balance_from)
  modify (set_account_asset_balance asset_id to_account_id new_balance_to)
