-- ===== src/Ledger/Basic/Tests.antt =====
-- Runs of `cma_ledger_basic`, and the theorems about it at a ledger with one token and two wallets.
use machine_asset_tools.Prelude.{
  ℕ, ◌<◌, ◌≡◌, refl, ap, [], ◌∷◌, ◌++◌, replicate, bytes_eq, nat_key, bytes_key, pair_key, none,
  some, ok, err, arith, ◌⊎◌,
}
use machine_asset_tools.Amount.{Amount, zero_amount, is_zero, is_one, amount_checked_add}
use machine_asset_tools.Amount.Value.{IsBytes, value}
use machine_asset_tools.Map.{find, insert, assign}
use machine_asset_tools.Ledger.Types.{
  Bytes, Asset, AssetType, Account, AccountType, Operation, address_key,
}
use machine_asset_tools.Ledger.Code
use machine_asset_tools.Ledger.Basic.{
  BasicLedger, cma_ledger_basic, clear, deposit, withdraw, transfer, get_asset_count,
  get_account_count, find_asset, find_account, set_asset_supply, set_account_asset_balance,
  get_account_asset_balance, supply_after_deposit, supply_after_withdraw, check_asset,
  balance_after_credit, balance_after_debit,
}
use machine_asset_tools.Ledger.Basic.Assets.{
  AssetArgs, AssetCall, address_asset, retrieve_asset, retrieve_by_type, retrieve_by_address,
  retrieve_by_key, find_by_key, insert_asset, insert_asset_key,
}
use machine_asset_tools.Ledger.Basic.Accounts.{
  AccountArgs, AccountCall, retrieve_account, retrieve_by_bytes, local_account, start_with_zeros,
  insert_account, insert_account_key,
}
use machine_asset_tools.Ledger.Basic.Sound.{
  IsSound, clear-IsSound, deposit-IsSound, retrieve_asset-IsSound, retrieve_account-IsSound,
}
use machine_asset_tools.Ledger.Basic.Conservation.{
  Ends, Credited, Debited, Moved, deposit-Credited, withdraw-Debited, transfer-Moved,
}
use machine_asset_tools.Ledger.Basic.Funds.{IsFunded}
use machine_asset_tools.Ledger.Basic.Progress.{
  HasAsset, deposit_returns, withdraw_returns, transfer_returns,
}
use machine_asset_tools.Ledger.Basic.Assets.Registry.{IsRegistry, retrieve_asset-IsRegistry}
use machine_asset_tools.Ledger.Basic.Assets.Lookup.{
  AsksFor, Found, retrieve_asset-Found, create-find,
}
use machine_asset_tools.Ledger.Basic.Assets.Distinct.{by_address, asset-one_token}
use machine_asset_tools.Ledger.Basic.Accounts.Registry.{IsAccounts, retrieve_account-IsAccounts}
use machine_asset_tools.Ledger.Basic.Accounts.Lookup.{asks, Located, find_or_create-find}

abbrev units : ℕ → Amount
units n = replicate 31 0 ++ (n ∷ [])

units-IsBytes : (n : ℕ) → n < 256 → IsBytes 32 (units n)
units-IsBytes n h = ground arith

abbrev token : Bytes
token = replicate 20 7

abbrev alice : Bytes
alice = replicate 20 1

abbrev bob : Bytes
bob = replicate 20 2

abbrev token_args : AssetArgs
token_args = record {
  asset_id = some 99;
  token_address = some token;
  token_id = none;
  out_total_supply = some zero_amount;
  asset_type = AssetType.token_address;
}

abbrev wallet_args : Bytes → AccountArgs
wallet_args w = record {
  account_id = some 99;
  account = none;
  addr_accid = some w;
  account_type = AccountType.wallet_address;
}

-- A token and two wallets are registered, and Alice deposits 5.
abbrev with_token : AssetCall
with_token =
    (retrieve_asset Operation.find_or_create
      (record { ledger = cma_ledger_basic; args = token_args })).1

abbrev with_alice : AccountCall
with_alice =
    (retrieve_account Operation.find_or_create
      (record { ledger = with_token.ledger; args = wallet_args alice })).1

abbrev with_bob : AccountCall
with_bob =
    (retrieve_account Operation.find_or_create
      (record { ledger = with_alice.ledger; args = wallet_args bob })).1

abbrev wallet : Bytes → Account
wallet w = record { type = AccountType.wallet_address; account_id = replicate 12 0 ++ w }

abbrev five_tokens : Asset
five_tokens = record (address_asset token) { supply = units 5 }

abbrev bank : BasicLedger
bank = record {
  account_to_laccid = ((wallet bob).account_id, 1) ∷ ((wallet alice).account_id, 0) ∷ [];
  laccid_to_account = (1, wallet bob) ∷ (0, wallet alice) ∷ [];
  asset_to_lassid = (address_key token, 0) ∷ [];
  lassid_to_asset = (0, five_tokens) ∷ [];
  account_asset_balance = ((0, 0), units 5) ∷ [];
}

bank_run : deposit 0 0 (units 5) with_bob.ledger ≡ (ok tt, bank)
unfolding deposit retrieve_asset retrieve_by_type retrieve_by_address retrieve_by_key find_by_key
    insert_asset insert_asset_key retrieve_account retrieve_by_bytes local_account insert_account
    insert_account_key find insert assign supply_after_deposit balance_after_credit set_asset_supply
    set_account_asset_balance amount_checked_add is_zero is_one find_asset find_account
    get_account_asset_balance get_asset_count get_account_count start_with_zeros
    machine_asset_tools.Ledger.Basic.Accounts.retrieve_by_type
    machine_asset_tools.Ledger.Basic.Accounts.find_by_key
bank_run = refl

bank-IsSound : IsSound bank
bank-IsSound =
    let s =
      deposit-IsSound (units 5) (units-IsBytes 5 (omega arith)) with_bob.ledger
        (retrieve_account-IsSound Operation.find_or_create _ (
          retrieve_account-IsSound Operation.find_or_create _ (
            retrieve_asset-IsSound Operation.find_or_create
              (record { ledger = cma_ledger_basic; args = token_args })
              (unfold clear in clear-IsSound cma_ledger_basic))))
        0 0 in
    rw (ap (λ r. r.1) bank_run) at s

deposit-Credited_example :
    Ends (Credited 0 1 (value (units 3)) bank) bank (deposit 0 1 (units 3) bank)
deposit-Credited_example =
    deposit-Credited 0 1 (units 3) bank bank-IsSound.funded (units-IsBytes 3 (omega arith))

withdraw-Debited_example :
    Ends (Debited 0 0 (value (units 3)) bank) bank (withdraw 0 0 (units 3) bank)
withdraw-Debited_example =
    withdraw-Debited 0 0 (units 3) bank bank-IsSound.funded (units-IsBytes 3 (omega arith))

transfer-Moved_example :
    Ends (Moved 0 0 1 (value (units 3)) bank) bank (transfer 0 0 1 (units 3) bank)
transfer-Moved_example =
    transfer-Moved 0 0 1 (units 3) bank bank-IsSound.funded (units-IsBytes 3 (omega arith))

bank-HasAsset : HasAsset 0 five_tokens bank
unfolding find
bank-HasAsset = record { registered = refl; supported = λ q. cc }

alice_known : find 0 bank.laccid_to_account ≡ some (wallet alice)
unfolding find
alice_known = refl

bob_known : find 1 bank.laccid_to_account ≡ some (wallet bob)
unfolding find
bob_known = refl

deposit_returns_example : (deposit 0 1 (units 3) bank).0 ≡ ok tt
unfolding value
deposit_returns_example =
    deposit_returns 0 1 (units 3) bank five_tokens (wallet bob) bank-IsSound.funded
      (units-IsBytes 3 (omega arith)) bank-HasAsset bob_known (omega arith) (omega arith) (λ t. cc)

withdraw_returns_example : (withdraw 0 0 (units 3) bank).0 ≡ ok tt
unfolding value find
withdraw_returns_example =
    withdraw_returns 0 0 (units 3) bank five_tokens (wallet alice) bank-IsSound.funded
      (units-IsBytes 3 (omega arith)) bank-HasAsset alice_known (omega arith)

transfer_returns_example : (transfer 0 0 1 (units 3) bank).0 ≡ ok tt
unfolding value find
transfer_returns_example =
    transfer_returns 0 0 1 (units 3) bank five_tokens (wallet alice) (wallet bob)
      bank-IsSound.funded (units-IsBytes 3 (omega arith)) bank-HasAsset (omega arith) alice_known
      bob_known (omega arith)

abbrev ask_token : AssetCall
ask_token = record { ledger = bank; args = token_args }

retrieve_asset-IsRegistry_example :
    IsRegistry (retrieve_asset Operation.find_or_create ask_token).1.ledger
    × IsFunded (retrieve_asset Operation.find_or_create ask_token).1.ledger
retrieve_asset-IsRegistry_example =
    retrieve_asset-IsRegistry Operation.find_or_create ask_token bank-IsSound.registry
      bank-IsSound.funded

retrieve_account-IsAccounts_example :
    IsAccounts
      (retrieve_account Operation.create
        (record { ledger = bank; args = wallet_args token })).1.ledger
retrieve_account-IsAccounts_example =
    retrieve_account-IsAccounts Operation.create
      (record { ledger = bank; args = wallet_args token }) bank-IsSound.accounts

asks_token : AsksFor token ask_token
asks_token = record { by_address = refl; given = refl }

retrieve_asset-Found_example :
    (x : Asset) × (find 0 bank.lassid_to_asset ≡ some x)
    × Found 0 x ask_token (retrieve_asset Operation.find ask_token)
unfolding find address_key bytes_eq
retrieve_asset-Found_example =
    retrieve_asset-Found token 0 Operation.find ask_token bank-IsSound.registry asks_token refl refl

-- Another token, which is new.
abbrev coin : Bytes
coin = replicate 20 9

abbrev ask_coin : AssetCall
ask_coin = record ask_token { args = record token_args { token_address = some coin } }

abbrev ask_coin_again : AssetCall
ask_coin_again = record ask_coin { ledger = (retrieve_asset Operation.create ask_coin).1.ledger }

asks_coin : AsksFor coin ask_coin
asks_coin = record { by_address = refl; given = refl }

asks_coin_again : AsksFor coin ask_coin_again
asks_coin_again = record { by_address = refl; given = refl }

create-find_example :
    ((i : ℕ) × (find (address_key coin) bank.asset_to_lassid ≡ some i)
      × (retrieve_asset Operation.create ask_coin
          ≡ (err "Asset Key already exists" Code.insertion_error, ask_coin)))
    ⊎ (((retrieve_asset Operation.create ask_coin).0 ≡ ok tt)
        × ((retrieve_asset Operation.create ask_coin).1.args.asset_id ≡ some 1)
        × Found 1
            (address_asset coin)
            ask_coin_again
            (retrieve_asset Operation.find ask_coin_again))
create-find_example =
    create-find coin ask_coin ask_coin_again bank-IsSound.registry asks_coin asks_coin_again refl

abbrev ask_alice : AccountCall
ask_alice = record { ledger = bank; args = wallet_args bob }

abbrev ask_alice_again : AccountCall
ask_alice_again = record {
  ledger =
      (retrieve_account Operation.find_or_create
        (asks AccountType.wallet_address alice ask_alice)).1.ledger;
  args = wallet_args bob;
}

find_or_create-find_example :
    ((retrieve_account Operation.find_or_create (asks AccountType.wallet_address alice ask_alice)).0
      ≡ ok tt)
    × ((i : ℕ) × ((retrieve_account Operation.find_or_create
            (asks AccountType.wallet_address alice ask_alice)).1.args.account_id
          ≡ some i)
        × Located i (asks AccountType.account_id (replicate 12 0 ++ alice) ask_alice_again) (
            retrieve_account Operation.find
              (asks AccountType.account_id (replicate 12 0 ++ alice) ask_alice_again)))
find_or_create-find_example =
    find_or_create-find alice ask_alice ask_alice_again bank-IsSound.accounts refl

asset-one_token_example : by_address token ≡ by_address token
unfolding find address_key bytes_eq
asset-one_token_example =
    asset-one_token (by_address token) (by_address token) 0 bank bank-IsSound.registry refl refl
      refl refl
