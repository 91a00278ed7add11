-- ===== src/Ledger/Memory/Update.antt =====
-- `cma_ledger_memory::set_account_asset_balance` (src/ledger_impl.cpp): a balance gets a new place,
-- is written in its place, or is removed, and then the last balance moves into its place.
use machine_asset_tools.Prelude.{
  ℕ, ◌+◌, ◌-◌, ◌%◌, ◌^◌, Bool, none, some, List, if◌then◌else◌, ok, err, Throws, pure, gets, ◌>>=◌,
  ◌>>◌, modify, throw_if, or_throw, nat_key, pair_key, pair_eq, length, get_elem?, set, push_back,
  pop_back, back, index_of, leb, ltb, drop, String,
}
use mathlib.Core.Option.{get_or}
use machine_asset_tools.Amount.{Amount, is_zero}
use machine_asset_tools.Map.{find, insert, assign, erase, size}
use machine_asset_tools.Ledger.Types.{Asset, AssetType, Account, AccountType, type_byte}
use machine_asset_tools.Ledger.Code
use machine_asset_tools.Ledger.Memory.{
  MemoryLedger, BalanceType, Balance, BalanceEntry, AccountStruct, zero_entry, amount_at,
}

-- Whether others may read the balance: the account is a wallet's and the asset is on chain.
abbrev pub new_balance_type : AssetType → AccountType → BalanceType
new_balance_type AssetType.id account_type = BalanceType.virtual
new_balance_type asset_type AccountType.wallet_address = BalanceType.withdrawable
new_balance_type asset_type account_type = BalanceType.virtual

-- The token of a withdrawable balance; what the asset's type has no use for stays.
abbrev pub write_token : AssetType → Asset → BalanceEntry → BalanceEntry
write_token AssetType.id asset e = e
write_token AssetType.base asset e = e
write_token AssetType.token_address asset e = record e { token_address = asset.token_address }
write_token asset_type asset e = record e {
  token_address = asset.token_address;
  token_id = asset.token_id;
}

-- The entry of a new withdrawable balance over what stood in its place.
abbrev pub new_entry : Asset → Account → Amount → BalanceEntry → BalanceEntry
new_entry asset account balance e =
    write_token asset.type asset (record e {
      type = type_byte asset.type;
      owner = drop 12 account.account_id;
      amount = balance;
    })

-- Whether `virtual_balances` has a place left in its block.
abbrev pub has_place : MemoryLedger → Bool
has_place l = ltb (length l.virtual_balances) l.virtual_capacity

-- The write of a new balance to the end of its array, with its key. A vector with no place left
-- moves to a block that has one, and the pointers into the old block dangle from then on.
unfoldable pub append_balance :
    BalanceType → ℕ × ℕ → Asset → Account → Amount → MemoryLedger → MemoryLedger
append_balance BalanceType.virtual key asset account balance l = record l {
  virtual_balances = push_back l.virtual_balances balance;
  last_virtual_balances = push_back l.last_virtual_balances key;
  virtual_capacity =
      if has_place l
      then l.virtual_capacity
      else length l.virtual_balances + 1 + l.growth (length l.virtual_balances);
  virtual_moved = if has_place l then l.virtual_moved else length l.virtual_balances;
}
append_balance BalanceType.withdrawable key asset account balance l = record l {
  balances = set l.balances (length l.last_balances) (
      new_entry asset account balance
        (get_or (get_elem? l.balances (length l.last_balances)) zero_entry));
  last_balances = push_back l.last_balances key;
}

-- The place that the new balance has got.
unfoldable pub end_place : BalanceType → MemoryLedger → ℕ
end_place BalanceType.virtual l = length l.virtual_balances
end_place BalanceType.withdrawable l = length l.last_balances

-- `account_asset_balance.emplace(balance_key, new_balance)`
unfoldable pub emplace_balance : ℕ × ℕ → Balance → Throws MemoryLedger (Unit {0})
emplace_balance key b l =
    let (m, inserted) = insert key b l.account_asset_balance in
    if inserted
    then (ok tt, record l { account_asset_balance = m })
    else (err "Balance already exists" Code.insertion_error, l)

-- A write to `n_balances` of the account that was found.
unfoldable pub write_n_balances : ℕ → AccountStruct → ℕ → MemoryLedger → MemoryLedger
write_n_balances account_id a n l = record l {
  laccid_to_account = assign account_id (record a { n_balances = n }) l.laccid_to_account;
}

-- The first part of the method: there is no entry for the key.
unfoldable pub create_balance : ℕ → ℕ → Amount → Throws MemoryLedger (Unit {0})
create_balance asset_id account_id balance = do
  full ← gets (λ l. leb l.max_balances (size l.account_asset_balance))
  throw_if full "Max balances reached" Code.max_balances_reached
  found_asset ← gets (λ l. find asset_id l.lassid_to_asset)
  asset ← or_throw found_asset "Asset by id not found" Code.asset_not_found
  found_account ← gets (λ l. find account_id l.laccid_to_account)
  a ← or_throw found_account "Account by id not found" Code.account_not_found
  place ← gets (end_place (new_balance_type asset.type a.account.type))
  modify (
      append_balance (new_balance_type asset.type a.account.type) (asset_id, account_id) asset
        a.account balance)
  emplace_balance (asset_id, account_id)
      (record { type = new_balance_type asset.type a.account.type; place = place })
  modify (write_n_balances account_id a ((a.n_balances + 1) % 2 ^ 64))

-- A write of a virtual balance; one through a pointer that dangles goes to the freed block.
unfoldable pub virtual_set : ℕ → Amount → MemoryLedger → List Amount
virtual_set p balance l =
    if ltb p l.virtual_moved then l.virtual_balances else set l.virtual_balances p balance

-- A write of the amount that a pointer leads to.
unfoldable pub write_amount : BalanceType → ℕ → Amount → MemoryLedger → MemoryLedger
write_amount BalanceType.virtual p balance l = record l {
  virtual_balances = virtual_set p balance l;
}
write_amount BalanceType.withdrawable p balance l = record l {
  balances =
      set l.balances p (record (get_or (get_elem? l.balances p) zero_entry) { amount = balance });
}

-- The keys of one array.
unfoldable pub keys_of : BalanceType → MemoryLedger → List (ℕ × ℕ)
keys_of BalanceType.virtual l = l.last_virtual_balances
keys_of BalanceType.withdrawable l = l.last_balances

unfoldable pub write_keys : BalanceType → List (ℕ × ℕ) → MemoryLedger → MemoryLedger
write_keys BalanceType.virtual keys l = record l { last_virtual_balances = keys }
write_keys BalanceType.withdrawable keys l = record l { last_balances = keys }

-- The copy of the last balance to the place `p`. A withdrawable one is not copied to itself, and
-- its old place is filled with 0.
unfoldable pub move_last : BalanceType → Bool → ℕ → ℕ → MemoryLedger → MemoryLedger
move_last BalanceType.virtual same p last_place l = record l {
  virtual_balances = virtual_set p (amount_at BalanceType.virtual last_place l) l;
}
move_last BalanceType.withdrawable same p last_place l = record l {
  balances =
      set
        (if same
          then l.balances
          else set l.balances p (get_or (get_elem? l.balances last_place) zero_entry))
        last_place zero_entry;
}

-- The messages of the two branches.
abbrev pub no_last_key : BalanceType → String
no_last_key BalanceType.virtual = "Last virtual balance key not found"
no_last_key BalanceType.withdrawable = "Last balance key not found"

abbrev pub no_last : BalanceType → String
no_last BalanceType.virtual = "Last virtual balance not found"
no_last BalanceType.withdrawable = "Last balance not found"

abbrev pub no_current : BalanceType → String
no_current BalanceType.virtual = "Coundn't find current virtual balance"
no_current BalanceType.withdrawable = "Coundn't find current balance"

-- The last balance takes the place of the one that goes: copied, pointed to, and named there.
unfoldable pub transfer_last : BalanceType → ℕ × ℕ → ℕ → Throws MemoryLedger (Unit {0})
unfolding keys_of index_of
transfer_last t key p = do
  keys ← gets (keys_of t)
  last ← or_throw (back keys) (no_last_key t) Code.balance_not_found
  found ← gets (λ l. find last l.account_asset_balance)
  last_balance ← or_throw found (no_last t) Code.balance_not_found
  current ← or_throw (index_of key keys) (no_current t) Code.balance_not_found
  modify (move_last t (pair_eq last key) p last_balance.place)
  modify (λ l. record l {
    account_asset_balance = assign last (record last_balance { place = p }) l.account_asset_balance;
  })
  modify (write_keys t (set keys current last))

-- The balance is the only one: a withdrawable one is filled with 0.
unfoldable pub clear_single : BalanceType → ℕ → MemoryLedger → MemoryLedger
clear_single BalanceType.virtual p l = l
clear_single BalanceType.withdrawable p l = record l { balances = set l.balances p zero_entry }

-- The end of the array goes: `pop_back` of its keys, and of the amounts where they are a vector.
unfoldable pub drop_last : BalanceType → MemoryLedger → MemoryLedger
drop_last BalanceType.virtual l = record l {
  last_virtual_balances = pop_back l.last_virtual_balances;
  virtual_balances = pop_back l.virtual_balances;
}
drop_last BalanceType.withdrawable l = record l { last_balances = pop_back l.last_balances }

-- `account_asset_balance.erase(find_result->first)` of an entry that was found.
unfoldable pub erase_balance : ℕ × ℕ → MemoryLedger → MemoryLedger
erase_balance key l = record l { account_asset_balance = erase key l.account_asset_balance }

-- A balance that became 0 leaves its array and the map.
unfoldable pub remove_balance : BalanceType → ℕ × ℕ → ℕ → Throws MemoryLedger (Unit {0})
remove_balance t key p = do
  found ← gets (λ l. find key.1 l.laccid_to_account)
  a ← or_throw found "Account by id not found" Code.account_not_found
  several ← gets (λ l. ltb 1 (size l.account_asset_balance))
  if several then transfer_last t key p else modify (clear_single t p)
  modify (write_n_balances key.1 a ((a.n_balances + (2 ^ 64 - 1)) % 2 ^ 64))
  modify (drop_last t)
  modify (erase_balance key)

-- The second part of the method: the entry is there.
unfoldable pub update_balance : Balance → ℕ × ℕ → Amount → Throws MemoryLedger (Unit {0})
update_balance b key balance = do
  modify (write_amount b.type b.place balance)
  if is_zero balance then remove_balance b.type key b.place else pure tt

unfoldable pub set_account_asset_balance : ℕ → ℕ → Amount → Throws MemoryLedger (Unit {0})
unfolding find
set_account_asset_balance asset_id account_id balance l =
    elim (find (asset_id, account_id) l.account_asset_balance) [
      | none ↦ create_balance asset_id account_id balance l
      | some b ↦ update_balance b (asset_id, account_id) balance l
    ]
