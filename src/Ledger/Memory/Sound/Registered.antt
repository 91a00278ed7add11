-- ===== src/Ledger/Memory/Sound/Registered.antt =====
-- Registration and removal on a `cma_ledger_memory` leave its vector as many places.
use machine_asset_tools.Prelude.{ℕ, arith, nat_key, bytes_key, pair_key}
use machine_asset_tools.Ledger.Types.{Bytes, Asset, AssetType, Account, AccountType, Operation}
use machine_asset_tools.Ledger.Memory.{MemoryLedger, clear}
use machine_asset_tools.Ledger.Memory.Assets
use machine_asset_tools.Ledger.Memory.Accounts
use machine_asset_tools.Ledger.Memory.Sound.{Keeps}
use machine_asset_tools.Ledger.Memory.Sound.Reserve.{IsReserved}

unregister_asset-IsReserved :
    (t : AssetType) (x : Asset) → Keeps IsReserved (Assets.unregister_asset t x)
unfolding Assets.unregister_asset Assets.erase_asset_key IsReserved
unregister_asset-IsReserved t x l w = ground arith

erase_asset-IsReserved : (i : ℕ) → Keeps IsReserved (Assets.erase_asset i)
unfolding Assets.erase_asset IsReserved
erase_asset-IsReserved i l w = ground arith

pub remove_asset-IsReserved : (i : ℕ) → Keeps IsReserved (Assets.remove_asset i)
unfolding Assets.remove_asset
remove_asset-IsReserved i l w = grind (arith, unregister_asset-IsReserved, erase_asset-IsReserved)

create_asset_by_id-IsReserved : (t : AssetType) → Keeps IsReserved (Assets.create_by_id t)
unfolding Assets.create_by_id Assets.check_max_assets Assets.insert_asset Assets.define_base
    IsReserved
create_asset_by_id-IsReserved t l w = ground arith

create_asset_by_key-IsReserved :
    (key : Bytes) (x : Asset) → Keeps IsReserved (Assets.create_by_key key x)
unfolding Assets.create_by_key Assets.check_max_assets Assets.insert_asset Assets.insert_asset_key
    IsReserved
create_asset_by_key-IsReserved key x l w = ground arith

find_into-IsReserved :
    (i : ℕ) (c : Assets.AssetCall)
    → IsReserved c.ledger
    → IsReserved (Assets.find_into i c).1.ledger
unfolding Assets.find_into
find_into-IsReserved i c w = w

search_asset_by_id-IsReserved :
    (t : AssetType) (op : Operation) (c : Assets.AssetCall)
    → IsReserved c.ledger
    → IsReserved (Assets.search_by_id t op c).1.ledger
unfolding Assets.search_by_id Assets.aim_at_base
search_asset_by_id-IsReserved t op c w =
    grind (arith, remove_asset-IsReserved, find_into-IsReserved)

search_asset_by_key-IsReserved :
    (key : Bytes) (op : Operation) (c : Assets.AssetCall)
    → IsReserved c.ledger
    → IsReserved (Assets.search_by_key key op c).1.ledger
unfolding Assets.search_by_key
search_asset_by_key-IsReserved key op c w =
    grind (arith, remove_asset-IsReserved, find_into-IsReserved)

retrieve_asset_by_id-IsReserved :
    (t : AssetType) (op : Operation) (c : Assets.AssetCall)
    → IsReserved c.ledger
    → IsReserved (Assets.retrieve_by_id t op c).1.ledger
unfolding Assets.retrieve_by_id
retrieve_asset_by_id-IsReserved t op c w =
    grind (arith, search_asset_by_id-IsReserved, create_asset_by_id-IsReserved)

retrieve_asset_by_key-IsReserved :
    (key : Bytes) (x : Asset) (op : Operation) (c : Assets.AssetCall)
    → IsReserved c.ledger
    → IsReserved (Assets.retrieve_by_key key x op c).1.ledger
unfolding Assets.retrieve_by_key
retrieve_asset_by_key-IsReserved key x op c w =
    grind (arith, search_asset_by_key-IsReserved, create_asset_by_key-IsReserved)

pub retrieve_asset-IsReserved :
    (op : Operation) (c : Assets.AssetCall)
    → IsReserved c.ledger
    → IsReserved (Assets.retrieve_asset op c).1.ledger
unfolding Assets.retrieve_asset Assets.retrieve_by_type Assets.retrieve_by_address
    Assets.retrieve_by_address_id
retrieve_asset-IsReserved op c w =
    grind (arith, retrieve_asset_by_id-IsReserved, retrieve_asset_by_key-IsReserved)

unregister_account-IsReserved :
    (t : AccountType) (a : Account) → Keeps IsReserved (Accounts.unregister_account t a)
unfolding Accounts.unregister_account Accounts.erase_account_key IsReserved
unregister_account-IsReserved t a l w = ground arith

erase_account-IsReserved : (i : ℕ) → Keeps IsReserved (Accounts.erase_account i)
unfolding Accounts.erase_account IsReserved
erase_account-IsReserved i l w = ground arith

pub remove_account-IsReserved : (i : ℕ) → Keeps IsReserved (Accounts.remove_account i)
unfolding Accounts.remove_account
remove_account-IsReserved i l w =
    grind (arith, unregister_account-IsReserved, erase_account-IsReserved)

create_account_by_id-IsReserved : Keeps IsReserved (Accounts.create_by_id)
unfolding Accounts.create_by_id Accounts.check_max_accounts Accounts.insert_account IsReserved
create_account_by_id-IsReserved l w = ground arith

create_account_by_key-IsReserved : (a : Account) → Keeps IsReserved (Accounts.create_by_key a)
unfolding Accounts.create_by_key Accounts.check_max_accounts Accounts.insert_account
    Accounts.insert_account_key IsReserved
create_account_by_key-IsReserved a l w = ground arith

find_by_id-IsReserved :
    (i : ℕ) (c : Accounts.AccountCall)
    → IsReserved c.ledger
    → IsReserved (Accounts.find_by_id i c).1.ledger
unfolding Accounts.find_by_id
find_by_id-IsReserved i c w = ground arith

retrieve_account_by_id-IsReserved :
    (op : Operation) (c : Accounts.AccountCall)
    → IsReserved c.ledger
    → IsReserved (Accounts.retrieve_by_id op c).1.ledger
unfolding Accounts.retrieve_by_id
retrieve_account_by_id-IsReserved op c w =
    grind (arith, remove_account-IsReserved, find_by_id-IsReserved, create_account_by_id-IsReserved)

search_account_by_key-IsReserved :
    (key : Bytes) (op : Operation) (c : Accounts.AccountCall)
    → IsReserved c.ledger
    → IsReserved (Accounts.search_by_key key op c).1.ledger
unfolding Accounts.search_by_key
search_account_by_key-IsReserved key op c w = grind (arith, remove_account-IsReserved)

retrieve_account_by_bytes-IsReserved :
    (t : AccountType) (op : Operation) (c : Accounts.AccountCall)
    → IsReserved c.ledger
    → IsReserved (Accounts.retrieve_by_bytes t op c).1.ledger
unfolding Accounts.retrieve_by_bytes
retrieve_account_by_bytes-IsReserved t op c w =
    grind (arith, search_account_by_key-IsReserved, create_account_by_key-IsReserved)

pub retrieve_account-IsReserved :
    (op : Operation) (c : Accounts.AccountCall)
    → IsReserved c.ledger
    → IsReserved (Accounts.retrieve_account op c).1.ledger
unfolding Accounts.retrieve_account Accounts.retrieve_by_type
retrieve_account-IsReserved op c w =
    grind (arith, retrieve_account_by_id-IsReserved, retrieve_account_by_bytes-IsReserved)

pub clear-IsReserved : (l : MemoryLedger) → IsReserved l → IsReserved (clear l)
unfolding clear IsReserved
clear-IsReserved l w = w
