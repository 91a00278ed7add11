-- ===== src/Ledger/Memory/Sound/Reach.antt =====
-- The ledgers that the constructor of `cma_ledger_memory` and any sequence of its operations reach.
use machine_asset_tools.Prelude.{
  ℕ, ◌<◌, ◌^◌, ◌≡◌, refl, arith, ok, List, [], ◌∷◌, length, nat_key, pair_key, suc, zero, ap, ◌∙◌,
}
use mathlib.Core.Path.{subst}
use machine_asset_tools.Amount.{Amount}
use machine_asset_tools.Map.{find}
use machine_asset_tools.Map.Laws.{IsUnique}
use machine_asset_tools.Ledger.Types.{Operation}
use machine_asset_tools.Ledger.Basic.Assets.{AssetArgs}
use machine_asset_tools.Ledger.Memory.{
  MemoryLedger, BalanceEntry, BalanceType, clear as clear_ledger, clear_entries,
}
use machine_asset_tools.Ledger.Memory.Construct.{Sizes, Region, new_ledger, cma_ledger_memory}
use machine_asset_tools.Ledger.Memory.Assets
use machine_asset_tools.Ledger.Memory.Accounts
use machine_asset_tools.Ledger.Memory.Transact
use machine_asset_tools.Ledger.Memory.Slots.{IsSlots}
use machine_asset_tools.Ledger.Memory.Placed.{HasPlaces}
use machine_asset_tools.Ledger.Memory.Changed.{fewer-HasPlaces}
use machine_asset_tools.Ledger.Memory.Counted.{entries_of}
use machine_asset_tools.Ledger.Memory.Sound.{IsSound}
use machine_asset_tools.Ledger.Memory.Sound.Assets.{retrieve_asset-IsSound, remove_asset-IsSound}
use machine_asset_tools.Ledger.Memory.Sound.Accounts.{
  retrieve_account-IsSound, remove_account-IsSound,
}
use machine_asset_tools.Ledger.Memory.Sound.Transact.{
  deposit-IsSound, withdraw-IsSound, transfer-IsSound,
}

-- One call of a method that writes, with its arguments; the caller's variables come with the call.
pub data Call : Type 0 where
  clear : Call
  retrieve_asset : AssetArgs → Operation → Call
  remove_asset : ℕ → Call
  retrieve_account : Accounts.AccountArgs → Operation → Call
  remove_account : ℕ → Call
  deposit : ℕ → ℕ → Amount → Call
  withdraw : ℕ → ℕ → Amount → Call
  transfer : ℕ → ℕ → ℕ → Amount → Call

-- What the call leaves of the ledger, whether it returns or throws.
unfoldable pub run : Call → MemoryLedger → MemoryLedger
unfolding clear_ledger Assets.retrieve_asset Assets.remove_asset Accounts.retrieve_account
    Accounts.remove_account Transact.deposit Transact.withdraw Transact.transfer
run Call.clear l = clear_ledger l
run (Call.retrieve_asset args operation) l =
    (Assets.retrieve_asset operation (record { ledger = l; args = args })).1.ledger
run (Call.remove_asset i) l = (Assets.remove_asset i l).1
run (Call.retrieve_account args operation) l =
    (Accounts.retrieve_account operation (record { ledger = l; args = args })).1.ledger
run (Call.remove_account i) l = (Accounts.remove_account i l).1
run (Call.deposit i c amount) l = (Transact.deposit i c amount l).1
run (Call.withdraw i c amount) l = (Transact.withdraw i c amount l).1
run (Call.transfer i c d amount) l = (Transact.transfer i c d amount l).1

unfoldable pub run_all : List Call → MemoryLedger → MemoryLedger
unfolding run
run_all [] l = l
run_all (call ∷ calls) l = run_all calls (run call l)

-- Before every call, the vector of the virtual balances has two places left, or as many places as
-- the limit of balances.
abbrev pub Room : List Call → MemoryLedger → Type 0
Room [] l = Unit
Room (call ∷ calls) l = HasPlaces 2 l × Room calls (run call l)

length-clear_entries : (n : ℕ) (es : List BalanceEntry) → length (clear_entries n es) ≡ length es
unfolding clear_entries
length-clear_entries zero es = refl
length-clear_entries (suc n) [] = refl
length-clear_entries (suc n) (e ∷ es) = ap suc (length-clear_entries n es)

-- No balances at all.
no_balances : (t : BalanceType) → IsSlots t [] []
unfolding find
no_balances t = record { placed = λ k p e. ground arith; named = λ k p e. ground arith }

clear-IsSound : (l : MemoryLedger) → IsSound l → IsSound (clear_ledger l)
unfolding clear_ledger IsSound find entries_of IsUnique
clear-IsSound l w = record {
  placed = record {
    virtual_slots = no_balances BalanceType.virtual;
    slots = no_balances BalanceType.withdrawable;
    unique = tt;
    virtual_length = refl;
    sizes = omega arith;
    room = omega arith;
    entries = length-clear_entries (length l.last_balances) l.balances ∙ w.placed.entries;
    unmoved = refl;
  };
  counted = record {
    counted = λ c a e. ground arith;
    unknown = λ c e. refl;
    word = w.counted.word;
  };
  limited = record {
    asset_below = λ i a e. ground arith;
    account_below = λ i a e. ground arith;
    assets_unique = tt;
    accounts_unique = tt;
    asset_limit = w.limited.asset_limit;
    account_limit = w.limited.account_limit;
    asset_word = w.limited.asset_word;
    account_word = w.limited.account_word;
  };
}

run-IsSound : (call : Call) (l : MemoryLedger) → IsSound l → HasPlaces 2 l → IsSound (run call l)
unfolding run
run-IsSound Call.clear l w places = clear-IsSound l w
run-IsSound (Call.retrieve_asset args operation) l w places = retrieve_asset-IsSound operation _ w
run-IsSound (Call.remove_asset i) l w places = remove_asset-IsSound i l w
run-IsSound (Call.retrieve_account args operation) l w places =
    retrieve_account-IsSound operation _ w
run-IsSound (Call.remove_account i) l w places = remove_account-IsSound i l w
run-IsSound (Call.deposit i c amount) l w places =
    deposit-IsSound i c amount l w (fewer-HasPlaces l places)
run-IsSound (Call.withdraw i c amount) l w places =
    withdraw-IsSound i c amount l w (fewer-HasPlaces l places)
run-IsSound (Call.transfer i c d amount) l w places = transfer-IsSound i c d amount l w places

pub run_all-IsSound' :
    (calls : List Call) (l : MemoryLedger) → IsSound l → Room calls l → IsSound (run_all calls l)
unfolding run_all
run_all-IsSound' [] l w room = w
run_all-IsSound' (call ∷ calls) l w (places, room) =
    run_all-IsSound' calls (run call l) (run-IsSound call l w places) room

new_ledger-IsSound :
    (region : Region) (n_accounts n_assets n_balances : ℕ)
    → n_accounts < 2 ^ 64
    → n_assets < 2 ^ 64
    → n_balances < 2 ^ 64
    → length region.entries ≡ n_balances
    → IsSound (new_ledger region n_accounts n_assets n_balances)
unfolding IsSound find entries_of IsUnique
new_ledger-IsSound region n_accounts n_assets n_balances a b c d = record {
  placed = record {
    virtual_slots = no_balances BalanceType.virtual;
    slots = no_balances BalanceType.withdrawable;
    unique = tt;
    virtual_length = refl;
    sizes = omega arith;
    room = omega arith;
    entries = d;
    unmoved = refl;
  };
  counted = record { counted = λ c' x e. ground arith; unknown = λ c' e. refl; word = c };
  limited = record {
    asset_below = λ i x e. ground arith;
    account_below = λ i x e. ground arith;
    assets_unique = tt;
    accounts_unique = tt;
    asset_limit = omega arith;
    account_limit = omega arith;
    asset_word = b;
    account_word = a;
  };
}

constructed-IsSound :
    (s : Sizes) (region : Region) (n_accounts n_assets n_balances : ℕ) (l : MemoryLedger)
    → n_accounts < 2 ^ 64
    → n_assets < 2 ^ 64
    → n_balances < 2 ^ 64
    → length region.entries ≡ n_balances
    → cma_ledger_memory s region n_accounts n_assets n_balances ≡ ok l
    → IsSound l
unfolding cma_ledger_memory
constructed-IsSound s region n_accounts n_assets n_balances l accounts assets balances entries e =
    let same : new_ledger region n_accounts n_assets n_balances ≡ l = ground arith in
    subst (λ m. IsSound m) same
      (new_ledger-IsSound region n_accounts n_assets n_balances accounts assets balances entries)

-- A memory ledger whose construction returned, with limits below 2 ^ 64 and as many entries in its
-- memory as the limit of balances, is sound after any calls in any order with any arguments,
-- whether they return or throw, if before each call the vector of virtual balances has two places
-- left, or as many places as the limit of balances: the places in the two arrays and in the map of
-- balances agree, no pointer into the vector dangles, the balances fit the memory, each account
-- counts its balances, and every id in use lies below the next one, which is at most the limit.
pub run_all-IsSound :
    (s : Sizes) (region : Region) (n_accounts n_assets n_balances : ℕ) (l : MemoryLedger)
    (calls : List Call)
    → n_accounts < 2 ^ 64
    → n_assets < 2 ^ 64
    → n_balances < 2 ^ 64
    → length region.entries ≡ n_balances
    → cma_ledger_memory s region n_accounts n_assets n_balances ≡ ok l
    → Room calls l
    → IsSound (run_all calls l)
run_all-IsSound s region n_accounts n_assets n_balances l calls a b c d e room =
    run_all-IsSound' calls l
      (constructed-IsSound s region n_accounts n_assets n_balances l a b c d e) room
