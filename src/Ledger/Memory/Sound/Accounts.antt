-- ===== src/Ledger/Memory/Sound/Accounts.antt =====
-- `retrieve_account` and `remove_account` of `cma_ledger_memory` keep the invariant, whether they
-- return or throw; an account that is removed holds nothing.
use machine_asset_tools.Prelude.{
  ℕ, ◌+◌, ◌%◌, ◌^◌, ◌<◌, ◌≡◌, false, none, some, ◌∷◌, arith, nat_key, bytes_key, pair_key, inl, inr,
  Bool-cases, Option-cases, leb, ltb, replicate,
}
use machine_asset_tools.Map.{Map, find, erase}
use machine_asset_tools.Map.Laws.{
  IsUnique, erase-IsUnique, find-erase, find-cons, insert_new, insert_old,
}
use machine_asset_tools.Ledger.Types.{Account, AccountType, Bytes, Operation}
use machine_asset_tools.Ledger.Memory.{MemoryLedger, AccountStruct}
use machine_asset_tools.Ledger.Memory.Counted.{entries_of}
use machine_asset_tools.Ledger.Memory.Sound.{Keeps, IsSound, accounts-IsSound}
use machine_asset_tools.Ledger.Memory.Accounts

erase_account_key-IsSound : (key : Bytes) → Keeps IsSound (Accounts.erase_account_key key)
unfolding Accounts.erase_account_key IsSound
erase_account_key-IsSound key l w = elim (Option-cases (find key l.account_to_laccid)) [
  | inl missing ↦ rw (missing, Accounts.erase_account_key) w
  | inr (a, known) ↦
      rw (known, Accounts.erase_account_key)
        (accounts-IsSound l.laccid_to_account _ l.next_account_id l w w.limited.account_below
          w.counted.counted w.counted.unknown w.limited.accounts_unique w.limited.account_limit)
]

-- An account with no balances.
abbrev pub IsEmptyAccount : ℕ → MemoryLedger → Type 0
IsEmptyAccount i l = entries_of i l.account_asset_balance ≡ 0

erase_account-IsSound :
    (i : ℕ) (l : MemoryLedger)
    → IsSound l
    → IsEmptyAccount i l
    → IsSound (Accounts.erase_account i l).1
unfolding Accounts.erase_account IsSound
erase_account-IsSound i l w empty = elim (Option-cases (find i l.laccid_to_account)) [
  | inl missing ↦ rw (missing, Accounts.erase_account) w
  | inr (a, known) ↦
      let seen = λ (j : ℕ). find-erase i j l.laccid_to_account w.limited.accounts_unique in
      rw (known, Accounts.erase_account)
        (accounts-IsSound (erase i l.laccid_to_account) l.account_to_laccid l.next_account_id l w
          (λ j x e. ground (arith, seen j, w.limited.account_below j x))
          (λ j x e. ground (arith, seen j, w.counted.counted j x))
          (λ j e. ground (arith, seen j, w.counted.unknown j))
          (erase-IsUnique i l.laccid_to_account w.limited.accounts_unique) w.limited.account_limit)
]

known-IsEmptyAccount :
    (i : ℕ) (a : AccountStruct) (l : MemoryLedger)
    → IsSound l
    → find i l.laccid_to_account ≡ some a
    → ltb 0 a.n_balances ≡ false
    → IsEmptyAccount i l
unfolding IsSound
known-IsEmptyAccount i a l w known none_left = ground (arith, w.counted.counted i a known)

erase_account_key-entries :
    (key : Bytes) (l : MemoryLedger)
    → (Accounts.erase_account_key key l).1.account_asset_balance ≡ l.account_asset_balance
unfolding Accounts.erase_account_key
erase_account_key-entries key l = ground arith

pub remove_account-IsSound : (i : ℕ) → Keeps IsSound (Accounts.remove_account i)
unfolding Accounts.remove_account Accounts.unregister_account
remove_account-IsSound i l w = elim (Option-cases (find i l.laccid_to_account)) [
  | inl missing ↦ ground arith
  | inr (a, known) ↦ elim (Bool-cases (ltb 0 a.n_balances)) [
    | inl holds ↦ ground arith
    | inr holds_none ↦
        let empty = known-IsEmptyAccount i a l w known holds_none in
        grind (arith, erase_account-IsSound, erase_account_key-IsSound, erase_account_key-entries)
  ]
]

-- The ledger with a new account under the next id.
abbrev pub with_account : Account → Map Bytes ℕ → MemoryLedger → MemoryLedger
with_account a keys l = record l {
  laccid_to_account =
      (l.next_account_id, record { account = a; n_balances = 0 }) ∷ l.laccid_to_account;
  account_to_laccid = keys;
  next_account_id = (l.next_account_id + 1) % 2 ^ 64;
}

next_account-free :
    (l : MemoryLedger) → IsSound l → find l.next_account_id l.laccid_to_account ≡ none
unfolding IsSound
next_account-free l w = elim (Option-cases (find l.next_account_id l.laccid_to_account)) [
  | inl free ↦ free
  | inr (a, known) ↦ absurd (omega (arith, w.limited.account_below l.next_account_id a known))
]

with_account-IsSound :
    (a : Account) (keys : Map Bytes ℕ) (l : MemoryLedger)
    → IsSound l
    → l.next_account_id < l.max_accounts
    → IsSound (with_account a keys l)
unfolding IsSound IsUnique
with_account-IsSound a keys l w room =
    let n : (l.next_account_id + 1) % 2 ^ 64 ≡ l.next_account_id + 1 =
      omega (arith, w.limited.account_word) in
    let x : AccountStruct = record { account = a; n_balances = 0 } in
    let free = next_account-free l w in
    let seen = λ (j : ℕ). find-cons l.next_account_id j x l.laccid_to_account in
    accounts-IsSound ((l.next_account_id, x) ∷ l.laccid_to_account) keys
      ((l.next_account_id + 1) % 2 ^ 64) l w
      (λ i y e. ground (arith, n, seen i, w.limited.account_below i y))
      (λ i y e. ground (arith, seen i, w.counted.counted i y, w.counted.unknown i))
      (λ i e. ground (arith, seen i, w.counted.unknown i)) (free, w.limited.accounts_unique)
      (omega (arith, n, room))

create_account_by_id-IsSound : Keeps IsSound Accounts.create_by_id
unfolding Accounts.create_by_id Accounts.check_max_accounts Accounts.insert_account
create_account_by_id-IsSound l w = elim (Bool-cases (leb l.max_accounts l.next_account_id)) [
  | inl full ↦ ground arith
  | inr room ↦
      let a : Account = record { type = AccountType.id; account_id = replicate 32 0 } in
      let sound = with_account-IsSound a l.account_to_laccid l w (ground arith) in
      ground (
        arith,
        insert_new l.next_account_id (record { account = a; n_balances = 0 }) l.laccid_to_account
            (next_account-free l w),
      )
]

create_account_by_key-IsSound : (a : Account) → Keeps IsSound (Accounts.create_by_key a)
unfolding Accounts.create_by_key Accounts.check_max_accounts Accounts.insert_account
    Accounts.insert_account_key
create_account_by_key-IsSound a l w = elim (Bool-cases (leb l.max_accounts l.next_account_id)) [
  | inl full ↦ ground arith
  | inr room ↦
      let sound =
        with_account-IsSound a ((a.account_id, l.next_account_id) ∷ l.account_to_laccid) l w
          (ground arith) in
      elim (Option-cases (find a.account_id l.account_to_laccid)) [
        | inl new ↦ ground (
          arith,
          insert_new l.next_account_id (record { account = a; n_balances = 0 }) l.laccid_to_account
              (next_account-free l w),
          insert_new a.account_id l.next_account_id l.account_to_laccid new,
        )
        | inr (i, old) ↦
            ground (arith, insert_old a.account_id l.next_account_id i l.account_to_laccid old)
      ]
]

find_by_id-ledger :
    (i : ℕ) (c : Accounts.AccountCall) → (Accounts.find_by_id i c).1.ledger ≡ c.ledger
unfolding Accounts.find_by_id
find_by_id-ledger i c = ground arith

find_by_id-IsSound :
    (i : ℕ) (c : Accounts.AccountCall)
    → IsSound c.ledger
    → IsSound (Accounts.find_by_id i c).1.ledger
find_by_id-IsSound i c w = rw (find_by_id-ledger i c) w

retrieve_account_by_id-IsSound :
    (op : Operation) (c : Accounts.AccountCall)
    → IsSound c.ledger
    → IsSound (Accounts.retrieve_by_id op c).1.ledger
unfolding Accounts.retrieve_by_id
retrieve_account_by_id-IsSound op c w =
    grind (arith, remove_account-IsSound, find_by_id-IsSound, create_account_by_id-IsSound)

search_account_by_key-IsSound :
    (key : Bytes) (op : Operation) (c : Accounts.AccountCall)
    → IsSound c.ledger
    → IsSound (Accounts.search_by_key key op c).1.ledger
unfolding Accounts.search_by_key
search_account_by_key-IsSound key op c w = grind (arith, remove_account-IsSound)

retrieve_account_by_bytes-IsSound :
    (t : AccountType) (op : Operation) (c : Accounts.AccountCall)
    → IsSound c.ledger
    → IsSound (Accounts.retrieve_by_bytes t op c).1.ledger
unfolding Accounts.retrieve_by_bytes
retrieve_account_by_bytes-IsSound t op c w =
    grind (arith, search_account_by_key-IsSound, create_account_by_key-IsSound)

pub retrieve_account-IsSound :
    (op : Operation) (c : Accounts.AccountCall)
    → IsSound c.ledger
    → IsSound (Accounts.retrieve_account op c).1.ledger
unfolding Accounts.retrieve_account Accounts.retrieve_by_type
retrieve_account-IsSound op c w =
    grind (arith, retrieve_account_by_id-IsSound, retrieve_account_by_bytes-IsSound)
