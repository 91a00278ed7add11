-- ===== src/Ledger/Memory/Sound/Gone.antt =====
-- What `remove_account` and `remove_asset` of `cma_ledger_memory` take away, and what they never
-- take away.
use machine_asset_tools.Prelude.{
  ℕ, ◌≡◌, ◌≢◌, false, none, some, arith, nat_key, bytes_key, pair_key, inl, inr, Option-cases, ok,
  ltb, sym, refl,
}
use mathlib.Core.Path.{subst}
use machine_asset_tools.Map.{Map, find, erase}
use machine_asset_tools.Map.Laws.{find-erase}
use machine_asset_tools.Ledger.Types.{Bytes, Account, AccountType}
use machine_asset_tools.Ledger.Memory.{MemoryLedger, AccountStruct}
use machine_asset_tools.Ledger.Memory.Accounts
use machine_asset_tools.Ledger.Memory.Counted.{entry-account}
use machine_asset_tools.Ledger.Memory.Sound.{IsSound}

-- The bytes that lead to an account; one that is found by its id alone has none.
abbrev pub erased_key : AccountType → Bytes → Map Bytes ℕ → Map Bytes ℕ
erased_key AccountType.id key keys = keys
erased_key t key keys = erase key keys

-- The account had no entry in the map of balances and is gone with the key of its bytes; the ledger
-- is the old one but for the account's entries in the two maps of accounts.
pub record AccountGone (i : ℕ) (l l' : MemoryLedger) : Type 0 where
  pub held_none : (j : ℕ) → find (j, i) l.account_asset_balance ≡ none
  pub gone : find i l'.laccid_to_account ≡ none
  pub others : (c : ℕ) → i ≢ c → find c l'.laccid_to_account ≡ find c l.laccid_to_account
  pub unregistered :
      (a : AccountStruct) × (find i l.laccid_to_account ≡ some a)
      × (l'.account_to_laccid ≡ erased_key a.account.type a.account.account_id l.account_to_laccid)
  pub rest : l' ≡ record l {
    laccid_to_account = l'.laccid_to_account;
    account_to_laccid = l'.account_to_laccid;
  }

erase_account_key-erased :
    (key : Bytes) (l : MemoryLedger)
    → (Accounts.erase_account_key key l).0 ≡ ok tt
    → (Accounts.erase_account_key key l).1
      ≡ record l { account_to_laccid = erase key l.account_to_laccid }
unfolding Accounts.erase_account_key
erase_account_key-erased key l returns = ground arith

unregister_account-erased :
    (t : AccountType) (a : Account) (l : MemoryLedger)
    → (Accounts.unregister_account t a l).0 ≡ ok tt
    → (Accounts.unregister_account t a l).1
      ≡ record l { account_to_laccid = erased_key t a.account_id l.account_to_laccid }
unfolding Accounts.unregister_account
unregister_account-erased AccountType.id a l returns = refl
unregister_account-erased AccountType.wallet_address a l returns =
    erase_account_key-erased a.account_id l returns
unregister_account-erased AccountType.account_id a l returns =
    erase_account_key-erased a.account_id l returns

no_entry :
    (i : ℕ) (a : AccountStruct) (l : MemoryLedger)
    → IsSound l
    → find i l.laccid_to_account ≡ some a
    → ltb 0 a.n_balances ≡ false
    → (j : ℕ) → find (j, i) l.account_asset_balance ≡ none
unfolding IsSound
no_entry i a l w known holds_none j = elim (Option-cases (find (j, i) l.account_asset_balance)) [
  | inl missing ↦ missing
  | inr (b, here) ↦
      let (x, known', positive) = entry-account j i b l w.counted here in absurd (ground arith)
]

-- The ledger that the removal leaves.
abbrev without : ℕ → AccountStruct → MemoryLedger → MemoryLedger
without i a l = record l {
  laccid_to_account = erase i l.laccid_to_account;
  account_to_laccid = erased_key a.account.type a.account.account_id l.account_to_laccid;
}

-- What the removal has found and left.
removal :
    (i : ℕ) (l : MemoryLedger)
    → (Accounts.remove_account i l).0 ≡ ok tt
    → (a : AccountStruct) × (find i l.laccid_to_account ≡ some a)
      × (ltb 0 a.n_balances ≡ false)
      × ((Accounts.remove_account i l).1 ≡ without i a l)
unfolding Accounts.remove_account Accounts.erase_account
removal i l returns = elim (Option-cases (find i l.laccid_to_account)) [
  | inl missing ↦ absurd (ground arith)
  | inr (a, known) ↦
      (a, known, ground arith, ground (arith, unregister_account-erased a.account.type a.account l))
]

-- On a sound memory ledger, `remove_account` returns only for an account with no entry in the map
-- of balances; the account and, unless it is found by its id alone, the key of its bytes are then
-- erased from the two maps of accounts, and the rest of the ledger, every balance included, is
-- what it was.
pub remove_account-AccountGone :
    (i : ℕ) (l : MemoryLedger)
    → IsSound l
    → (Accounts.remove_account i l).0 ≡ ok tt
    → AccountGone i l (Accounts.remove_account i l).1
unfolding IsSound
remove_account-AccountGone i l w returns =
    let (a, known, holds_none, left) = removal i l returns in
    let seen = λ (c : ℕ). find-erase i c l.laccid_to_account w.limited.accounts_unique in
    subst (λ l'. AccountGone i l l') (sym left)
      (record {
        held_none = no_entry i a l w known holds_none;
        gone = ground (arith, seen i);
        others = λ c ne. ground (arith, seen c);
        unregistered = (a, known, refl);
        rest = refl;
      })
