-- ===== src/Ledger/Memory/Counted.antt =====
-- `n_balances` of `cma_ledger_memory`: each account's number of entries in the map of balances.
use machine_asset_tools.Prelude.{
  ℕ, ◌+◌, ◌^◌, ◌≤◌, ◌<◌, ◌≡◌, ◌≢◌, refl, none, some, [], ◌∷◌, ◌==◌, if◌then◌else◌, arith, nat_key,
  pair_key, pair_eq_iff, inl, inr, Option-cases, ap,
}
use mathlib.Core.Option
use machine_asset_tools.Map.{find, assign, erase, size}
use machine_asset_tools.Map.Laws.{find-assign}
use machine_asset_tools.Ledger.Memory.{MemoryLedger, Balance, AccountStruct}
use machine_asset_tools.Ledger.Memory.Slots.{BalanceMap}

-- The number of entries whose key has the account.
unfoldable pub entries_of : ℕ → BalanceMap → ℕ
entries_of c [] = 0
entries_of c ((k, b) ∷ m) = (if k.1 == c then 1 else 0) + entries_of c m

pub entries_of-cons :
    (c : ℕ) (k : ℕ × ℕ) (b : Balance) (m : BalanceMap)
    → entries_of c ((k, b) ∷ m) ≡ (if k.1 == c then 1 else 0) + entries_of c m
unfolding entries_of
entries_of-cons c k b m = refl

pub entries_of-assign :
    (c : ℕ) (k : ℕ × ℕ) (b : Balance) (m : BalanceMap)
    → entries_of c (assign k b m) ≡ entries_of c m
unfolding entries_of assign
entries_of-assign c k b [] = refl
entries_of-assign c k b ((k', b') ∷ m) = ground (arith, entries_of-assign c k b m)

pub entries_of-erase :
    (c : ℕ) (k : ℕ × ℕ) (b : Balance) (m : BalanceMap)
    → find k m ≡ some b
    → entries_of c (erase k m) + (if k.1 == c then 1 else 0) ≡ entries_of c m
unfolding entries_of erase find
entries_of-erase c k b [] e = ground arith
entries_of-erase c k b ((k', b') ∷ m) e = ground (arith, entries_of-erase c k b m, pair_eq_iff k' k)

pub entries_of-le-size : (c : ℕ) (m : BalanceMap) → entries_of c m ≤ size m
unfolding entries_of
entries_of-le-size c [] = omega arith
entries_of-le-size c ((k, b) ∷ m) = ground (arith, entries_of-le-size c m)

pub record IsCounted (l : MemoryLedger) : Type 0 where
  pub counted :
      (c : ℕ) (a : AccountStruct)
      → find c l.laccid_to_account ≡ some a
      → a.n_balances ≡ entries_of c l.account_asset_balance
  pub unknown :
      (c : ℕ) → find c l.laccid_to_account ≡ none → entries_of c l.account_asset_balance ≡ 0
  pub word : l.max_balances < 2 ^ 64

-- An entry's account is known.
pub entry-account :
    (i c : ℕ) (b : Balance) (l : MemoryLedger)
    → IsCounted l
    → find (i, c) l.account_asset_balance ≡ some b
    → (a : AccountStruct) × (find c l.laccid_to_account ≡ some a) × (0 < a.n_balances)
entry-account i c b l n here =
    let e = entries_of-erase c (i, c) b l.account_asset_balance here in
    elim (Option-cases (find c l.laccid_to_account)) [
      | inl missing ↦ absurd (ground (arith, n.unknown c missing))
      | inr (a, known) ↦ (a, known, ground (arith, n.counted c a known))
    ]

-- A write of the account's number that follows the map.
pub recounted :
    (c : ℕ) (a : AccountStruct) (n : ℕ) (l l' : MemoryLedger)
    → IsCounted l
    → find c l.laccid_to_account ≡ some a
    → l'.max_balances ≡ l.max_balances
    → l'.laccid_to_account ≡ assign c (record a { n_balances = n }) l.laccid_to_account
    → n ≡ entries_of c l'.account_asset_balance
    → ((d : ℕ)
        → c ≢ d
        → entries_of d l'.account_asset_balance ≡ entries_of d l.account_asset_balance)
    → IsCounted l'
recounted c a n l l' old known limit written count others =
    let seen =
      λ (d : ℕ). find-assign c d (record a { n_balances = n }) a l.laccid_to_account known in
    record {
      counted = λ d a' e. ground (arith, ap (find d) written, seen d, old.counted d a', others d);
      unknown = λ d e. ground (arith, ap (find d) written, seen d, old.unknown d, others d);
      word = rw limit old.word;
    }

-- Nor does it change an account.
pub recounted-account :
    (c d : ℕ) (a : AccountStruct) (n : ℕ) (l : MemoryLedger)
    → find c l.laccid_to_account ≡ some a
    → Option.map
        (λ x. x.account)
        (find d (assign c (record a { n_balances = n }) l.laccid_to_account))
      ≡ Option.map (λ x. x.account) (find d l.laccid_to_account)
recounted-account c d a n l known =
    ground (arith, find-assign c d (record a { n_balances = n }) a l.laccid_to_account known)
