-- ===== src/Ledger/Memory/Fields.antt =====
-- What the writes of `set_account_asset_balance` leave of the other members.
use machine_asset_tools.Prelude.{
  ℕ, ◌+◌, ◌-◌, ◌%◌, ◌^◌, ◌≡◌, refl, nat_key, pair_key, ◌∷◌, ◌≤◌, suc, length, arith, true,
  length-push_back, length-pop_back,
}
use machine_asset_tools.Amount.{Amount}
use machine_asset_tools.Map.{Map, assign, erase}
use machine_asset_tools.Ledger.Types.{Asset}
use machine_asset_tools.Ledger.Memory.{MemoryLedger, BalanceType, AccountStruct, amount_at}
use machine_asset_tools.Ledger.Memory.Update.{
  append_balance, has_place, virtual_set, end_place, write_n_balances, write_amount, keys_of,
  write_keys, move_last, clear_single, drop_last, erase_balance,
}
use machine_asset_tools.Ledger.Memory.Slots.{BalanceMap, at}
use machine_asset_tools.Ledger.Memory.Placed.{created}
use machine_asset_tools.Ledger.Memory.Written.{length-virtual_set}
use machine_asset_tools.Ledger.Memory.Removed.{removed, removed_single}

-- The accounts after a write of one, the balances' map, and everything else that a write of a
-- balance has no part in.
pub record Wrote (accounts : Map ℕ AccountStruct) (m : BalanceMap) (l l' : MemoryLedger)
    : Type 0 where
  pub laccid_to_account : l'.laccid_to_account ≡ accounts
  pub account_asset_balance : l'.account_asset_balance ≡ m
  pub lassid_to_asset : l'.lassid_to_asset ≡ l.lassid_to_asset
  pub asset_to_lassid : l'.asset_to_lassid ≡ l.asset_to_lassid
  pub account_to_laccid : l'.account_to_laccid ≡ l.account_to_laccid
  pub max_balances : l'.max_balances ≡ l.max_balances
  pub max_assets : l'.max_assets ≡ l.max_assets
  pub max_accounts : l'.max_accounts ≡ l.max_accounts
  pub next_asset_id : l'.next_asset_id ≡ l.next_asset_id
  pub next_account_id : l'.next_account_id ≡ l.next_account_id
  pub mem_offset : l'.mem_offset ≡ l.mem_offset
  pub base_asset_id : l'.base_asset_id ≡ l.base_asset_id
  pub base_asset_id_defined : l'.base_asset_id_defined ≡ l.base_asset_id_defined
  pub virtual_capacity : l'.virtual_capacity ≡ l.virtual_capacity
  pub places : length l'.virtual_balances ≤ suc (length l.virtual_balances)

abbrev pub renumbered : ℕ → AccountStruct → ℕ → MemoryLedger → Map ℕ AccountStruct
renumbered c a n l = assign c (record a { n_balances = n }) l.laccid_to_account

abbrev all_same :
    {accounts : Map ℕ AccountStruct} {m : BalanceMap} {l l' : MemoryLedger}
    → l'.laccid_to_account ≡ accounts
    → l'.account_asset_balance ≡ m
    → l'.lassid_to_asset ≡ l.lassid_to_asset
    → l'.asset_to_lassid ≡ l.asset_to_lassid
    → l'.account_to_laccid ≡ l.account_to_laccid
    → l'.max_balances ≡ l.max_balances
    → l'.max_assets ≡ l.max_assets
    → l'.max_accounts ≡ l.max_accounts
    → l'.next_asset_id ≡ l.next_asset_id
    → l'.next_account_id ≡ l.next_account_id
    → l'.mem_offset ≡ l.mem_offset
    → l'.base_asset_id ≡ l.base_asset_id
    → l'.base_asset_id_defined ≡ l.base_asset_id_defined
    → l'.virtual_capacity ≡ l.virtual_capacity
    → length l'.virtual_balances ≤ suc (length l.virtual_balances)
    → Wrote accounts m l l'
all_same a b c d e f g h i j k m n o q = record {
  laccid_to_account = a;
  account_asset_balance = b;
  lassid_to_asset = c;
  asset_to_lassid = d;
  account_to_laccid = e;
  max_balances = f;
  max_assets = g;
  max_accounts = h;
  next_asset_id = i;
  next_account_id = j;
  mem_offset = k;
  base_asset_id = m;
  base_asset_id_defined = n;
  virtual_capacity = o;
  places = q;
}

pub created-Wrote :
    (t : BalanceType) (k : ℕ × ℕ) (x : Asset) (a : AccountStruct) (b : Amount) (l : MemoryLedger)
    → has_place l ≡ true
    → Wrote
        (renumbered k.1 a ((a.n_balances + 1) % 2 ^ 64) l)
        ((k, at t (end_place t l)) ∷ l.account_asset_balance)
        l
        (created t k x a b l)
unfolding append_balance end_place write_n_balances
created-Wrote BalanceType.virtual k x a b l place =
    all_same refl refl refl refl refl refl refl refl refl refl refl refl refl
      (ground (arith, place)) (ground (arith, length-push_back l.virtual_balances b))
created-Wrote BalanceType.withdrawable k x a b l place =
    all_same refl refl refl refl refl refl refl refl refl refl refl refl refl refl (omega arith)

pub written-Wrote :
    (t : BalanceType) (p : ℕ) (b : Amount) (l : MemoryLedger)
    → Wrote l.laccid_to_account l.account_asset_balance l (write_amount t p b l)
unfolding write_amount
written-Wrote BalanceType.virtual p b l =
    all_same refl refl refl refl refl refl refl refl refl refl refl refl refl refl
      (ground (arith, length-virtual_set p b l))
written-Wrote BalanceType.withdrawable p b l =
    all_same refl refl refl refl refl refl refl refl refl refl refl refl refl refl (omega arith)

pub removed-Wrote :
    (t : BalanceType) (k : ℕ × ℕ) (a : AccountStruct) (p : ℕ) (last : ℕ × ℕ) (l : MemoryLedger)
    → Wrote
        (renumbered k.1 a ((a.n_balances + (2 ^ 64 - 1)) % 2 ^ 64) l)
        (erase k (assign last (at t p) l.account_asset_balance))
        l
        (removed t k a p last l)
unfolding keys_of write_keys move_last drop_last erase_balance write_n_balances
removed-Wrote BalanceType.virtual k a p last l =
    all_same refl refl refl refl refl refl refl refl refl refl refl refl refl refl (
      ground (
        arith,
        length-virtual_set p (amount_at BalanceType.virtual (length l.last_virtual_balances - 1) l)
            l,
        length-pop_back (
            virtual_set p (amount_at BalanceType.virtual (length l.last_virtual_balances - 1) l) l),
      ))
removed-Wrote BalanceType.withdrawable k a p last l =
    all_same refl refl refl refl refl refl refl refl refl refl refl refl refl refl (omega arith)

pub removed_single-Wrote :
    (t : BalanceType) (k : ℕ × ℕ) (a : AccountStruct) (p : ℕ) (l : MemoryLedger)
    → Wrote
        (renumbered k.1 a ((a.n_balances + (2 ^ 64 - 1)) % 2 ^ 64) l)
        (erase k l.account_asset_balance)
        l
        (removed_single t k a p l)
unfolding clear_single drop_last erase_balance write_n_balances
removed_single-Wrote BalanceType.virtual k a p l =
    all_same refl refl refl refl refl refl refl refl refl refl refl refl refl refl
      (ground (arith, length-pop_back l.virtual_balances))
removed_single-Wrote BalanceType.withdrawable k a p l =
    all_same refl refl refl refl refl refl refl refl refl refl refl refl refl refl (omega arith)
