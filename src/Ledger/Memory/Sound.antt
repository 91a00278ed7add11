-- ===== src/Ledger/Memory/Sound.antt =====
-- The invariant of a `cma_ledger_memory` over its whole state, and the calls that keep it whether
-- they return or throw.
pub mod Assets
pub mod Accounts
pub mod Transact
pub mod Reserve
pub mod Registered
pub mod ReservedRun
pub mod Reach
pub mod Gone
pub mod Info
pub mod HalfWay
use machine_asset_tools.Prelude.{
  ℕ, ◌+◌, ◌%◌, ◌^◌, ◌≤◌, ◌<◌, ◌≡◌, ◌≢◌, refl, Bool, true, false, not, none, some, Option, [], ◌∷◌,
  ◌==◌, if◌then◌else◌, arith, nat_key, bytes_key, pair_key, inl, inr, Bool-cases, Option-cases, ap,
  sym, ◌∙◌, Result, Result-cases, ok, err, Throws, pure, throw, gets, reads, modify, throw_if,
  or_throw, exact_or_throw, ◌>>=◌, ◌>>◌, String, ℤ, leb, length,
}
use machine_asset_tools.Amount.{Amount}
use machine_asset_tools.Map.{Map, find, insert, assign, erase, size}
use machine_asset_tools.Map.Laws.{
  IsUnique, assign-IsUnique, erase-IsUnique, find-assign, find-erase, find-cons, insert_new,
}
use machine_asset_tools.Ledger.Types.{Asset, Account, Bytes}
use machine_asset_tools.Ledger.Memory.{
  MemoryLedger, AccountStruct, clear, clear_entries, set_asset_supply,
}
use machine_asset_tools.Ledger.Memory.Slots.{IsSlots}
use machine_asset_tools.Ledger.Memory.Placed.{IsPlaced}
use machine_asset_tools.Ledger.Memory.Counted.{IsCounted, entries_of}

-- A call that leaves `P` true, whether it returns or throws.
abbrev pub Keeps : {S A : Type 0} → (S → Type 0) → Throws S A → Type 0
Keeps {S} P m = (s : S) → P s → P (m s).1

-- Every id that is in use is one that was given out, and no more ids are given out than the limits
-- allow.
pub record IsLimited (l : MemoryLedger) : Type 0 where
  pub asset_below : (i : ℕ) (a : Asset) → find i l.lassid_to_asset ≡ some a → i < l.next_asset_id
  pub account_below :
      (i : ℕ) (a : AccountStruct) → find i l.laccid_to_account ≡ some a → i < l.next_account_id
  pub assets_unique : IsUnique l.lassid_to_asset
  pub accounts_unique : IsUnique l.laccid_to_account
  pub asset_limit : l.next_asset_id ≤ l.max_assets
  pub account_limit : l.next_account_id ≤ l.max_accounts
  pub asset_word : l.max_assets < 2 ^ 64
  pub account_word : l.max_accounts < 2 ^ 64

pub record SoundParts (l : MemoryLedger) : Type 0 where
  pub placed : IsPlaced l
  pub counted : IsCounted l
  pub limited : IsLimited l

-- The three together.
unfoldable pub IsSound : MemoryLedger → Type 0
IsSound l = SoundParts l

-- What the invariant reads: a ledger that differs elsewhere keeps it.
pub same-IsPlaced :
    (l l' : MemoryLedger)
    → l'.balances ≡ l.balances
    → l'.virtual_balances ≡ l.virtual_balances
    → l'.account_asset_balance ≡ l.account_asset_balance
    → l'.last_balances ≡ l.last_balances
    → l'.last_virtual_balances ≡ l.last_virtual_balances
    → l'.max_balances ≡ l.max_balances
    → l'.virtual_moved ≡ l.virtual_moved
    → IsPlaced l
    → IsPlaced l'
same-IsPlaced l l' a b c d e f g w = record {
  virtual_slots = rw (c, e) w.virtual_slots;
  slots = rw (c, d) w.slots;
  unique = rw c w.unique;
  virtual_length = rw (b, e) w.virtual_length;
  sizes = rw (c, d, e) w.sizes;
  room = rw (c, f) w.room;
  entries = rw (a, f) w.entries;
  unmoved = g ∙ w.unmoved;
}

pub same-IsCounted :
    (l l' : MemoryLedger)
    → l'.account_asset_balance ≡ l.account_asset_balance
    → l'.laccid_to_account ≡ l.laccid_to_account
    → l'.max_balances ≡ l.max_balances
    → IsCounted l
    → IsCounted l'
same-IsCounted l l' a b c w = record {
  counted = λ d x e. rw a (w.counted d x (ap (find d) (sym b) ∙ e));
  unknown = λ d e. rw a (w.unknown d (ap (find d) (sym b) ∙ e));
  word = rw c w.word;
}

-- The assets change and nothing else that the invariant reads does.
pub assets-IsSound :
    (m : Map ℕ Asset) (keys : Map Bytes ℕ) (base : ℕ) (defined : Bool) (next : ℕ) (l : MemoryLedger)
    → IsSound l
    → ((i : ℕ) (a : Asset) → find i m ≡ some a → i < next)
    → IsUnique m
    → next ≤ l.max_assets
    → IsSound (record l {
      lassid_to_asset = m;
      asset_to_lassid = keys;
      base_asset_id = base;
      base_asset_id_defined = defined;
      next_asset_id = next;
    })
unfolding IsSound
assets-IsSound m keys base defined next l w below unique limit = record {
  placed = same-IsPlaced l _ refl refl refl refl refl refl refl w.placed;
  counted = same-IsCounted l _ refl refl refl w.counted;
  limited = record {
    asset_below = below;
    account_below = w.limited.account_below;
    assets_unique = unique;
    accounts_unique = w.limited.accounts_unique;
    asset_limit = limit;
    account_limit = w.limited.account_limit;
    asset_word = w.limited.asset_word;
    account_word = w.limited.account_word;
  };
}

-- The accounts change, with their numbers of balances as the map has them.
pub accounts-IsSound :
    (m : Map ℕ AccountStruct) (keys : Map Bytes ℕ) (next : ℕ) (l : MemoryLedger)
    → IsSound l
    → ((i : ℕ) (a : AccountStruct) → find i m ≡ some a → i < next)
    → ((i : ℕ) (a : AccountStruct)
        → find i m ≡ some a
        → a.n_balances ≡ entries_of i l.account_asset_balance)
    → ((i : ℕ) → find i m ≡ none → entries_of i l.account_asset_balance ≡ 0)
    → IsUnique m
    → next ≤ l.max_accounts
    → IsSound (record l { laccid_to_account = m; account_to_laccid = keys; next_account_id = next })
unfolding IsSound
accounts-IsSound m keys next l w below counted unknown unique limit = record {
  placed = same-IsPlaced l _ refl refl refl refl refl refl refl w.placed;
  counted = record { counted = counted; unknown = unknown; word = w.counted.word };
  limited = record {
    asset_below = w.limited.asset_below;
    account_below = below;
    assets_unique = w.limited.assets_unique;
    accounts_unique = unique;
    asset_limit = w.limited.asset_limit;
    account_limit = limit;
    asset_word = w.limited.asset_word;
    account_word = w.limited.account_word;
  };
}
