-- ===== src/Ledger/Memory/Changed.antt =====
-- A `cma_ledger_memory` in which one balance has changed.
use machine_asset_tools.Prelude.{
  ℕ, ◌<◌, ◌≤◌, suc, length, pair_eq_iff, Option-cases, inl, inr, true, ◌≡◌, refl, ◌≢◌, none, some,
  Option, if◌then◌else◌, arith, nat_key, pair_key, pair_eq, ap, sym, ◌∙◌,
}
use mathlib.Core.Path.{subst}
use mathlib.Core.Option
use machine_asset_tools.Amount.{Amount}
use machine_asset_tools.Map.{find, size}
use machine_asset_tools.Map.Laws.{IsUnique, assign-IsUnique}
use machine_asset_tools.Ledger.Types.{Asset, Account}
use machine_asset_tools.Ledger.Memory.{MemoryLedger, BalanceType, AccountStruct, BalanceEntry}
use machine_asset_tools.Ledger.Memory.Update.{write_amount, end_place, has_place, new_balance_type}
use machine_asset_tools.Ledger.Memory.Slots.{BalanceMap, at}
use machine_asset_tools.Ledger.Memory.Placed.{
  HasPlaces, IsPlaced, stored, created, created-IsPlaced, held_entry, entry_at, entry_of,
  entries-stored, fresh, fresh-amount, created-entries,
}
use machine_asset_tools.Ledger.Memory.Written.{written-IsPlaced, written-stored, written-entries}
use machine_asset_tools.Ledger.Memory.Counted.{
  IsCounted, entries_of, entries_of-cons, entries_of-le-size, recounted, recounted-account,
}
use machine_asset_tools.Ledger.Memory.Fields.{Wrote, renumbered, created-Wrote, written-Wrote}

-- The account of an id, without its number of balances.
abbrev pub account_of : ℕ → MemoryLedger → Option Account
account_of d l = Option.map (λ a. a.account) (find d l.laccid_to_account)

-- The bytes of one balance, before and after: an entry that stays has its type, owner and token, and
-- a new one has those of the asset and the account in their places of what stood there.
abbrev pub Own : ℕ × ℕ → MemoryLedger → Option BalanceEntry → Option BalanceEntry → Type 0
Own k l none none = Unit
Own k l (some e) none = Unit
Own k l (some e) (some e') = e' ≡ record e { amount = e'.amount }
Own k l none (some e') =
    (x : Asset) × (a : AccountStruct) × (find k.0 l.lassid_to_asset ≡ some x)
    × (find k.1 l.laccid_to_account ≡ some a)
    × (e' ≡ fresh (new_balance_type x.type a.account.type) x a e'.amount l)

-- One balance is `o`, and its bytes are as `Own` says; the arrays and the numbers of balances are in
-- order; the bytes of every other balance, the assets, the accounts but for their numbers of
-- balances, the limits, the ids and the offset are what they were; and no more than one place of the
-- virtual balances is taken.
pub record IsChanged (k : ℕ × ℕ) (o : Option Amount) (l l' : MemoryLedger) : Type 0 where
  pub placed : IsPlaced l'
  pub counted : IsCounted l'
  pub balances : (k' : ℕ × ℕ) → stored k' l' ≡ (if pair_eq k k' then o else stored k' l)
  pub lassid_to_asset : l'.lassid_to_asset ≡ l.lassid_to_asset
  pub asset_to_lassid : l'.asset_to_lassid ≡ l.asset_to_lassid
  pub account_to_laccid : l'.account_to_laccid ≡ l.account_to_laccid
  pub max_balances : l'.max_balances ≡ l.max_balances
  pub max_assets : l'.max_assets ≡ l.max_assets
  pub max_accounts : l'.max_accounts ≡ l.max_accounts
  pub next_asset_id : l'.next_asset_id ≡ l.next_asset_id
  pub next_account_id : l'.next_account_id ≡ l.next_account_id
  pub accounts_unique : IsUnique l.laccid_to_account → IsUnique l'.laccid_to_account
  pub accounts : (d : ℕ) → account_of d l' ≡ account_of d l
  pub entries :
      (k' : ℕ × ℕ) → entry_of k' l' ≡ (if pair_eq k k' then entry_of k l' else entry_of k' l)
  pub own : Own k l (entry_of k l) (entry_of k l')
  pub mem_offset : l'.mem_offset ≡ l.mem_offset
  pub base_asset_id : l'.base_asset_id ≡ l.base_asset_id
  pub base_asset_id_defined : l'.base_asset_id_defined ≡ l.base_asset_id_defined
  pub virtual_capacity : l'.virtual_capacity ≡ l.virtual_capacity
  pub places : length l'.virtual_balances ≤ suc (length l.virtual_balances)

-- The bytes after a change, from those that it gives.
own_entry :
    (k : ℕ × ℕ) (o : Option BalanceEntry) (l l' : MemoryLedger)
    → ((k' : ℕ × ℕ) → entry_of k' l' ≡ (if pair_eq k k' then o else entry_of k' l))
    → entry_of k l' ≡ o
own_entry k o l l' h = ground (arith, h k, pair_eq_iff k k)

all_entries :
    (k : ℕ × ℕ) (o : Option BalanceEntry) (l l' : MemoryLedger)
    → ((k' : ℕ × ℕ) → entry_of k' l' ≡ (if pair_eq k k' then o else entry_of k' l))
    → (k' : ℕ × ℕ) → entry_of k' l' ≡ (if pair_eq k k' then entry_of k l' else entry_of k' l)
all_entries k o l l' h k' =
    h k' ∙ ap (λ v. if pair_eq k k' then v else entry_of k' l) (sym (own_entry k o l l' h))

-- No balance is stored where there are no bytes.
pub stored_none : (k : ℕ × ℕ) (l : MemoryLedger) → stored k l ≡ none → entry_of k l ≡ none
stored_none k l e = elim (Option-cases (find k l.account_asset_balance)) [
  | inl missing ↦ ground arith
  | inr (b, here) ↦ absurd (ground arith)
]

-- A balance that is gone owes nothing.
pub gone-Own :
    (k : ℕ × ℕ) (l : MemoryLedger) (o : Option BalanceEntry) (o' : Option BalanceEntry)
    → o' ≡ none
    → Own k l o o'
gone-Own k l none none e = tt
gone-Own k l (some x) none e = tt
gone-Own k l none (some y) e = absurd (ground arith)
gone-Own k l (some x) (some y) e = absurd (ground arith)

pub IsChanged-twice :
    (k : ℕ × ℕ) (o o' : Option Amount) (l l' l'' : MemoryLedger)
    → IsChanged k o l l'
    → IsChanged k o' l' l''
    → entry_of k l'' ≡ none
    → length l''.virtual_balances ≤ suc (length l.virtual_balances)
    → IsChanged k o' l l''
IsChanged-twice k o o' l l' l'' c c' gone places = record {
  placed = c'.placed;
  counted = c'.counted;
  balances = λ k'. ground (arith, c.balances k', c'.balances k');
  lassid_to_asset = c'.lassid_to_asset ∙ c.lassid_to_asset;
  asset_to_lassid = c'.asset_to_lassid ∙ c.asset_to_lassid;
  account_to_laccid = c'.account_to_laccid ∙ c.account_to_laccid;
  max_balances = c'.max_balances ∙ c.max_balances;
  max_assets = c'.max_assets ∙ c.max_assets;
  max_accounts = c'.max_accounts ∙ c.max_accounts;
  next_asset_id = c'.next_asset_id ∙ c.next_asset_id;
  next_account_id = c'.next_account_id ∙ c.next_account_id;
  accounts_unique = λ u. c'.accounts_unique (c.accounts_unique u);
  accounts = λ d. c'.accounts d ∙ c.accounts d;
  entries = λ k'. ground (arith, c.entries k', c'.entries k');
  own = gone-Own k l _ _ gone;
  mem_offset = c'.mem_offset ∙ c.mem_offset;
  base_asset_id = c'.base_asset_id ∙ c.base_asset_id;
  base_asset_id_defined = c'.base_asset_id_defined ∙ c.base_asset_id_defined;
  virtual_capacity = c'.virtual_capacity ∙ c.virtual_capacity;
  places = places;
}

pub Wrote-IsChanged :
    (k : ℕ × ℕ) (o : Option Amount) (a : AccountStruct) (n : ℕ) (m : BalanceMap)
    (l l' : MemoryLedger)
    → Wrote (renumbered k.1 a n l) m l l'
    → IsPlaced l'
    → IsCounted l
    → find k.1 l.laccid_to_account ≡ some a
    → n ≡ entries_of k.1 m
    → ((d : ℕ) → k.1 ≢ d → entries_of d m ≡ entries_of d l.account_asset_balance)
    → (e : Option BalanceEntry) → o ≡ Option.map (λ x. x.amount) e
    → ((k' : ℕ × ℕ) → entry_of k' l' ≡ (if pair_eq k k' then e else entry_of k' l))
    → Own k l (entry_of k l) e
    → IsChanged k o l l'
Wrote-IsChanged k o a n m l l' wrote placed counted known count others e amount entries own =
    record {
      placed = placed;
      counted =
          recounted k.1 a n l l' counted known wrote.max_balances wrote.laccid_to_account
            (count ∙ ap (entries_of k.1) (sym wrote.account_asset_balance))
            (λ d ne. ap (entries_of d) wrote.account_asset_balance ∙ others d ne);
      balances = λ k'.
          entries-stored k e l l' entries k'
          ∙ ap (λ v. if pair_eq k k' then v else stored k' l) (sym amount);
      entries = all_entries k e l l' entries;
      own = subst (λ v. Own k l (entry_of k l) v) (sym (own_entry k e l l' entries)) own;
      mem_offset = wrote.mem_offset;
      base_asset_id = wrote.base_asset_id;
      base_asset_id_defined = wrote.base_asset_id_defined;
      virtual_capacity = wrote.virtual_capacity;
      places = wrote.places;
      lassid_to_asset = wrote.lassid_to_asset;
      asset_to_lassid = wrote.asset_to_lassid;
      account_to_laccid = wrote.account_to_laccid;
      max_balances = wrote.max_balances;
      max_assets = wrote.max_assets;
      max_accounts = wrote.max_accounts;
      next_asset_id = wrote.next_asset_id;
      next_account_id = wrote.next_account_id;
      accounts_unique = λ u.
          subst (λ m'. IsUnique m') (sym wrote.laccid_to_account)
            (assign-IsUnique k.1 (record a { n_balances = n }) l.laccid_to_account u);
      accounts = λ d.
          ap (λ m'. Option.map (λ x. x.account) (find d m')) wrote.laccid_to_account
          ∙ recounted-account k.1 d a n l known;
    }

pub written-IsChanged :
    (t : BalanceType) (k : ℕ × ℕ) (p : ℕ) (b : Amount) (l : MemoryLedger)
    → IsPlaced l
    → IsCounted l
    → find k l.account_asset_balance ≡ some (at t p)
    → IsChanged k (some b) l (write_amount t p b l)
written-IsChanged t k p b l w n here =
    let wrote = written-Wrote t p b l in
    record {
      placed = written-IsPlaced t p b l w;
      counted = record {
        counted = λ c a e. ground (
          arith,
          ap (find c) wrote.laccid_to_account,
          ap (entries_of c) wrote.account_asset_balance,
          n.counted c a,
        );
        unknown = λ c e. ground (
          arith,
          ap (find c) wrote.laccid_to_account,
          ap (entries_of c) wrote.account_asset_balance,
          n.unknown c,
        );
        word = rw wrote.max_balances n.word;
      };
      balances = written-stored t k p b l w here;
      entries = all_entries k _ l _ (written-entries t k p b l w here);
      own =
          subst (λ v. Own k l v (entry_of k (write_amount t p b l)))
            (sym (ap (λ o. held_entry o l) here))
            (subst (λ v. Own k l (some (entry_at t p l)) v)
              (sym (own_entry k _ l _ (written-entries t k p b l w here))) refl);
      mem_offset = wrote.mem_offset;
      base_asset_id = wrote.base_asset_id;
      base_asset_id_defined = wrote.base_asset_id_defined;
      virtual_capacity = wrote.virtual_capacity;
      places = wrote.places;
      lassid_to_asset = wrote.lassid_to_asset;
      asset_to_lassid = wrote.asset_to_lassid;
      account_to_laccid = wrote.account_to_laccid;
      max_balances = wrote.max_balances;
      max_assets = wrote.max_assets;
      max_accounts = wrote.max_accounts;
      next_asset_id = wrote.next_asset_id;
      next_account_id = wrote.next_account_id;
      accounts_unique = λ u. subst (λ m. IsUnique m) (sym wrote.laccid_to_account) u;
      accounts = λ d. ap (λ m. Option.map (λ x. x.account) (find d m)) wrote.laccid_to_account;
    }

pub created-IsChanged :
    (k : ℕ × ℕ) (x : Asset) (a : AccountStruct) (b : Amount) (l : MemoryLedger)
    → IsPlaced l
    → IsCounted l
    → find k l.account_asset_balance ≡ none
    → find k.0 l.lassid_to_asset ≡ some x
    → find k.1 l.laccid_to_account ≡ some a
    → size l.account_asset_balance < l.max_balances
    → has_place l ≡ true
    → IsChanged k (some b) l (created (new_balance_type x.type a.account.type) k x a b l)
created-IsChanged k x a b l w n new asset known room place =
    let t = new_balance_type x.type a.account.type in
    let amount = fresh-amount t x a b l in
    Wrote-IsChanged k (some b) a _ _ l _ (created-Wrote t k x a b l place)
      (created-IsPlaced t k x a b l w new room place) n known
      (ground (
        arith,
        n.counted k.1 a known,
        n.word,
        entries_of-le-size k.1 l.account_asset_balance,
        entries_of-cons k.1 k (at t (end_place t l)) l.account_asset_balance,
      ))
      (λ d ne. ground (arith, entries_of-cons d k (at t (end_place t l)) l.account_asset_balance))
      (some (fresh t x a b l)) (ap some (sym amount)) (created-entries t k x a b l w new room place)
      (subst (λ v. Own k l v (some (fresh t x a b l))) (sym (ap (λ o. held_entry o l) new))
        (x, a, asset, known, ap (λ v. fresh t x a v l) (sym amount)))

pub fewer-HasPlaces : (l : MemoryLedger) → HasPlaces 2 l → HasPlaces 1 l
fewer-HasPlaces l (inl few) = inl (omega (arith, few))
fewer-HasPlaces l (inr all) = inr all

pub changed-HasPlaces :
    (k : ℕ × ℕ) (o : Option Amount) (l l' : MemoryLedger)
    → IsChanged k o l l'
    → HasPlaces 2 l
    → HasPlaces 1 l'
changed-HasPlaces k o l l' changed (inl few) =
    inl (omega (arith, few, changed.places, changed.virtual_capacity))
changed-HasPlaces k o l l' changed (inr all) =
    inr (omega (arith, all, changed.max_balances, changed.virtual_capacity))
