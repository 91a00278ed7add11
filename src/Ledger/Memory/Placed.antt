-- ===== src/Ledger/Memory/Placed.antt =====
-- The invariant of the arrays of `cma_ledger_memory`, and what a write of one balance does to it.
use machine_asset_tools.Prelude.{
  ℕ, ◌+◌, ◌%◌, ◌^◌, ◌≤◌, ◌<◌, ◌≡◌, refl, none, some, Option, ◌∷◌, if◌then◌else◌, arith, nat_key,
  pair_key, pair_eq, inl, inr, Bool-cases, Option-cases, length, get_elem?, get_elem?-lt,
  length-set, get_elem?-set, length-push_back, get_elem?-push_back, ap, ◌∙◌, sym, ◌⊎◌, true,
}
use mathlib.Core.Option
use mathlib.Core.Option.{get_or}
use machine_asset_tools.Amount.{Amount}
use machine_asset_tools.Map.{find, size}
use machine_asset_tools.Map.Laws.{IsUnique, find-cons}
use machine_asset_tools.Ledger.Types.{Asset, AssetType}
use machine_asset_tools.Ledger.Memory.{
  MemoryLedger, Balance, BalanceType, BalanceEntry, zero_entry, AccountStruct, amount_at,
}
use machine_asset_tools.Ledger.Memory.Update.{
  append_balance, has_place, end_place, write_token, new_entry, write_n_balances, keys_of,
}
use machine_asset_tools.Ledger.Memory.Slots.{IsSlots, at, create-IsSlots, create_other-IsSlots}

-- Both arrays are in order, they share the map's entries, the entries fit the memory, and no pointer
-- dangles.
pub record IsPlaced (l : MemoryLedger) : Type 0 where
  pub virtual_slots : IsSlots BalanceType.virtual l.account_asset_balance l.last_virtual_balances
  pub slots : IsSlots BalanceType.withdrawable l.account_asset_balance l.last_balances
  pub unique : IsUnique l.account_asset_balance
  pub virtual_length : length l.virtual_balances ≡ length l.last_virtual_balances
  pub sizes : length l.last_balances + length l.last_virtual_balances ≡ size l.account_asset_balance
  pub room : size l.account_asset_balance ≤ l.max_balances
  pub entries : length l.balances ≡ l.max_balances
  pub unmoved : l.virtual_moved ≡ 0

-- The bytes at a place; a virtual balance has its amount alone.
unfoldable pub entry_at : BalanceType → ℕ → MemoryLedger → BalanceEntry
entry_at BalanceType.virtual p l = record zero_entry { amount = amount_at BalanceType.virtual p l }
entry_at BalanceType.withdrawable p l = get_or (get_elem? l.balances p) zero_entry

abbrev pub held_entry : Option Balance → MemoryLedger → Option BalanceEntry
held_entry none l = none
held_entry (some b) l = some (entry_at b.type b.place l)

abbrev pub entry_of : ℕ × ℕ → MemoryLedger → Option BalanceEntry
entry_of k l = held_entry (find k l.account_asset_balance) l

-- What a map entry stands for: the amount at its place.
abbrev pub held : Option Balance → MemoryLedger → Option Amount
held none l = none
held (some b) l = some (amount_at b.type b.place l)

abbrev pub stored : ℕ × ℕ → MemoryLedger → Option Amount
stored k l = held (find k l.account_asset_balance) l

entry_at-amount :
    (t : BalanceType) (p : ℕ) (l : MemoryLedger) → (entry_at t p l).amount ≡ amount_at t p l
unfolding entry_at amount_at
entry_at-amount BalanceType.virtual p l = refl
entry_at-amount BalanceType.withdrawable p l = refl

held_entry-held :
    (o : Option Balance) (l : MemoryLedger) → Option.map (λ e. e.amount) (held_entry o l) ≡ held o l
held_entry-held none l = refl
held_entry-held (some b) l = ap some (entry_at-amount b.type b.place l)

-- The entries of the other keys say that their balances are stored.
pub entries-stored :
    (k : ℕ × ℕ) (o : Option BalanceEntry) (l l' : MemoryLedger)
    → ((k' : ℕ × ℕ) → entry_of k' l' ≡ (if pair_eq k k' then o else entry_of k' l))
    → (k' : ℕ × ℕ)
    → stored k' l' ≡ (if pair_eq k k' then Option.map (λ e. e.amount) o else stored k' l)
entries-stored k o l l' h k' =
    sym (held_entry-held (find k' l'.account_asset_balance) l')
    ∙ ap (λ e. Option.map (λ x. x.amount) e) (h k')
    ∙ elim (Bool-cases (pair_eq k k')) [
      | inl same ↦ rw same refl
      | inr other ↦ rw other (held_entry-held (find k' l.account_asset_balance) l)
    ]

-- The places that are left to virtual balances: `n` in the vector, or as many as balances may be.
abbrev pub HasPlaces : ℕ → MemoryLedger → Type 0
HasPlaces n l =
    (n + length l.virtual_balances ≤ l.virtual_capacity) ⊎ (l.max_balances ≤ l.virtual_capacity)

pub HasPlaces-has_place :
    (l : MemoryLedger)
    → IsPlaced l
    → HasPlaces 1 l
    → size l.account_asset_balance < l.max_balances
    → has_place l ≡ true
HasPlaces-has_place l w (inl few) room = ground arith
HasPlaces-has_place l w (inr all) room = ground (arith, w.virtual_length, w.sizes)

-- The ledger that the first part of `set_account_asset_balance` leaves.
abbrev pub created :
    BalanceType → ℕ × ℕ → Asset → AccountStruct → Amount → MemoryLedger → MemoryLedger
created t k x a b l =
    let l' = append_balance t k x a.account b l in
    write_n_balances k.1 a ((a.n_balances + 1) % 2 ^ 64)
      (record l' { account_asset_balance = (k, at t (end_place t l)) ∷ l.account_asset_balance })

pub created-IsPlaced :
    (t : BalanceType) (k : ℕ × ℕ) (x : Asset) (a : AccountStruct) (b : Amount) (l : MemoryLedger)
    → IsPlaced l
    → find k l.account_asset_balance ≡ none
    → size l.account_asset_balance < l.max_balances
    → has_place l ≡ true
    → IsPlaced (created t k x a b l)
unfolding append_balance end_place write_n_balances IsUnique
created-IsPlaced BalanceType.virtual k x a b l w new room place = record {
  virtual_slots = rw w.virtual_length (
      create-IsSlots BalanceType.virtual l.account_asset_balance l.last_virtual_balances k new
        w.virtual_slots);
  slots =
      create_other-IsSlots BalanceType.withdrawable l.account_asset_balance l.last_balances k _ new
        (λ p e. ground arith) w.slots;
  unique = (new, w.unique);
  virtual_length = ground (
    arith,
    w.virtual_length,
    length-push_back l.virtual_balances b,
    length-push_back l.last_virtual_balances k,
  );
  sizes = ground (arith, w.sizes, length-push_back l.last_virtual_balances k);
  room = omega (arith, room);
  entries = w.entries;
  unmoved = ground (arith, w.unmoved);
}
created-IsPlaced BalanceType.withdrawable k x a b l w new room place = record {
  virtual_slots =
      create_other-IsSlots BalanceType.virtual l.account_asset_balance l.last_virtual_balances k _
        new (λ p e. ground arith) w.virtual_slots;
  slots =
      create-IsSlots BalanceType.withdrawable l.account_asset_balance l.last_balances k new w.slots;
  unique = (new, w.unique);
  virtual_length = w.virtual_length;
  sizes = ground (arith, w.sizes, length-push_back l.last_balances k);
  room = omega (arith, room);
  entries =
      length-set l.balances (length l.last_balances) (
        new_entry x a.account b (get_or (get_elem? l.balances (length l.last_balances)) zero_entry))
      ∙ w.entries;
  unmoved = w.unmoved;
}

-- A place that the map names lies in its array.
pub placed_in_range :
    (t : BalanceType) (k : ℕ × ℕ) (p : ℕ) (l : MemoryLedger)
    → IsPlaced l
    → find k l.account_asset_balance ≡ some (at t p)
    → p < length (keys_of t l)
unfolding keys_of
placed_in_range BalanceType.virtual k p l w e =
    get_elem?-lt l.last_virtual_balances p k (w.virtual_slots.placed k p e)
placed_in_range BalanceType.withdrawable k p l w e =
    get_elem?-lt l.last_balances p k (w.slots.placed k p e)

-- A place of the map before the new balance shows what it did.
created-entry_old :
    (t t' : BalanceType) (k : ℕ × ℕ) (x : Asset) (a : AccountStruct) (b : Amount) (l : MemoryLedger)
    → IsPlaced l
    → size l.account_asset_balance < l.max_balances
    → has_place l ≡ true
    → (p : ℕ) → p < length (keys_of t' l)
    → entry_at t' p (created t k x a b l) ≡ entry_at t' p l
unfolding append_balance end_place write_n_balances entry_at amount_at keys_of
created-entry_old BalanceType.virtual BalanceType.virtual k x a b l w room place p h =
    ground (arith, get_elem?-push_back l.virtual_balances b p, w.virtual_length, w.unmoved)
created-entry_old BalanceType.virtual BalanceType.withdrawable k x a b l w room place p h = refl
created-entry_old BalanceType.withdrawable BalanceType.virtual k x a b l w room place p h = refl
created-entry_old BalanceType.withdrawable BalanceType.withdrawable k x a b l w room place p h =
    let e =
      get_elem?-set l.balances (length l.last_balances) p
        (new_entry x a.account b
          (get_or (get_elem? l.balances (length l.last_balances)) zero_entry))
        (omega (arith, w.entries, w.sizes, room)) in
    ground (arith, e)

-- What a new balance gets: with a place in the memory, over what stood there.
abbrev pub fresh : BalanceType → Asset → AccountStruct → Amount → MemoryLedger → BalanceEntry
fresh BalanceType.virtual x a b l = record zero_entry { amount = b }
fresh BalanceType.withdrawable x a b l =
    new_entry x a.account b (get_or (get_elem? l.balances (length l.last_balances)) zero_entry)

created-entry_new :
    (t : BalanceType) (k : ℕ × ℕ) (x : Asset) (a : AccountStruct) (b : Amount) (l : MemoryLedger)
    → IsPlaced l
    → size l.account_asset_balance < l.max_balances
    → has_place l ≡ true
    → entry_at t (end_place t l) (created t k x a b l) ≡ fresh t x a b l
unfolding append_balance end_place write_n_balances entry_at amount_at keys_of
created-entry_new BalanceType.virtual k x a b l w room place =
    ground (arith, get_elem?-push_back l.virtual_balances b (length l.virtual_balances), w.unmoved)
created-entry_new BalanceType.withdrawable k x a b l w room place =
    let e =
      get_elem?-set l.balances (length l.last_balances) (length l.last_balances)
        (new_entry x a.account b
          (get_or (get_elem? l.balances (length l.last_balances)) zero_entry))
        (omega (arith, w.entries, w.sizes, room)) in
    ground (arith, e)

write_token-amount :
    (t : AssetType) (x : Asset) (e : BalanceEntry) → (write_token t x e).amount ≡ e.amount
write_token-amount AssetType.id x e = refl
write_token-amount AssetType.base x e = refl
write_token-amount AssetType.token_address x e = refl
write_token-amount AssetType.token_address_id x e = refl
write_token-amount AssetType.token_address_id_amount x e = refl

pub fresh-amount :
    (t : BalanceType) (x : Asset) (a : AccountStruct) (b : Amount) (l : MemoryLedger)
    → (fresh t x a b l).amount ≡ b
fresh-amount BalanceType.virtual x a b l = refl
fresh-amount BalanceType.withdrawable x a b l = write_token-amount x.type x _

-- The new balance has its entry, and no other moves.
pub created-entries :
    (t : BalanceType) (k : ℕ × ℕ) (x : Asset) (a : AccountStruct) (b : Amount) (l : MemoryLedger)
    → IsPlaced l
    → find k l.account_asset_balance ≡ none
    → size l.account_asset_balance < l.max_balances
    → has_place l ≡ true
    → (k' : ℕ × ℕ)
    → entry_of k' (created t k x a b l)
      ≡ (if pair_eq k k' then some (fresh t x a b l) else entry_of k' l)
unfolding write_n_balances
created-entries t k x a b l w new room place k' =
    ap (λ o. held_entry o (created t k x a b l))
      (find-cons k k' (at t (end_place t l)) l.account_asset_balance)
    ∙ elim (Bool-cases (pair_eq k k')) [
      | inl same ↦ rw same (ap some (created-entry_new t k x a b l w room place))
      | inr other ↦ elim (Option-cases (find k' l.account_asset_balance)) [
        | inl missing ↦ rw (other, missing) refl
        | inr (c, known) ↦
            rw (other, known)
              (ap some (
                created-entry_old t c.type k x a b l w room place c.place
                  (placed_in_range c.type k' c.place l w known)))
      ]
    ]

pub created-stored :
    (t : BalanceType) (k : ℕ × ℕ) (x : Asset) (a : AccountStruct) (b : Amount) (l : MemoryLedger)
    → IsPlaced l
    → find k l.account_asset_balance ≡ none
    → size l.account_asset_balance < l.max_balances
    → has_place l ≡ true
    → (k' : ℕ × ℕ)
    → stored k' (created t k x a b l) ≡ (if pair_eq k k' then some b else stored k' l)
created-stored t k x a b l w new room place k' =
    entries-stored k (some (fresh t x a b l)) l (created t k x a b l)
      (created-entries t k x a b l w new room place) k'
    ∙ ap (λ v. if pair_eq k k' then some v else stored k' l) (fresh-amount t x a b l)
