-- ===== src/Ledger/Memory/Sound/Assets.antt =====
-- `retrieve_asset`, `remove_asset` and `set_asset_supply` of `cma_ledger_memory` keep the invariant,
-- whether they return or throw.
use machine_asset_tools.Prelude.{
  ℕ, ◌+◌, ◌%◌, ◌^◌, ◌<◌, ◌≡◌, refl, Bool, true, false, none, ◌∷◌, if◌then◌else◌, arith, nat_key,
  bytes_key, pair_key, inl, inr, Bool-cases, Option-cases, leb,
}
use machine_asset_tools.Amount.{Amount}
use machine_asset_tools.Map.{Map, find, assign, erase}
use machine_asset_tools.Map.Laws.{
  IsUnique, assign-IsUnique, erase-IsUnique, find-assign, find-erase, find-cons, insert_new,
  insert_old,
}
use machine_asset_tools.Ledger.Types.{Asset, AssetType, Bytes, Operation, new_asset}
use machine_asset_tools.Ledger.Memory.{MemoryLedger, set_asset_supply}
use machine_asset_tools.Ledger.Memory.Sound.{Keeps, IsSound, assets-IsSound}
use machine_asset_tools.Ledger.Memory.Assets

pub set_asset_supply-IsSound : (i : ℕ) (s : Amount) → Keeps IsSound (set_asset_supply i s)
unfolding set_asset_supply IsSound
set_asset_supply-IsSound i s l w = elim (Option-cases (find i l.lassid_to_asset)) [
  | inl missing ↦ rw (missing, set_asset_supply) w
  | inr (a, known) ↦
      let m = assign i (record a { supply = s }) l.lassid_to_asset in
      rw (known, set_asset_supply)
        (assets-IsSound m l.asset_to_lassid l.base_asset_id l.base_asset_id_defined l.next_asset_id
          l w
          (λ j x e. ground (
            arith,
            find-assign i j (record a { supply = s }) a l.lassid_to_asset known,
            w.limited.asset_below j x,
            w.limited.asset_below i a known,
          ))
          (assign-IsUnique i (record a { supply = s }) l.lassid_to_asset w.limited.assets_unique)
          w.limited.asset_limit)
]

module _ (key : Bytes) where
  erase_asset_key-IsSound : Keeps IsSound (Assets.erase_asset_key key)
  unfolding Assets.erase_asset_key IsSound
  erase_asset_key-IsSound l w = elim (Option-cases (find key l.asset_to_lassid)) [
    | inl missing ↦ rw (missing, Assets.erase_asset_key) w
    | inr (a, known) ↦
        rw (known, Assets.erase_asset_key)
          (assets-IsSound l.lassid_to_asset _ l.base_asset_id l.base_asset_id_defined
            l.next_asset_id l w w.limited.asset_below w.limited.assets_unique w.limited.asset_limit)
  ]

erase_asset-IsSound : (i : ℕ) → Keeps IsSound (Assets.erase_asset i)
unfolding Assets.erase_asset IsSound
erase_asset-IsSound i l w = elim (Option-cases (find i l.lassid_to_asset)) [
  | inl missing ↦ rw (missing, Assets.erase_asset) w
  | inr (a, known) ↦
      rw (known, Assets.erase_asset)
        (assets-IsSound (erase i l.lassid_to_asset) l.asset_to_lassid l.base_asset_id
          l.base_asset_id_defined l.next_asset_id l w
          (λ j x e. ground (
            arith,
            find-erase i j l.lassid_to_asset w.limited.assets_unique,
            w.limited.asset_below j x,
          ))
          (erase-IsUnique i l.lassid_to_asset w.limited.assets_unique) w.limited.asset_limit)
]

unregister_asset-IsSound : (t : AssetType) (a : Asset) → Keeps IsSound (Assets.unregister_asset t a)
unfolding Assets.unregister_asset IsSound
unregister_asset-IsSound AssetType.id a l w = w
unregister_asset-IsSound AssetType.base a l w =
    assets-IsSound l.lassid_to_asset l.asset_to_lassid l.base_asset_id false l.next_asset_id l w
      w.limited.asset_below w.limited.assets_unique w.limited.asset_limit
unregister_asset-IsSound AssetType.token_address a l w = erase_asset_key-IsSound _ l w
unregister_asset-IsSound AssetType.token_address_id a l w = erase_asset_key-IsSound _ l w
unregister_asset-IsSound AssetType.token_address_id_amount a l w = erase_asset_key-IsSound _ l w

pub remove_asset-IsSound : (i : ℕ) → Keeps IsSound (Assets.remove_asset i)
unfolding Assets.remove_asset
remove_asset-IsSound i l w = grind (arith, unregister_asset-IsSound, erase_asset-IsSound)

if-IsSound :
    (b : Bool) (l l' : MemoryLedger) → IsSound l → IsSound l' → IsSound (if b then l else l')
if-IsSound true l l' w w' = w
if-IsSound false l l' w w' = w'

define_base-IsSound :
    (t : AssetType) (i : ℕ) (l : MemoryLedger) → IsSound l → IsSound (Assets.define_base t i l)
unfolding Assets.define_base IsSound
define_base-IsSound AssetType.base i l w =
    if-IsSound l.base_asset_id_defined l
      (record l { base_asset_id = i; base_asset_id_defined = true }) w
      (assets-IsSound l.lassid_to_asset l.asset_to_lassid i true l.next_asset_id l w
        w.limited.asset_below w.limited.assets_unique w.limited.asset_limit)
define_base-IsSound AssetType.id i l w = w
define_base-IsSound AssetType.token_address i l w = w
define_base-IsSound AssetType.token_address_id i l w = w
define_base-IsSound AssetType.token_address_id_amount i l w = w

advance-define_base :
    (t : AssetType) (i : ℕ) (l : MemoryLedger)
    → Assets.advance_asset_id (Assets.define_base t i l)
      ≡ Assets.define_base t i (Assets.advance_asset_id l)
unfolding Assets.define_base
advance-define_base AssetType.base i l = ground arith
advance-define_base AssetType.id i l = refl
advance-define_base AssetType.token_address i l = refl
advance-define_base AssetType.token_address_id i l = refl
advance-define_base AssetType.token_address_id_amount i l = refl

-- The ledger with a new asset under the next id.
abbrev pub with_asset : Asset → Map Bytes ℕ → MemoryLedger → MemoryLedger
with_asset x keys l = record l {
  lassid_to_asset = (l.next_asset_id, x) ∷ l.lassid_to_asset;
  asset_to_lassid = keys;
  next_asset_id = (l.next_asset_id + 1) % 2 ^ 64;
}

pub next_asset-free : (l : MemoryLedger) → IsSound l → find l.next_asset_id l.lassid_to_asset ≡ none
unfolding IsSound
next_asset-free l w = elim (Option-cases (find l.next_asset_id l.lassid_to_asset)) [
  | inl free ↦ free
  | inr (a, known) ↦ absurd (omega (arith, w.limited.asset_below l.next_asset_id a known))
]

with_asset-IsSound :
    (x : Asset) (keys : Map Bytes ℕ) (l : MemoryLedger)
    → IsSound l
    → l.next_asset_id < l.max_assets
    → IsSound (with_asset x keys l)
unfolding IsSound IsUnique
with_asset-IsSound x keys l w room =
    let n : (l.next_asset_id + 1) % 2 ^ 64 ≡ l.next_asset_id + 1 =
      omega (arith, w.limited.asset_word) in
    assets-IsSound ((l.next_asset_id, x) ∷ l.lassid_to_asset) keys l.base_asset_id
      l.base_asset_id_defined ((l.next_asset_id + 1) % 2 ^ 64) l w
      (λ i a e.
        ground
          (arith, n, find-cons l.next_asset_id i x l.lassid_to_asset, w.limited.asset_below i a))
      (next_asset-free l w, w.limited.assets_unique) (omega (arith, n, room))

create_asset_by_id-IsSound : (t : AssetType) → Keeps IsSound (Assets.create_by_id t)
unfolding Assets.create_by_id Assets.check_max_assets Assets.insert_asset
create_asset_by_id-IsSound t l w = elim (Bool-cases (leb l.max_assets l.next_asset_id)) [
  | inl full ↦ ground arith
  | inr room ↦
      let final =
        Assets.define_base t l.next_asset_id (with_asset (new_asset t) l.asset_to_lassid l) in
      let sound =
        define_base-IsSound t l.next_asset_id _
          (with_asset-IsSound (new_asset t) l.asset_to_lassid l w (ground arith)) in
      ground (
        arith,
        insert_new l.next_asset_id (new_asset t) l.lassid_to_asset (next_asset-free l w),
        advance-define_base t l.next_asset_id
            (record l { lassid_to_asset = (l.next_asset_id, new_asset t) ∷ l.lassid_to_asset }),
      )
]

create_asset_by_key-IsSound : (key : Bytes) (x : Asset) → Keeps IsSound (Assets.create_by_key key x)
unfolding Assets.create_by_key Assets.check_max_assets Assets.insert_asset Assets.insert_asset_key
create_asset_by_key-IsSound key x l w = elim (Bool-cases (leb l.max_assets l.next_asset_id)) [
  | inl full ↦ ground arith
  | inr room ↦
      let sound =
        with_asset-IsSound x ((key, l.next_asset_id) ∷ l.asset_to_lassid) l w (ground arith) in
      elim (Option-cases (find key l.asset_to_lassid)) [
        | inl new ↦ ground (
          arith,
          insert_new l.next_asset_id x l.lassid_to_asset (next_asset-free l w),
          insert_new key l.next_asset_id l.asset_to_lassid new,
        )
        | inr (i, old) ↦ ground (arith, insert_old key l.next_asset_id i l.asset_to_lassid old)
      ]
]

-- Every branch of `retrieve_asset`.
find_into-ledger : (i : ℕ) (c : Assets.AssetCall) → (Assets.find_into i c).1.ledger ≡ c.ledger
unfolding Assets.find_into
find_into-ledger i c = refl

search_asset_by_id-IsSound :
    (t : AssetType) (op : Operation) (c : Assets.AssetCall)
    → IsSound c.ledger
    → IsSound (Assets.search_by_id t op c).1.ledger
unfolding Assets.search_by_id Assets.aim_at_base
search_asset_by_id-IsSound t op c w = grind (arith, remove_asset-IsSound, find_into-ledger)

search_asset_by_key-IsSound :
    (key : Bytes) (op : Operation) (c : Assets.AssetCall)
    → IsSound c.ledger
    → IsSound (Assets.search_by_key key op c).1.ledger
unfolding Assets.search_by_key
search_asset_by_key-IsSound key op c w = grind (arith, remove_asset-IsSound, find_into-ledger)

retrieve_asset_by_id-IsSound :
    (t : AssetType) (op : Operation) (c : Assets.AssetCall)
    → IsSound c.ledger
    → IsSound (Assets.retrieve_by_id t op c).1.ledger
unfolding Assets.retrieve_by_id
retrieve_asset_by_id-IsSound t op c w =
    grind (arith, search_asset_by_id-IsSound, create_asset_by_id-IsSound)

retrieve_asset_by_key-IsSound :
    (key : Bytes) (x : Asset) (op : Operation) (c : Assets.AssetCall)
    → IsSound c.ledger
    → IsSound (Assets.retrieve_by_key key x op c).1.ledger
unfolding Assets.retrieve_by_key
retrieve_asset_by_key-IsSound key x op c w =
    grind (arith, search_asset_by_key-IsSound, create_asset_by_key-IsSound)

pub retrieve_asset-IsSound :
    (op : Operation) (c : Assets.AssetCall)
    → IsSound c.ledger
    → IsSound (Assets.retrieve_asset op c).1.ledger
unfolding Assets.retrieve_asset Assets.retrieve_by_type Assets.retrieve_by_address
    Assets.retrieve_by_address_id
retrieve_asset-IsSound op c w =
    grind (arith, retrieve_asset_by_id-IsSound, retrieve_asset_by_key-IsSound)
