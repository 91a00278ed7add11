-- ===== src/Ledger/Basic/Assets/Outcome.antt =====
-- What `retrieve_asset` of `cma_ledger_basic` leaves in the ledger: nothing new, or one asset.
use machine_asset_tools.Prelude.{
  ℕ, ◌≡◌, ◌≢◌, refl, Option, none, some, ◌∷◌, nat_key, bytes_key, ok, ◌⊎◌, inl, inr, arith,
  Option-cases,
}
use machine_asset_tools.Amount.{zero_amount}
use machine_asset_tools.Map.{find, insert, size}
use machine_asset_tools.Ledger.Types.{
  Bytes, Asset, AssetType, Operation, new_asset, address_key, address_id_key,
}
use machine_asset_tools.Ledger.Basic.{BasicLedger, get_asset_count}
use machine_asset_tools.Ledger.Basic.Assets.{
  AssetCall, address_asset, address_id_asset, find_into, insert_asset, insert_asset_key,
  retrieve_by_id, find_by_key, retrieve_by_key, retrieve_by_address, retrieve_by_address_id,
  retrieve_by_type, retrieve_asset,
}

-- Asset `x` under the next id; no key leads to it.
abbrev pub with_asset : Asset → BasicLedger → BasicLedger
with_asset x l = record l { lassid_to_asset = (size l.lassid_to_asset, x) ∷ l.lassid_to_asset }

-- The same with a key that leads to it.
abbrev pub with_keyed_asset : Bytes → Asset → BasicLedger → BasicLedger
with_keyed_asset key x l = record l {
  asset_to_lassid = (key, size l.lassid_to_asset) ∷ l.asset_to_lassid;
  lassid_to_asset = (size l.lassid_to_asset, x) ∷ l.lassid_to_asset;
}

-- The next id is free.
abbrev pub IsFresh : BasicLedger → Type 0
IsFresh l = find (size l.lassid_to_asset) l.lassid_to_asset ≡ none

-- `retrieve_asset` by id: the ledger is as it was, or has one asset more under the next id.
retrieve_by_id-ledger :
    (op : Operation) (c : AssetCall)
    → IsFresh c.ledger
    → let (r, c') = retrieve_by_id (size c.ledger.lassid_to_asset) op c in
      (c'.ledger ≡ c.ledger)
      ⊎ ((r ≡ ok tt) × (c'.ledger ≡ with_asset (new_asset AssetType.id) c.ledger))
unfolding retrieve_by_id find_into insert_asset insert
retrieve_by_id-ledger op c fresh = ground arith

retrieve_by_key-ledger :
    (key : Bytes) (x : Asset) (op : Operation) (c : AssetCall)
    → IsFresh c.ledger
    → let (r, c') = retrieve_by_key key x (size c.ledger.lassid_to_asset) op c in
      (c'.ledger ≡ c.ledger)
      ⊎ ((r ≡ ok tt)
          × (find key c.ledger.asset_to_lassid ≡ none)
          × (c'.ledger ≡ with_keyed_asset key x c.ledger))
unfolding retrieve_by_key find_by_key find_into insert_asset insert_asset_key insert
retrieve_by_key-ledger key x op c fresh = ground arith

-- The key under which an asset is registered; none for an asset by id.
unfoldable pub key_of : Asset → Option Bytes
key_of x = elim x.type [
  | AssetType.id ↦ none
  | AssetType.base ↦ none
  | AssetType.token_address ↦ some (address_key x.token_address)
  | AssetType.token_address_id ↦ some (address_id_key x.token_address x.token_id)
  | AssetType.token_address_id_amount ↦ some (address_id_key x.token_address x.token_id)
]

-- What a registration may leave.
pub data Registers (l l' : BasicLedger) : Type 0 where
  same : l' ≡ l → Registers l l'
  by_id : l' ≡ with_asset (new_asset AssetType.id) l → Registers l l'
  by_key :
      (key : Bytes) (x : Asset)
      → key_of x ≡ some key
      → x.supply ≡ zero_amount
      → x.type ≢ AssetType.base
      → find key l.asset_to_lassid ≡ none
      → l' ≡ with_keyed_asset key x l
      → Registers l l'

by_key_Registers :
    (key : Bytes) (x : Asset) (op : Operation) (c : AssetCall)
    → IsFresh c.ledger
    → key_of x ≡ some key
    → x.supply ≡ zero_amount
    → x.type ≢ AssetType.base
    → Registers c.ledger (retrieve_by_key key x (size c.ledger.lassid_to_asset) op c).1.ledger
by_key_Registers key x op c fresh k s b = elim (retrieve_by_key-ledger key x op c fresh) [
  | inl e ↦ same e
  | inr (_, new, e) ↦ by_key key x k s b new e
]

pub retrieve_by_address-some :
    (n : ℕ) (op : Operation) (c : AssetCall) (address : Bytes)
    → c.args.token_address ≡ some address
    → retrieve_by_address n op c
      ≡ retrieve_by_key (address_key address) (address_asset address) n op c
unfolding retrieve_by_address
retrieve_by_address-some n op c address e = ground arith

pub retrieve_by_address_id-some :
    (t : AssetType) (n : ℕ) (op : Operation) (c : AssetCall) (address token_id : Bytes)
    → c.args.token_address ≡ some address
    → c.args.token_id ≡ some token_id
    → retrieve_by_address_id t n op c
      ≡ retrieve_by_key
          (address_id_key address token_id)
          (address_id_asset t address token_id)
          n
          op
          c
unfolding retrieve_by_address_id
retrieve_by_address_id-some t n op c address token_id e f = ground arith

by_address_Registers :
    (op : Operation) (c : AssetCall)
    → IsFresh c.ledger
    → Registers c.ledger (retrieve_by_address (size c.ledger.lassid_to_asset) op c).1.ledger
unfolding retrieve_by_address
by_address_Registers op c fresh = elim (Option-cases c.args.token_address) [
  | inl e ↦ same (ground arith)
  | inr (address, e) ↦
      rw (retrieve_by_address-some (size c.ledger.lassid_to_asset) op c address e)
        (by_key_Registers (address_key address) _ op c fresh (unfold key_of in refl) refl (λ q. cc))
]

by_address_id_Registers :
    (t : AssetType) (op : Operation) (c : AssetCall)
    → IsFresh c.ledger
    → (t ≡ AssetType.token_address_id) ⊎ (t ≡ AssetType.token_address_id_amount)
    → Registers c.ledger (retrieve_by_address_id t (size c.ledger.lassid_to_asset) op c).1.ledger
unfolding retrieve_by_address_id key_of
by_address_id_Registers t op c fresh h = elim (Option-cases c.args.token_address) [
  | inl e ↦ same (ground arith)
  | inr (address, e) ↦ elim (Option-cases c.args.token_id) [
    | inl f ↦ same (ground arith)
    | inr (token_id, f) ↦
        rw (retrieve_by_address_id-some t (size c.ledger.lassid_to_asset) op c address token_id e f)
          (by_key_Registers (address_id_key address token_id) _ op c fresh (ground arith) refl
            (ground arith))
  ]
]

by_type_Registers :
    (t : AssetType) (op : Operation) (c : AssetCall)
    → IsFresh c.ledger
    → Registers c.ledger (retrieve_by_type t (size c.ledger.lassid_to_asset) op c).1.ledger
unfolding retrieve_by_type
by_type_Registers AssetType.id op c fresh = elim (retrieve_by_id-ledger op c fresh) [
  | inl e ↦ same e
  | inr (_, e) ↦ by_id e
]
by_type_Registers AssetType.base op c fresh = same refl
by_type_Registers AssetType.token_address op c fresh = by_address_Registers op c fresh
by_type_Registers AssetType.token_address_id op c fresh =
    by_address_id_Registers AssetType.token_address_id op c fresh (inl refl)
by_type_Registers AssetType.token_address_id_amount op c fresh =
    by_address_id_Registers AssetType.token_address_id_amount op c fresh (inr refl)

pub retrieve_asset-Registers :
    (op : Operation) (c : AssetCall)
    → IsFresh c.ledger
    → Registers c.ledger (retrieve_asset op c).1.ledger
unfolding retrieve_asset get_asset_count
retrieve_asset-Registers op c fresh = by_type_Registers c.args.asset_type op c fresh
