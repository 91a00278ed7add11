-- ===== src/Ledger/Basic/Assets/Lookup.antt =====
-- Registration by token address and then a search for it (`retrieve_asset` of `cma_ledger_basic`).
use machine_asset_tools.Prelude.{
  ℕ, ◌≡◌, ◌≢◌, refl, ◌∙◌, ap, true, none, some, nat_key, bytes_key, Result, ok, err, ◌⊎◌, inl, inr,
  arith, Option-cases, beq_refl,
}
use native.Mathlib.Nat.{le_refl}
use machine_asset_tools.Map.{find, insert, size}
use machine_asset_tools.Map.Laws.{find-cons}
use machine_asset_tools.Ledger.Types.{Bytes, Asset, AssetType, Operation, address_key, write, finds}
use machine_asset_tools.Ledger.Code
use machine_asset_tools.Ledger.Basic.{find_asset, get_asset_count}
use machine_asset_tools.Ledger.Basic.Assets.{
  AssetCall, address_asset, find_into, insert_asset, insert_asset_key, find_by_key, retrieve_by_key,
  retrieve_by_address, retrieve_by_type, retrieve_asset,
}
use machine_asset_tools.Ledger.Basic.Assets.Outcome.{with_keyed_asset, retrieve_by_address-some}
use machine_asset_tools.Ledger.Basic.Assets.Registry.{IsRegistry}

-- The caller asks by token address.
pub record AsksFor (address : Bytes) (c : AssetCall) : Type 0 where
  pub by_address : c.args.asset_type ≡ AssetType.token_address
  pub given : c.args.token_address ≡ some address

abbrev pub count : AssetCall → ℕ
count c = size c.ledger.lassid_to_asset

retrieve_asset-by_address :
    (op : Operation) (address : Bytes) (c : AssetCall)
    → AsksFor address c
    → retrieve_asset op c
      ≡ retrieve_by_key (address_key address) (address_asset address) (count c) op c
unfolding retrieve_asset get_asset_count retrieve_by_type
retrieve_asset-by_address op address c a =
    dispatch c.args.asset_type a.by_address
    ∙ retrieve_by_address-some (count c) op c address a.given
  where
    dispatch :
        (t : AssetType)
        → t ≡ AssetType.token_address
        → retrieve_by_type t (count c) op c ≡ retrieve_by_address (count c) op c
    dispatch t e = rw e refl

-- What a search for a registered asset leaves.
pub record Found (i : ℕ) (x : Asset) (c : AssetCall) (r : Result (Unit {0}) × AssetCall)
    : Type 0 where
  pub returns : r.0 ≡ ok tt
  pub ledger : r.1.ledger ≡ c.ledger
  pub asset_id : r.1.args.asset_id ≡ write c.args.asset_id i
  pub asset_type : r.1.args.asset_type ≡ x.type
  pub supply : r.1.args.out_total_supply ≡ write c.args.out_total_supply x.supply

module _ {i : ℕ} {x : Asset} {c : AssetCall} where
  Found-of : {r r' : Result (Unit {0}) × AssetCall} → r ≡ r' → Found i x c r' → Found i x c r
  Found-of e f = rw e f

retrieve_by_key-Found :
    (key : Bytes) (y x : Asset) (n i : ℕ) (op : Operation) (c : AssetCall)
    → finds op ≡ true
    → find key c.ledger.asset_to_lassid ≡ some i
    → find i c.ledger.lassid_to_asset ≡ some x
    → x.type ≢ AssetType.base
    → Found i x c (retrieve_by_key key y n op c)
unfolding retrieve_by_key find_by_key find_into find_asset
retrieve_by_key-Found key y x n i op c s k a t = ground arith

-- On a ledger whose asset maps agree, `find` and `find_or_create` by a registered token address
-- return, write the asset's id, type and supply through the pointers that are given, and leave the
-- ledger as it was.
pub retrieve_asset-Found :
    (address : Bytes) (i : ℕ) (op : Operation) (c : AssetCall)
    → IsRegistry c.ledger
    → AsksFor address c
    → finds op ≡ true
    → find (address_key address) c.ledger.asset_to_lassid ≡ some i
    → (x : Asset) × (find i c.ledger.lassid_to_asset ≡ some x) × Found i x c (retrieve_asset op c)
retrieve_asset-Found address i op c r a s k =
    let (x, at_i, _) = r.key_to_asset (address_key address) i k in
    (
      x,
      at_i,
      Found-of (retrieve_asset-by_address op address c a) (
          retrieve_by_key-Found (address_key address) (address_asset address) x (count c) i op c s k
            at_i (r.supported i x at_i)),
    )

retrieve_by_key-create :
    (key : Bytes) (x : Asset) (c : AssetCall)
    → find (count c) c.ledger.lassid_to_asset ≡ none
    → find key c.ledger.asset_to_lassid ≡ none
    → let (r, c') = retrieve_by_key key x (count c) Operation.create c in
      (r ≡ ok tt)
      × (c'.ledger ≡ with_keyed_asset key x c.ledger)
      × (c'.args.asset_id ≡ write c.args.asset_id (count c))
unfolding retrieve_by_key insert_asset_key insert_asset insert
retrieve_by_key-create key x c fresh new = ground arith

retrieve_by_key-taken :
    (key : Bytes) (x : Asset) (n i : ℕ) (c : AssetCall)
    → find key c.ledger.asset_to_lassid ≡ some i
    → retrieve_by_key key x n Operation.create c
      ≡ (err "Asset Key already exists" Code.insertion_error, c)
unfolding retrieve_by_key insert_asset_key insert
retrieve_by_key-taken key x n i c taken = ground arith

-- On a ledger whose asset maps agree, `create` by a token address either finds it registered,
-- throws "Asset Key already exists" and changes nothing; or it returns the next id, and `find` by
-- that address, on the ledger that this left, returns the id, the type and the supply of the new
-- asset and changes no ledger.
pub create-find :
    (address : Bytes) (c d : AssetCall)
    → IsRegistry c.ledger
    → AsksFor address c
    → AsksFor address d
    → d.ledger ≡ (retrieve_asset Operation.create c).1.ledger
    → ((i : ℕ) × (find (address_key address) c.ledger.asset_to_lassid ≡ some i)
        × (retrieve_asset Operation.create c
            ≡ (err "Asset Key already exists" Code.insertion_error, c)))
      ⊎ (((retrieve_asset Operation.create c).0 ≡ ok tt)
          × ((retrieve_asset Operation.create c).1.args.asset_id ≡ write c.args.asset_id (count c))
          × Found (count c) (address_asset address) d (retrieve_asset Operation.find d))
create-find address c d reg a b same =
    elim (Option-cases (find (address_key address) c.ledger.asset_to_lassid)) [
      | inr (i, taken) ↦ inl (
        i,
        taken,
        retrieve_asset-by_address Operation.create address c a
            ∙ retrieve_by_key-taken (address_key address) (address_asset address) (count c) i c
                taken,
      )
      | inl new ↦
          let made =
            retrieve_by_key-create (address_key address) (address_asset address) c
              (reg.fresh (count c) (le_refl _)) new in
          let e = retrieve_asset-by_address Operation.create address c a in
          inr (
            ap (λ r. r.0) e ∙ made.0,
            ap (λ r. r.1.args.asset_id) e ∙ made.2,
            find_new (same ∙ ap (λ r. r.1.ledger) e ∙ made.1),
          )
    ]
  where
    find_new :
        d.ledger ≡ with_keyed_asset (address_key address) (address_asset address) c.ledger
        → Found (count c) (address_asset address) d (retrieve_asset Operation.find d)
    find_new after =
        let key_at : find (address_key address) d.ledger.asset_to_lassid ≡ some (count c) =
          ap (λ l. find (address_key address) l.asset_to_lassid) after
          ∙ ground (
            arith,
            beq_refl (address_key address),
            find-cons (address_key address) (address_key address) (count c)
                c.ledger.asset_to_lassid,
          ) in
        let at_id : find (count c) d.ledger.lassid_to_asset ≡ some (address_asset address) =
          ap (λ l. find (count c) l.lassid_to_asset) after
          ∙ ground (
            arith,
            find-cons (count c) (count c) (address_asset address) c.ledger.lassid_to_asset,
          ) in
        Found-of (retrieve_asset-by_address Operation.find address d b) (
          retrieve_by_key-Found (address_key address) (address_asset address)
            (address_asset address) (count d) (count c) Operation.find d refl key_at at_id
            (λ q. cc))
