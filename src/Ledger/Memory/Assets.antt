-- ===== src/Ledger/Memory/Assets.antt =====
-- `retrieve_asset` and `remove_asset` of `cma_ledger_memory` (src/ledger_impl.cpp).
use mathlib.Core.Option.{get_or}
use machine_asset_tools.Prelude.{
  ℕ, ◌+◌, ◌%◌, ◌^◌, Bool, true, false, not, ◌&&◌, none, some, if◌then◌else◌, ok, err, Throws, pure,
  gets, ◌>>=◌, ◌>>◌, modify, throw_if, or_throw, nat_key, bytes_key, leb,
}
use machine_asset_tools.Amount.{is_zero}
use machine_asset_tools.Map.{find, insert, erase}
use machine_asset_tools.Ledger.Types.{
  Bytes, Asset, AssetType, Operation, new_asset, address_key, address_id_key, write, creates,
  is_find, searches, must_find, removes, is_base,
}
use machine_asset_tools.Ledger.Code
use machine_asset_tools.Ledger.Basic.Assets.{AssetArgs, address_asset, address_id_asset}
use machine_asset_tools.Ledger.Memory.{MemoryLedger, find_asset}

-- `asset_to_lassid.erase(asset_key)`, which throws if nothing was erased.
unfoldable pub erase_asset_key : Bytes → Throws MemoryLedger (Unit {0})
unfolding find erase
erase_asset_key key l = elim (find key l.asset_to_lassid) [
  | none ↦ (err "Coundn't erase asset key map" Code.remove, l)
  | some _ ↦ (ok tt, record l { asset_to_lassid = erase key l.asset_to_lassid })
]

unfoldable pub erase_asset : ℕ → Throws MemoryLedger (Unit {0})
unfolding find erase
erase_asset asset_id l = elim (find asset_id l.lassid_to_asset) [
  | none ↦ (err "Coundn't erase asset id map" Code.remove, l)
  | some _ ↦ (ok tt, record l { lassid_to_asset = erase asset_id l.lassid_to_asset })
]

-- The `switch` on the type of the asset that goes.
unfoldable pub unregister_asset : AssetType → Asset → Throws MemoryLedger (Unit {0})
unregister_asset AssetType.id a = pure tt
unregister_asset AssetType.base a = modify (λ l. record l { base_asset_id_defined = false })
unregister_asset AssetType.token_address a = erase_asset_key (address_key a.token_address)
unregister_asset t a = erase_asset_key (address_id_key a.token_address a.token_id)

unfoldable pub remove_asset : ℕ → Throws MemoryLedger (Unit {0})
remove_asset asset_id = do
  found ← gets (λ l. find asset_id l.lassid_to_asset)
  a ← or_throw found "Couldn't find asset to remove" Code.asset_not_found
  throw_if (not (is_zero a.supply)) "Asset still have supply" Code.asset_supply
  unregister_asset a.type a
  erase_asset asset_id

-- The ledger and the caller's variables, both of which a call writes.
pub record AssetCall : Type 0 where
  pub ledger : MemoryLedger
  pub args : AssetArgs

-- A method's call of another one on the same ledger.
abbrev pub on_ledger : {A : Type 0} → Throws MemoryLedger A → Throws AssetCall A
on_ledger m c = let (r, l) = m c.ledger in (r, record c { ledger = l })

-- `find_asset(id, &asset_type, token_address, token_id, out_total_supply)`
unfoldable pub find_into : ℕ → Throws AssetCall Bool
unfolding find_asset
find_into asset_id c =
    let (found, out) = find_asset asset_id c.ledger (record {
      asset_type = some c.args.asset_type;
      token_address = c.args.token_address;
      token_id = c.args.token_id;
      supply = c.args.out_total_supply;
    }) in
    (
      ok found,
      record c {
        args = record {
          asset_id = c.args.asset_id;
          token_address = out.token_address;
          token_id = out.token_id;
          out_total_supply = out.supply;
          asset_type = get_or out.asset_type c.args.asset_type;
        };
      },
    )

abbrev pub write_asset_id : ℕ → AssetCall → AssetCall
write_asset_id i c = record c { args = record c.args { asset_id = write c.args.asset_id i } }

-- `lassid_to_asset.insert({next_asset_id, *new_asset})`, which throws if the id is there.
unfoldable pub insert_asset : ℕ → Asset → Throws MemoryLedger (Unit {0})
insert_asset i a l =
    let (m, inserted) = insert i a l.lassid_to_asset in
    if inserted
    then (ok tt, record l { lassid_to_asset = m })
    else (err "Asset ID already exists" Code.insertion_error, l)

-- `asset_to_lassid.insert({asset_key, next_asset_id})`, which throws if the key is there.
unfoldable pub insert_asset_key : Bytes → ℕ → Throws MemoryLedger (Unit {0})
insert_asset_key key i l =
    let (m, inserted) = insert key i l.asset_to_lassid in
    if inserted
    then (ok tt, record l { asset_to_lassid = m })
    else (err "Asset Key already exists" Code.insertion_error, l)

-- `next_asset_id++`, a 64-bit number.
abbrev pub advance_asset_id : MemoryLedger → MemoryLedger
advance_asset_id l = record l { next_asset_id = (l.next_asset_id + 1) % 2 ^ 64 }

-- The limit on the ids that a ledger ever gives out.
unfoldable pub check_max_assets : Throws MemoryLedger (Unit {0})
check_max_assets = do
  full ← gets (λ l. leb l.max_assets l.next_asset_id)
  throw_if full "Max assets reached" Code.max_assets_reached

-- The base asset's id, where the new asset is of the base type.
unfoldable pub define_base : AssetType → ℕ → MemoryLedger → MemoryLedger
define_base AssetType.base i l =
    if l.base_asset_id_defined
    then l
    else record l { base_asset_id = i; base_asset_id_defined = true }
define_base t i l = l

-- Step 2 of the branch with no key; the call gives the new id.
unfoldable pub create_by_id : AssetType → Throws MemoryLedger ℕ
create_by_id asset_type = do
  check_max_assets
  defined ← gets (λ l. is_base asset_type && l.base_asset_id_defined)
  throw_if defined "Base asset already inserted" Code.insertion_error
  i ← gets (λ l. l.next_asset_id)
  insert_asset i (new_asset asset_type)
  modify (define_base asset_type i)
  modify advance_asset_id
  pure i

-- The id of the base asset, where `find` asks for it.
unfoldable pub aim_at_base : AssetType → Operation → AssetCall → AssetCall
aim_at_base asset_type operation c =
    if is_find operation && is_base asset_type && c.ledger.base_asset_id_defined
    then write_asset_id c.ledger.base_asset_id c
    else c

-- Step 1 of the branch with no key.
unfoldable pub search_by_id : AssetType → Operation → Throws AssetCall Bool
search_by_id asset_type operation = do
  modify (aim_at_base asset_type operation)
  given ← gets (λ c. c.args.asset_id)
  found ← find_into (get_or given 0)
  if found && removes operation then on_ledger (remove_asset (get_or given 0)) else pure tt
  throw_if (not found && must_find operation) "Asset not found" Code.asset_not_found
  pure found

-- The branch of CMA_LEDGER_ASSET_TYPE_ID and CMA_LEDGER_ASSET_TYPE_BASE.
unfoldable pub retrieve_by_id : AssetType → Operation → Throws AssetCall (Unit {0})
retrieve_by_id asset_type operation = do
  given ← gets (λ c. c.args.asset_id)
  or_throw given "Invalid asset id ptr" Code.e_inval
  found ← if searches operation then search_by_id asset_type operation else pure false
  if not found && creates operation
      then on_ledger (create_by_id asset_type) >>= (λ i. modify (write_asset_id i))
      else pure tt

-- Step 1 of the branches with a key.
unfoldable pub search_by_key : Bytes → Operation → Throws AssetCall Bool
search_by_key key operation = do
  known ← gets (λ c. find key c.ledger.asset_to_lassid)
  elim known [
    | none ↦ throw_if (must_find operation) "Asset not found" Code.asset_not_found >> pure false
    | some i ↦ do
      found ← find_into i
      throw_if (not found) "Asset by id not found" Code.asset_not_found
      modify (write_asset_id i)
      if removes operation then on_ledger (remove_asset i) else pure tt
      pure true
  ]

-- Step 2 of the branches with a key; the call gives the new id.
unfoldable pub create_by_key : Bytes → Asset → Throws MemoryLedger ℕ
create_by_key key asset = do
  check_max_assets
  i ← gets (λ l. l.next_asset_id)
  insert_asset_key key i
  insert_asset i asset
  modify advance_asset_id
  pure i

-- The branches of the types with a token address, for the key and the new asset that each builds.
unfoldable pub retrieve_by_key : Bytes → Asset → Operation → Throws AssetCall (Unit {0})
retrieve_by_key key asset operation = do
  found ← if searches operation then search_by_key key operation else pure false
  if not found && creates operation
      then on_ledger (create_by_key key asset) >>= (λ i. modify (write_asset_id i))
      else pure tt

unfoldable pub retrieve_by_address : Operation → Throws AssetCall (Unit {0})
retrieve_by_address operation = do
  given ← gets (λ c. c.args.token_address)
  address ← or_throw given "Invalid token address ptr" Code.e_inval
  retrieve_by_key (address_key address) (address_asset address) operation

unfoldable pub retrieve_by_address_id : AssetType → Operation → Throws AssetCall (Unit {0})
retrieve_by_address_id asset_type operation = do
  given ← gets (λ c. c.args.token_address)
  address ← or_throw given "Invalid token address ptr" Code.e_inval
  given_id ← gets (λ c. c.args.token_id)
  token_id ← or_throw given_id "Invalid token id ptr" Code.e_inval
  retrieve_by_key (address_id_key address token_id) (address_id_asset asset_type address token_id)
      operation

-- The `switch` on the type.
unfoldable pub retrieve_by_type : AssetType → Operation → Throws AssetCall (Unit {0})
retrieve_by_type AssetType.id operation = retrieve_by_id AssetType.id operation
retrieve_by_type AssetType.base operation = retrieve_by_id AssetType.base operation
retrieve_by_type AssetType.token_address operation = retrieve_by_address operation
retrieve_by_type t operation = retrieve_by_address_id t operation

unfoldable pub retrieve_asset : Operation → Throws AssetCall (Unit {0})
retrieve_asset operation c = retrieve_by_type c.args.asset_type operation c
