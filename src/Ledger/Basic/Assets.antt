-- ===== src/Ledger/Basic/Assets.antt =====
-- `cma_ledger_basic::retrieve_asset` (src/ledger_impl.cpp): find an asset or register a new one.
pub mod Outcome
pub mod Registry
pub mod Lookup
pub mod Distinct
use mathlib.Core.Option.{get_or}
use machine_asset_tools.Prelude.{
  ℕ, Bool, true, false, not, Option, none, some, if◌then◌else◌, Result, ok, err, Throws, pure,
  throw, gets, ◌>>=◌, ◌>>◌, modify, throw_if, or_throw, nat_key, bytes_key,
}
use machine_asset_tools.Amount.{Amount}
use machine_asset_tools.Map.{find, insert}
use machine_asset_tools.Ledger.Types.{
  Bytes, Asset, AssetType, Operation, new_asset, address_key, address_id_key, write, finds, creates,
  is_find,
}
use machine_asset_tools.Ledger.Code
use machine_asset_tools.Ledger.Basic.{BasicLedger, AssetOut, find_asset, get_asset_count}

-- The caller's variables: pointers that may be null, and the reference to the type.
pub record AssetArgs : Type 0 where
  pub asset_id : Option ℕ
  pub token_address : Option Bytes
  pub token_id : Option Bytes
  pub out_total_supply : Option Amount
  pub asset_type : AssetType

-- The ledger and the caller's variables, both of which a call writes.
pub record AssetCall : Type 0 where
  pub ledger : BasicLedger
  pub args : AssetArgs

-- `find_asset(id, &asset_type, token_address, token_id, out_total_supply)`
unfoldable pub find_into : ℕ → Throws AssetCall Bool
unfolding find_asset
find_into asset_id c =
    let (r, out) = find_asset asset_id c.ledger (record {
      asset_type = some c.args.asset_type;
      token_address = c.args.token_address;
      token_id = c.args.token_id;
      supply = c.args.out_total_supply;
    }) in
    (
      r,
      record c {
        args = record {
          asset_id = c.args.asset_id;
          token_address = out.token_address;
          token_id = out.token_id;
          out_total_supply = out.supply;
          asset_type = get_or out.asset_type c.args.asset_type;
        };
      },
    )

abbrev pub write_asset_id : ℕ → AssetCall → AssetCall
write_asset_id i c = record c { args = record c.args { asset_id = write c.args.asset_id i } }

-- `lassid_to_asset.insert({curr_size, *new_asset})`, which throws if the id is there.
unfoldable pub insert_asset : ℕ → Asset → Throws AssetCall (Unit {0})
insert_asset i a c =
    let (m, inserted) = insert i a c.ledger.lassid_to_asset in
    if inserted
    then (ok tt, record c { ledger = record c.ledger { lassid_to_asset = m } })
    else (err "Asset ID already exists" Code.insertion_error, c)

-- `asset_to_lassid.insert({asset_key, curr_size})`, which throws if the key is there.
unfoldable pub insert_asset_key : Bytes → ℕ → Throws AssetCall (Unit {0})
insert_asset_key key i c =
    let (m, inserted) = insert key i c.ledger.asset_to_lassid in
    if inserted
    then (ok tt, record c { ledger = record c.ledger { asset_to_lassid = m } })
    else (err "Asset Key already exists" Code.insertion_error, c)

-- The branch of CMA_LEDGER_ASSET_TYPE_ID.
unfoldable pub retrieve_by_id : ℕ → Operation → Throws AssetCall (Unit {0})
retrieve_by_id curr_size operation = do
  given ← gets (λ c. c.args.asset_id)
  asset_id ← or_throw given "Invalid asset id ptr" Code.e_inval
  found ← if finds operation then find_into asset_id else pure false
  if found
      then pure tt
      else if is_find operation
      then throw "Asset not found" Code.asset_not_found
      else if creates operation
      then insert_asset curr_size (new_asset AssetType.id) >> modify (write_asset_id curr_size)
      else pure tt

-- The search of the branches with a key: whether the asset was found.
unfoldable pub find_by_key : Bytes → Throws AssetCall Bool
find_by_key key = do
  known ← gets (λ c. find key c.ledger.asset_to_lassid)
  elim known [
    | none ↦ pure false
    | some i ↦ do
      found ← find_into i
      throw_if (not found) "Asset by id not found" Code.asset_not_found
      modify (write_asset_id i)
      pure true
  ]

-- The branches of the types with a token address, for the key and the new asset that each builds.
unfoldable pub retrieve_by_key : Bytes → Asset → ℕ → Operation → Throws AssetCall (Unit {0})
retrieve_by_key key asset curr_size operation = do
  found ← if finds operation then find_by_key key else pure false
  if found
      then pure tt
      else if is_find operation
      then throw "Asset not found" Code.asset_not_found
      else if creates operation
      then (do
        insert_asset_key key curr_size
        insert_asset curr_size asset
        modify (write_asset_id curr_size))
      else pure tt

-- The new asset with the bytes that the caller gave.
abbrev pub address_asset : Bytes → Asset
address_asset address = record (new_asset AssetType.token_address) { token_address = address }

abbrev pub address_id_asset : AssetType → Bytes → Bytes → Asset
address_id_asset asset_type address token_id = record (new_asset asset_type) {
  token_address = address;
  token_id = token_id;
}

-- The branch of CMA_LEDGER_ASSET_TYPE_TOKEN_ADDRESS.
unfoldable pub retrieve_by_address : ℕ → Operation → Throws AssetCall (Unit {0})
retrieve_by_address curr_size operation = do
  given ← gets (λ c. c.args.token_address)
  address ← or_throw given "Invalid token address ptr" Code.e_inval
  retrieve_by_key (address_key address) (address_asset address) curr_size operation

-- The branch of the two types with a token address and a token id.
unfoldable pub retrieve_by_address_id : AssetType → ℕ → Operation → Throws AssetCall (Unit {0})
retrieve_by_address_id asset_type curr_size operation = do
  given ← gets (λ c. c.args.token_address)
  address ← or_throw given "Invalid token address ptr" Code.e_inval
  given_id ← gets (λ c. c.args.token_id)
  token_id ← or_throw given_id "Invalid token id ptr" Code.e_inval
  retrieve_by_key (address_id_key address token_id) (address_id_asset asset_type address token_id)
      curr_size operation

-- The `switch` on the type.
unfoldable pub retrieve_by_type : AssetType → ℕ → Operation → Throws AssetCall (Unit {0})
retrieve_by_type AssetType.id curr_size operation = retrieve_by_id curr_size operation
retrieve_by_type AssetType.token_address curr_size operation =
    retrieve_by_address curr_size operation
retrieve_by_type AssetType.token_address_id curr_size operation =
    retrieve_by_address_id AssetType.token_address_id curr_size operation
retrieve_by_type AssetType.token_address_id_amount curr_size operation =
    retrieve_by_address_id AssetType.token_address_id_amount curr_size operation
retrieve_by_type AssetType.base curr_size operation = throw "Invalid asset type" Code.e_inval

unfoldable pub retrieve_asset : Operation → Throws AssetCall (Unit {0})
retrieve_asset operation c =
    retrieve_by_type c.args.asset_type (get_asset_count c.ledger) operation c
