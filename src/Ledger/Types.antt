-- ===== src/Ledger/Types.antt =====
-- include/libcma/ledger.h and the structures of src/ledger_impl.h: codes, enumerations, assets,
-- accounts and the keys of the maps.
use machine_asset_tools.Prelude.{
  ℕ, List, ◌∷◌, ◌++◌, Bool, true, false, Option, none, some, replicate,
}
use machine_asset_tools.Amount.{Amount, zero_amount}

abbrev pub Bytes : Type 0
Bytes = List ℕ

-- `cma_ledger_retrieve_operation_t`
pub data Operation : Type 0 where
  find create find_or_create find_and_remove : Operation

-- `cma_ledger_asset_type_t`
pub data AssetType : Type 0 where
  id base token_address token_address_id token_address_id_amount : AssetType

-- `cma_ledger_account_type_t`
pub data AccountType : Type 0 where
  id wallet_address account_id : AccountType

-- The value of the enumeration, which is the first byte of an asset's key.
abbrev pub type_byte : AssetType → ℕ
type_byte AssetType.id = 0
type_byte AssetType.base = 1
type_byte AssetType.token_address = 2
type_byte AssetType.token_address_id = 3
type_byte AssetType.token_address_id_amount = 4

-- `cma_ledger_asset_struct_t`
pub record Asset : Type 0 where
  pub type : AssetType
  pub token_address : Bytes
  pub token_id : Bytes
  pub supply : Amount

-- `new cma_ledger_asset_struct_t()` with its type set.
abbrev pub new_asset : AssetType → Asset
new_asset t = record {
  type = t;
  token_address = replicate 20 0;
  token_id = replicate 32 0;
  supply = zero_amount;
}

-- `cma_ledger_account_t`: the union's 32 bytes, of which the last 20 are the address.
pub record Account : Type 0 where
  pub type : AccountType
  pub account_id : Bytes

-- The key of `asset_to_lassid` for a token address; the bytes of the id stay zero.
unfoldable pub address_key : Bytes → Bytes
address_key address = type_byte AssetType.token_address ∷ (address ++ replicate 32 0)

-- The key for an address and an id; both types with an id share the type byte.
unfoldable pub address_id_key : Bytes → Bytes → Bytes
address_id_key address token_id = type_byte AssetType.token_address_id ∷ (address ++ token_id)

-- A write through a pointer that may be null.
abbrev pub write : {A : Type 0} → Option A → A → Option A
write none v = none
write (some _) v = some v

abbrev pub finds : Operation → Bool
finds Operation.find = true
finds Operation.find_or_create = true
finds _ = false

abbrev pub creates : Operation → Bool
creates Operation.create = true
creates Operation.find_or_create = true
creates _ = false

abbrev pub is_find : Operation → Bool
is_find Operation.find = true
is_find _ = false

abbrev pub is_token_address_id : AssetType → Bool
is_token_address_id AssetType.token_address_id = true
is_token_address_id _ = false

-- The operations of `cma_ledger_memory`: those that look first, and those that fail if nothing is
-- found.
abbrev pub searches : Operation → Bool
searches Operation.create = false
searches _ = true

abbrev pub must_find : Operation → Bool
must_find Operation.find = true
must_find Operation.find_and_remove = true
must_find _ = false

abbrev pub removes : Operation → Bool
removes Operation.find_and_remove = true
removes _ = false

abbrev pub is_base : AssetType → Bool
is_base AssetType.base = true
is_base _ = false
