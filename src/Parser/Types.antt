-- ===== src/Parser/Types.antt =====
-- The structures of include/libcma/parser.h that the advance decoders write.
use machine_asset_tools.Prelude.{ℕ}
pub use machine_asset_tools.Ledger.Types.{Bytes}

-- `cma_parser_input_type_t`
pub data InputType : Type 0 where
  none auto : InputType
  ether_deposit erc20_deposit erc721_deposit erc1155_single_deposit erc1155_batch_deposit :
      InputType
  ether_withdrawal erc20_withdrawal erc721_withdrawal erc1155_single_withdrawal
        erc1155_batch_withdrawal :
      InputType
  ether_transfer erc20_transfer erc721_transfer erc1155_single_transfer erc1155_batch_transfer :
      InputType
  balance balance_account balance_account_token_address balance_account_token_address_id : InputType
  supply supply_token_address supply_token_address_id : InputType

-- `cma_abi_bytes_t` and `cma_abi_u256_list_t`: a length and the address where the data starts.
pub record Span : Type 0 where
  pub length : ℕ
  pub start : ℕ

-- The union's members have their fields under shared names, so one record holds those of the member
-- in use; the fields that this member lacks mean nothing.
pub record Fields : Type 0 where
  pub sender : Bytes
  pub receiver : Bytes
  pub token : Bytes
  pub token_id : Bytes
  pub amount : Bytes
  pub token_ids : Span
  pub amounts : Span
  pub base_layer_data : Span
  pub exec_layer_data : Span

-- `cma_parser_input_t`
pub record ParserInput : Type 0 where
  pub type : InputType
  pub fields : Fields

-- `cma_parser_voucher_type_t`
pub data VoucherType : Type 0 where
  none ether erc20 erc721 erc1155_single erc1155_batch : VoucherType
