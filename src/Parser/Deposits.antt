-- ===== src/Parser/Deposits.antt =====
-- The deposit decoders of src/parser_impl.cpp: the portals' packed encodings.
use machine_asset_tools.Prelude.{not, Throws, gets, ◌>>=◌, ◌>>◌, throw_if, ◌==◌}
use machine_asset_tools.Parser.Types.{Span, InputType, ParserInput}
use machine_asset_tools.Parser.Cmt.{Buf, Cmt, e_inval}
use machine_asset_tools.Parser.Abi.{
  Reader, cma_abi_get_bytes_packed, cma_abi_get_address_packed, cma_abi_get_uint256_list_d,
  get_uint256, get_bytes_s, get_bytes_d, mark_frame, rest_as_payload, decoder, put_sender,
  put_token, put_token_id, put_amount, put_token_ids, put_amounts, put_base, put_exec,
}

-- Token ids and amounts of a batch, which must be of one length.
unfoldable pub get_batch : Cmt → Buf → Buf → Buf → Throws Reader (Unit {0})
get_batch m frame offset_token_id offset_amount = do
  cma_abi_get_uint256_list_d m frame offset_token_id "Error getting base bytes" put_token_ids
  cma_abi_get_uint256_list_d m frame offset_amount "Error getting base bytes" put_amounts
  f ← gets (λ s. s.fields)
  throw_if (not (f.token_ids.length == f.amounts.length)) "Mismatched token ids and amounts lengths"
      e_inval

module _ (m : Cmt) where
  unfoldable pub ether_deposit_steps : Throws Reader (Unit {0})
  ether_deposit_steps = do
    cma_abi_get_address_packed m put_sender
    get_uint256 m "Error getting amount" put_amount
    cma_abi_get_bytes_packed m put_exec

  abbrev pub cma_parser_decode_ether_deposit : Span → Throws ParserInput (Unit {0})
  cma_parser_decode_ether_deposit = decoder m InputType.ether_deposit ether_deposit_steps

  unfoldable pub erc20_deposit_steps : Throws Reader (Unit {0})
  erc20_deposit_steps = do
    cma_abi_get_address_packed m put_token
    cma_abi_get_address_packed m put_sender
    get_uint256 m "Error getting amount" put_amount
    cma_abi_get_bytes_packed m put_exec

  abbrev pub cma_parser_decode_erc20_deposit : Span → Throws ParserInput (Unit {0})
  cma_parser_decode_erc20_deposit = decoder m InputType.erc20_deposit erc20_deposit_steps

  -- The two byte strings at the end of three deposits.
  unfoldable pub base_and_exec : Buf → Buf → Buf → Throws Reader (Unit {0})
  base_and_exec frame offset_base offset_exec = do
    get_bytes_d m frame offset_base "Error getting base bytes" put_base
    get_bytes_d m frame offset_exec "Error getting exec bytes" put_exec

  -- The ABI-encoded part of the ERC721 and ERC1155 single deposits.
  unfoldable pub deposit_data : Throws Reader (Unit {0})
  unfolding base_and_exec
  deposit_data = do
    rest_as_payload m
    frame ← mark_frame m
    offset_base ← get_bytes_s m "Error getting bytes base offset"
    offset_exec ← get_bytes_s m "Error getting bytes exec offset"
    base_and_exec frame offset_base offset_exec

  unfoldable pub erc721_deposit_steps : Throws Reader (Unit {0})
  unfolding deposit_data
  erc721_deposit_steps = do
    cma_abi_get_address_packed m put_token
    cma_abi_get_address_packed m put_sender
    get_uint256 m "Error getting token id" put_token_id
    deposit_data

  abbrev pub cma_parser_decode_erc721_deposit : Span → Throws ParserInput (Unit {0})
  cma_parser_decode_erc721_deposit = decoder m InputType.erc721_deposit erc721_deposit_steps

  unfoldable pub erc1155_single_deposit_steps : Throws Reader (Unit {0})
  unfolding deposit_data
  erc1155_single_deposit_steps = do
    cma_abi_get_address_packed m put_token
    cma_abi_get_address_packed m put_sender
    get_uint256 m "Error getting token id" put_token_id
    get_uint256 m "Error getting amount" put_amount
    deposit_data

  abbrev pub cma_parser_decode_erc1155_single_deposit : Span → Throws ParserInput (Unit {0})
  cma_parser_decode_erc1155_single_deposit =
      decoder m InputType.erc1155_single_deposit erc1155_single_deposit_steps

  unfoldable pub erc1155_batch_deposit_steps : Throws Reader (Unit {0})
  unfolding base_and_exec
  erc1155_batch_deposit_steps = do
    cma_abi_get_address_packed m put_token
    cma_abi_get_address_packed m put_sender
    rest_as_payload m
    frame ← mark_frame m
    offset_token_id ← get_bytes_s m "Error getting bytes token id offset"
    offset_amount ← get_bytes_s m "Error getting bytes amount offset"
    offset_base ← get_bytes_s m "Error getting bytes base offset"
    offset_exec ← get_bytes_s m "Error getting bytes exec offset"
    get_batch m frame offset_token_id offset_amount
    base_and_exec frame offset_base offset_exec

  abbrev pub cma_parser_decode_erc1155_batch_deposit : Span → Throws ParserInput (Unit {0})
  cma_parser_decode_erc1155_batch_deposit =
      decoder m InputType.erc1155_batch_deposit erc1155_batch_deposit_steps
