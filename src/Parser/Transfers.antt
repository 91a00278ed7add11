-- ===== src/Parser/Transfers.antt =====
-- The transfer decoders of src/parser_impl.cpp and their selectors.
use machine_asset_tools.Prelude.{ℕ, Throws, ◌>>=◌, ◌>>◌}
use machine_asset_tools.Parser.Types.{Span, InputType, ParserInput}
use machine_asset_tools.Parser.Cmt.{Cmt}
use machine_asset_tools.Parser.Abi.{
  Reader, get_uint256, get_address, get_bytes_s, get_bytes_d, mark_frame, check_funsel, decoder,
  put_receiver, put_token, put_token_id, put_amount, put_exec,
}
use machine_asset_tools.Parser.Deposits.{get_batch}

-- TRANSFER_ETHER = 0xff67c903
abbrev pub transfer_ether : ℕ
transfer_ether = 4284991747

-- TRANSFER_ERC20 = 0x03d61dcd
abbrev pub transfer_erc20 : ℕ
transfer_erc20 = 64363981

-- TRANSFER_ERC721 = 0xaf615a5a
abbrev pub transfer_erc721 : ℕ
transfer_erc721 = 2942392922

-- TRANSFER_ERC1155_SINGLE = 0xe1c913ed
abbrev pub transfer_erc1155_single : ℕ
transfer_erc1155_single = 3788051437

-- TRANSFER_ERC1155_BATCH = 0x638ac6f9
abbrev pub transfer_erc1155_batch : ℕ
transfer_erc1155_batch = 1670039289

module _ (m : Cmt) where
  unfoldable pub ether_transfer_steps : Throws Reader (Unit {0})
  ether_transfer_steps = do
    check_funsel m transfer_ether
    frame ← mark_frame m
    get_uint256 m "Error getting receiver" put_receiver
    get_uint256 m "Error getting amount" put_amount
    offset ← get_bytes_s m "Error getting bytes offset"
    get_bytes_d m frame offset "Error getting bytes" put_exec

  abbrev pub cma_parser_decode_ether_transfer : Span → Throws ParserInput (Unit {0})
  cma_parser_decode_ether_transfer = decoder m InputType.ether_transfer ether_transfer_steps

  unfoldable pub erc20_transfer_steps : Throws Reader (Unit {0})
  erc20_transfer_steps = do
    check_funsel m transfer_erc20
    frame ← mark_frame m
    get_address m "Error getting token" put_token
    get_uint256 m "Error getting receiver" put_receiver
    get_uint256 m "Error getting amount" put_amount
    offset ← get_bytes_s m "Error getting bytes offset"
    get_bytes_d m frame offset "Error getting bytes" put_exec

  abbrev pub cma_parser_decode_erc20_transfer : Span → Throws ParserInput (Unit {0})
  cma_parser_decode_erc20_transfer = decoder m InputType.erc20_transfer erc20_transfer_steps

  unfoldable pub erc721_transfer_steps : Throws Reader (Unit {0})
  erc721_transfer_steps = do
    check_funsel m transfer_erc721
    frame ← mark_frame m
    get_address m "Error getting token" put_token
    get_uint256 m "Error getting receiver" put_receiver
    get_uint256 m "Error getting token id" put_token_id
    offset ← get_bytes_s m "Error getting bytes offset"
    get_bytes_d m frame offset "Error getting bytes" put_exec

  abbrev pub cma_parser_decode_erc721_transfer : Span → Throws ParserInput (Unit {0})
  cma_parser_decode_erc721_transfer = decoder m InputType.erc721_transfer erc721_transfer_steps

  unfoldable pub erc1155_single_transfer_steps : Throws Reader (Unit {0})
  erc1155_single_transfer_steps = do
    check_funsel m transfer_erc1155_single
    frame ← mark_frame m
    get_address m "Error getting token" put_token
    get_uint256 m "Error getting receiver" put_receiver
    get_uint256 m "Error getting token id" put_token_id
    get_uint256 m "Error getting amount" put_amount
    offset ← get_bytes_s m "Error getting bytes offset"
    get_bytes_d m frame offset "Error getting bytes" put_exec

  abbrev pub cma_parser_decode_erc1155_single_transfer : Span → Throws ParserInput (Unit {0})
  cma_parser_decode_erc1155_single_transfer =
      decoder m InputType.erc1155_single_transfer erc1155_single_transfer_steps

  unfoldable pub erc1155_batch_transfer_steps : Throws Reader (Unit {0})
  erc1155_batch_transfer_steps = do
    check_funsel m transfer_erc1155_batch
    frame ← mark_frame m
    get_address m "Error getting token" put_token
    get_uint256 m "Error getting receiver" put_receiver
    offset_token_id ← get_bytes_s m "Error getting bytes token id offset"
    offset_amount ← get_bytes_s m "Error getting bytes amount offset"
    offset_exec ← get_bytes_s m "Error getting bytes exec offset"
    get_batch m frame offset_token_id offset_amount
    get_bytes_d m frame offset_exec "Error getting bytes" put_exec

  abbrev pub cma_parser_decode_erc1155_batch_transfer : Span → Throws ParserInput (Unit {0})
  cma_parser_decode_erc1155_batch_transfer =
      decoder m InputType.erc1155_batch_transfer erc1155_batch_transfer_steps
