-- ===== src/Parser/Withdrawals.antt =====
-- The withdrawal decoders of src/parser_impl.cpp and their selectors.
use machine_asset_tools.Prelude.{ℕ, Throws, ◌>>=◌, ◌>>◌}
use machine_asset_tools.Parser.Types.{Span, InputType, ParserInput}
use machine_asset_tools.Parser.Cmt.{Cmt}
use machine_asset_tools.Parser.Abi.{
  Reader, get_uint256, get_address, get_bytes_s, get_bytes_d, mark_frame, check_funsel, decoder,
  put_token, put_token_id, put_amount, put_exec,
}
use machine_asset_tools.Parser.Deposits.{get_batch}

-- WITHDRAW_ETHER = 0x8cf70f0b
abbrev pub withdraw_ether : ℕ
withdraw_ether = 2365001483

-- WITHDRAW_ERC20 = 0x4f94d342
abbrev pub withdraw_erc20 : ℕ
withdraw_erc20 = 1335153474

-- WITHDRAW_ERC721 = 0x33acf293
abbrev pub withdraw_erc721 : ℕ
withdraw_erc721 = 866972307

-- WITHDRAW_ERC1155_SINGLE = 0x8bb0a811
abbrev pub withdraw_erc1155_single : ℕ
withdraw_erc1155_single = 2343610385

-- WITHDRAW_ERC1155_BATCH = 0x50c80019
abbrev pub withdraw_erc1155_batch : ℕ
withdraw_erc1155_batch = 1355284505

module _ (m : Cmt) where
  unfoldable pub ether_withdrawal_steps : Throws Reader (Unit {0})
  ether_withdrawal_steps = do
    check_funsel m withdraw_ether
    frame ← mark_frame m
    get_uint256 m "Error getting amount" put_amount
    offset ← get_bytes_s m "Error getting bytes offset"
    get_bytes_d m frame offset "Error getting bytes" put_exec

  abbrev pub cma_parser_decode_ether_withdrawal : Span → Throws ParserInput (Unit {0})
  cma_parser_decode_ether_withdrawal = decoder m InputType.ether_withdrawal ether_withdrawal_steps

  unfoldable pub erc20_withdrawal_steps : Throws Reader (Unit {0})
  erc20_withdrawal_steps = do
    check_funsel m withdraw_erc20
    frame ← mark_frame m
    get_address m "Error getting token" put_token
    get_uint256 m "Error getting amount" put_amount
    offset ← get_bytes_s m "Error getting bytes offset"
    get_bytes_d m frame offset "Error getting bytes" put_exec

  abbrev pub cma_parser_decode_erc20_withdrawal : Span → Throws ParserInput (Unit {0})
  cma_parser_decode_erc20_withdrawal = decoder m InputType.erc20_withdrawal erc20_withdrawal_steps

  unfoldable pub erc721_withdrawal_steps : Throws Reader (Unit {0})
  erc721_withdrawal_steps = do
    check_funsel m withdraw_erc721
    frame ← mark_frame m
    get_address m "Error getting token" put_token
    get_uint256 m "Error getting token id" put_token_id
    offset ← get_bytes_s m "Error getting bytes offset"
    get_bytes_d m frame offset "Error getting bytes" put_exec

  abbrev pub cma_parser_decode_erc721_withdrawal : Span → Throws ParserInput (Unit {0})
  cma_parser_decode_erc721_withdrawal =
      decoder m InputType.erc721_withdrawal erc721_withdrawal_steps

  unfoldable pub erc1155_single_withdrawal_steps : Throws Reader (Unit {0})
  erc1155_single_withdrawal_steps = do
    check_funsel m withdraw_erc1155_single
    frame ← mark_frame m
    get_address m "Error getting token" put_token
    get_uint256 m "Error getting token id" put_token_id
    get_uint256 m "Error getting amount" put_amount
    offset ← get_bytes_s m "Error getting bytes offset"
    get_bytes_d m frame offset "Error getting bytes" put_exec

  abbrev pub cma_parser_decode_erc1155_single_withdrawal : Span → Throws ParserInput (Unit {0})
  cma_parser_decode_erc1155_single_withdrawal =
      decoder m InputType.erc1155_single_withdrawal erc1155_single_withdrawal_steps

  unfoldable pub erc1155_batch_withdrawal_steps : Throws Reader (Unit {0})
  erc1155_batch_withdrawal_steps = do
    check_funsel m withdraw_erc1155_batch
    frame ← mark_frame m
    get_address m "Error getting token" put_token
    offset_token_id ← get_bytes_s m "Error getting bytes token id offset"
    offset_amount ← get_bytes_s m "Error getting bytes amount offset"
    offset_exec ← get_bytes_s m "Error getting bytes exec offset"
    get_batch m frame offset_token_id offset_amount
    get_bytes_d m frame offset_exec "Error getting bytes" put_exec

  abbrev pub cma_parser_decode_erc1155_batch_withdrawal : Span → Throws ParserInput (Unit {0})
  cma_parser_decode_erc1155_batch_withdrawal =
      decoder m InputType.erc1155_batch_withdrawal erc1155_batch_withdrawal_steps
