-- ===== src/Parser/Advance.antt =====
-- The dispatch of the advance decoders: by the selector (src/parser_impl.cpp) and by the type that the
-- caller gives (src/parser.cpp).
use machine_asset_tools.Prelude.{
  List, [], ◌∷◌, ℕ, ℤ, pos, Option, none, some, String, ok, err, Throws, throw, if◌then◌else◌,
}
use machine_asset_tools.Parser.Types.{Span, InputType, ParserInput}
use machine_asset_tools.Parser.Cmt.{Buf, Cmt, e_inval}
use machine_asset_tools.Parser.Abi.{failed, convert_to_cmt_funsel}
use machine_asset_tools.Parser.Deposits.{
  cma_parser_decode_ether_deposit, cma_parser_decode_erc20_deposit,
  cma_parser_decode_erc721_deposit, cma_parser_decode_erc1155_single_deposit,
  cma_parser_decode_erc1155_batch_deposit,
}
use machine_asset_tools.Parser.Withdrawals.{
  withdraw_ether, withdraw_erc20, withdraw_erc721, withdraw_erc1155_single, withdraw_erc1155_batch,
  cma_parser_decode_ether_withdrawal, cma_parser_decode_erc20_withdrawal,
  cma_parser_decode_erc721_withdrawal, cma_parser_decode_erc1155_single_withdrawal,
  cma_parser_decode_erc1155_batch_withdrawal,
}
use machine_asset_tools.Parser.Transfers.{
  transfer_ether, transfer_erc20, transfer_erc721, transfer_erc1155_single, transfer_erc1155_batch,
  cma_parser_decode_ether_transfer, cma_parser_decode_erc20_transfer,
  cma_parser_decode_erc721_transfer, cma_parser_decode_erc1155_single_transfer,
  cma_parser_decode_erc1155_batch_transfer,
}

-- A row of the chain: a selector and its decoder.
abbrev pub Row : Type 0
Row = ℕ × Throws ParserInput (Unit {0})

module _ (m : Cmt) where
  -- `if (cmt_abi_check_funsel(buf, ...) == 0) { decode; return; }`, and then the rest on the buffer
  -- that the check left.
  unfoldable pub try_funsel :
      ℕ
      → Throws ParserInput (Unit {0})
      → (Buf → Throws ParserInput (Unit {0}))
      → Buf
      → Throws ParserInput (Unit {0})
  try_funsel selector decode otherwise buf =
      let (code, buf') = m.cmt_abi_check_funsel buf (convert_to_cmt_funsel m selector) in
      if failed code then otherwise buf' else decode

  -- The `if`s in their order, and what comes after the last.
  abbrev pub chain :
      List Row → (Buf → Throws ParserInput (Unit {0})) → Buf → Throws ParserInput (Unit {0})
  chain [] last = last
  chain ((g, decode) ∷ rest) last = try_funsel g decode (chain rest last)

  -- The selectors that are tried, and the decoder of each.
  unfoldable pub rows : Span → List Row
  rows payload =
      (withdraw_ether, cma_parser_decode_ether_withdrawal m payload)
      ∷ (withdraw_erc20, cma_parser_decode_erc20_withdrawal m payload)
      ∷ (withdraw_erc721, cma_parser_decode_erc721_withdrawal m payload)
      ∷ (withdraw_erc1155_single, cma_parser_decode_erc1155_single_withdrawal m payload)
      ∷ (withdraw_erc1155_batch, cma_parser_decode_erc1155_batch_withdrawal m payload)
      ∷ (transfer_ether, cma_parser_decode_ether_transfer m payload)
      ∷ (transfer_erc20, cma_parser_decode_erc20_transfer m payload)
      ∷ (transfer_erc721, cma_parser_decode_erc721_transfer m payload)
      ∷ (transfer_erc1155_single, cma_parser_decode_erc1155_single_transfer m payload)
      ∷ (transfer_erc1155_batch, cma_parser_decode_erc1155_batch_transfer m payload)
      ∷ []

  unfoldable pub cma_parser_decode_advance_auto : Span → Throws ParserInput (Unit {0})
  cma_parser_decode_advance_auto payload =
      chain (rows payload) (λ _. throw "Invalid funsel" e_inval)
        (m.cmt_buf_init payload.length payload.start)

  -- The `switch` on the type.
  unfoldable pub decode_type : InputType → Span → Throws ParserInput (Unit {0})
  decode_type t payload = elim t [
    | InputType.auto ↦ cma_parser_decode_advance_auto payload
    | InputType.ether_deposit ↦ cma_parser_decode_ether_deposit m payload
    | InputType.erc20_deposit ↦ cma_parser_decode_erc20_deposit m payload
    | InputType.erc721_deposit ↦ cma_parser_decode_erc721_deposit m payload
    | InputType.erc1155_single_deposit ↦ cma_parser_decode_erc1155_single_deposit m payload
    | InputType.erc1155_batch_deposit ↦ cma_parser_decode_erc1155_batch_deposit m payload
    | InputType.ether_withdrawal ↦ cma_parser_decode_ether_withdrawal m payload
    | InputType.erc20_withdrawal ↦ cma_parser_decode_erc20_withdrawal m payload
    | InputType.erc721_withdrawal ↦ cma_parser_decode_erc721_withdrawal m payload
    | InputType.erc1155_single_withdrawal ↦ cma_parser_decode_erc1155_single_withdrawal m payload
    | InputType.erc1155_batch_withdrawal ↦ cma_parser_decode_erc1155_batch_withdrawal m payload
    | InputType.ether_transfer ↦ cma_parser_decode_ether_transfer m payload
    | InputType.erc20_transfer ↦ cma_parser_decode_erc20_transfer m payload
    | InputType.erc721_transfer ↦ cma_parser_decode_erc721_transfer m payload
    | InputType.erc1155_single_transfer ↦ cma_parser_decode_erc1155_single_transfer m payload
    | InputType.erc1155_batch_transfer ↦ cma_parser_decode_erc1155_batch_transfer m payload
    | _ ↦ throw "Invalid advance decode type" e_inval
  ]

  -- Null pointers are `none`. The code, the parser input, and the thread's last error message.
  unfoldable pub cma_parser_decode_advance :
      InputType → Option Span → Option ParserInput → ℤ × Option ParserInput × String
  cma_parser_decode_advance t none p = (e_inval, p, "Invalid input")
  cma_parser_decode_advance t (some payload) none = (e_inval, none, "Invalid parser input")
  cma_parser_decode_advance t (some payload) (some p) =
      let (r, p') = decode_type t payload p in
      elim r [ ok _ ↦ (pos 0, some p', "") | err message code ↦ (code, some p', message) ]
