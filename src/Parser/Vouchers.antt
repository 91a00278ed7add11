-- ===== src/Parser/Vouchers.antt =====
-- The voucher encoders (src/parser_impl.cpp, src/parser.cpp): each fills the voucher's address and
-- value and writes its payload to the caller's buffer. libcmt's writing operations are parameters.
pub mod Kept
pub mod Made
pub mod Room
pub mod Tests
use machine_asset_tools.Prelude.{
  ℕ, ◌+◌, ◌-◌, ◌*◌, ◌/◌, ◌%◌, ◌^◌, ℤ, pos, Bool, true, false, not, Option, none, some,
  if◌then◌else◌, ltb, leb, ◌==◌, ◌&&◌, String, Result, ok, err, Throws, pure, throw, gets, ◌>>=◌,
  ◌>>◌, modify, throw_if, or_throw, replicate,
}
use machine_asset_tools.Parser.Types.{Bytes, Span, VoucherType}
use machine_asset_tools.Parser.Cmt.{Buf, Cmt, e_nobufs, e_inval}
use machine_asset_tools.Parser.Out.{Memory, CmtOut, cma_abi_put_uint256_list_d}
use machine_asset_tools.Parser.Abi.{failed, convert_to_cmt_funsel}

-- `cma_parser_voucher_data_t`: the fields of the union's member in use.
pub record VoucherData : Type 0 where
  pub receiver : Bytes
  pub token : Bytes
  pub token_id : Bytes
  pub amount : Bytes
  pub token_ids : Span
  pub amounts : Span
  pub exec_layer_data : Span

-- `cma_voucher_t`; `none` is a payload whose data is null.
pub record Voucher : Type 0 where
  pub address : Bytes
  pub value : Bytes
  pub payload_length : ℕ
  pub payload_data : Option ℕ

-- What an encoder writes.
pub record Encoder : Type 0 where
  pub memory : Memory
  pub buf : Buf
  pub voucher : Voucher

-- `length` bytes in whole words of 32, as the guards count them.
abbrev pub words : ℕ → ℕ
words length = (length / 32 + (if length % 32 == 0 then 0 else 1)) * 32

module _ (m : Cmt) (w : CmtOut) where
  -- A call that writes at the buffer's start and throws its code.
  unfoldable pub put : (Memory → Buf → ℤ × Memory × Buf) → String → Throws Encoder (Unit {0})
  put op message e =
      let (code, memory, b) = op e.memory e.buf in
      if failed code
      then (err message code, record e { memory = memory })
      else (ok tt, record e { memory = memory; buf = b })

  -- The same for an offset; the call gives the offset's place.
  unfoldable pub put_offset : String → Throws Encoder Buf
  put_offset message e =
      let (code, memory, offset, b) = w.cmt_abi_put_bytes_s e.memory e.buf in
      if failed code
      then (err message code, record e { memory = memory })
      else (ok offset, record e { memory = memory; buf = b })

  unfoldable pub mark_payload_frame : Throws Encoder Buf
  mark_payload_frame e =
      let (code, frame) = m.cmt_abi_mark_frame e.buf in
      if failed code then (err "Error marking frame" code, e) else (ok frame, e)

  -- Step 1 of the encoders with a payload: the buffer, of a payload that has room for `size` bytes.
  unfoldable pub open_payload : ℕ → Throws Encoder (Unit {0})
  open_payload size = do
    given ← gets (λ e. e.voucher.payload_data)
    start ← or_throw given "Invalid voucher payload buffer" e_nobufs
    room ← gets (λ e. e.voucher.payload_length)
    throw_if (ltb room size) "Invalid voucher payload buffersize" e_nobufs
    modify (λ e. record e { buf = m.cmt_buf_init room start })

  -- Steps 2 and 3: the voucher calls the token, with no value.
  unfoldable pub call_token : Bytes → Encoder → Encoder
  call_token token e = record e {
    voucher = record e.voucher { address = token; value = replicate 32 0 };
  }

  unfoldable pub put_selector : ℕ → Throws Encoder (Unit {0})
  unfolding put
  put_selector funsel =
      put (w.cmt_abi_put_funsel (convert_to_cmt_funsel m funsel)) "Error putting funsel"

  unfoldable pub cma_parser_encode_ether_voucher : VoucherData → Throws Encoder (Unit {0})
  cma_parser_encode_ether_voucher request = modify (λ e. record e {
    voucher = record {
      address = request.receiver;
      value = request.amount;
      payload_length = 0;
      payload_data = none;
    };
  })

  -- Steps 4 to 6.
  unfoldable pub erc20_payload : VoucherData → Throws Encoder (Unit {0})
  unfolding put_selector put
  erc20_payload request = do
    put_selector 0xa9059cbb
    put (w.cmt_abi_put_address request.receiver) "Error putting receiver"
    put (w.cmt_abi_put_uint256 request.amount) "Error putting amount"

  unfoldable pub cma_parser_encode_erc20_voucher : VoucherData → Throws Encoder (Unit {0})
  unfolding erc20_payload
  cma_parser_encode_erc20_voucher request = do
    open_payload 68
    modify (call_token request.token)
    erc20_payload request

  -- Steps 4 to 7.
  unfoldable pub erc721_payload : Bytes → VoucherData → Throws Encoder (Unit {0})
  unfolding put_selector put
  erc721_payload app_address request = do
    put_selector 0x42842e0e
    put (w.cmt_abi_put_address app_address) "Error putting sender"
    put (w.cmt_abi_put_address request.receiver) "Error putting receiver"
    put (w.cmt_abi_put_uint256 request.token_id) "Error putting amount"

  unfoldable pub cma_parser_encode_erc721_voucher : Bytes → VoucherData → Throws Encoder (Unit {0})
  unfolding erc721_payload
  cma_parser_encode_erc721_voucher app_address request = do
    open_payload 100
    modify (call_token request.token)
    erc721_payload app_address request

  -- Steps 4 to 10.
  unfoldable pub erc1155_single_payload : Bytes → VoucherData → Throws Encoder (Unit {0})
  unfolding put_selector put put_offset mark_payload_frame
  erc1155_single_payload app_address request = do
    put_selector 0xf242432a
    frame ← mark_payload_frame
    put (w.cmt_abi_put_address app_address) "Error putting sender"
    put (w.cmt_abi_put_address request.receiver) "Error putting receiver"
    put (w.cmt_abi_put_uint256 request.token_id) "Error putting amount"
    put (w.cmt_abi_put_uint256 request.amount) "Error putting amount"
    offset ← put_offset "Error putting offset"
    put (w.cmt_abi_put_bytes_d offset frame request.exec_layer_data) "Error putting data"

  unfoldable pub cma_parser_encode_erc1155_single_voucher :
      Bytes → VoucherData → Throws Encoder (Unit {0})
  unfolding erc1155_single_payload
  cma_parser_encode_erc1155_single_voucher app_address request = do
    open_payload ((196 + words request.exec_layer_data.length) % 2 ^ 64)
    modify (call_token request.token)
    erc1155_single_payload app_address request

  -- Steps 4 to 10.
  unfoldable pub erc1155_batch_payload : Bytes → VoucherData → Throws Encoder (Unit {0})
  unfolding put_selector put put_offset mark_payload_frame cma_abi_put_uint256_list_d
  erc1155_batch_payload app_address request = do
    put_selector 0x2eb2c2d6
    frame ← mark_payload_frame
    put (w.cmt_abi_put_address app_address) "Error putting sender"
    put (w.cmt_abi_put_address request.receiver) "Error putting receiver"
    offset_token_id ← put_offset "Error putting token id offset"
    offset_amount ← put_offset "Error putting amount offset"
    offset_exec ← put_offset "Error putting data offset"
    put (cma_abi_put_uint256_list_d m w offset_token_id frame request.token_ids)
        "Error putting token ids"
    put (cma_abi_put_uint256_list_d m w offset_amount frame request.amounts) "Error putting amounts"
    put (w.cmt_abi_put_bytes_d offset_exec frame request.exec_layer_data) "Error putting offset"

  unfoldable pub cma_parser_encode_erc1155_batch_voucher :
      Bytes → VoucherData → Throws Encoder (Unit {0})
  unfolding erc1155_batch_payload
  cma_parser_encode_erc1155_batch_voucher app_address request = do
    throw_if (not (request.token_ids.length == request.amounts.length))
        "Mismatched token ids and amounts lengths" e_inval
    open_payload
        ((260 + 2 * request.token_ids.length + 32 + words request.exec_layer_data.length) % 2 ^ 64)
    modify (call_token request.token)
    erc1155_batch_payload app_address request

  -- The `switch` on the type.
  unfoldable pub encode_type : VoucherType → Option Bytes → VoucherData → Throws Encoder (Unit {0})
  encode_type VoucherType.ether app request = cma_parser_encode_ether_voucher request
  encode_type VoucherType.erc20 app request = cma_parser_encode_erc20_voucher request
  encode_type VoucherType.erc721 (some app) request = cma_parser_encode_erc721_voucher app request
  encode_type VoucherType.erc721 none request = throw "Invalid app address" e_inval
  encode_type VoucherType.erc1155_single (some app) request =
      cma_parser_encode_erc1155_single_voucher app request
  encode_type VoucherType.erc1155_single none request = throw "Invalid app address" e_inval
  encode_type VoucherType.erc1155_batch (some app) request =
      cma_parser_encode_erc1155_batch_voucher app request
  encode_type VoucherType.erc1155_batch none request = throw "Invalid app address" e_inval
  encode_type VoucherType.none app request = throw "Invalid voucher type" e_inval

  -- The code that is returned, the memory and the voucher, and the last message.
  unfoldable pub cma_parser_encode_voucher :
      VoucherType
      → Option Bytes
      → Option VoucherData
      → Memory
      → Option Voucher
      → ℤ × Memory × Option Voucher × String
  cma_parser_encode_voucher t app none memory voucher =
      (e_inval, memory, voucher, "Invalid request")
  cma_parser_encode_voucher t app (some request) memory none =
      (e_inval, memory, none, "Invalid voucher output")
  cma_parser_encode_voucher t app (some request) memory (some voucher) =
      let (r, e) =
        encode_type t app request
          (record { memory = memory; buf = record { begin = 0; end = 0 }; voucher = voucher }) in
      elim r [
        | ok _ ↦ (pos 0, e.memory, some e.voucher, "")
        | err message code ↦ (code, e.memory, some e.voucher, message)
      ]
