-- ===== src/Parser/Vouchers/Room.antt =====
-- The sizes of the payloads of ERC-20 and ERC-721 vouchers, over a libcmt that writes where it has
-- room.
use machine_asset_tools.Prelude.{
  ℕ, ◌+◌, ◌≤◌, ◌≡◌, ℤ, pos, Option, none, some, arith, ok, String, Throws, ◌>>=◌, modify,
}
use machine_asset_tools.Parser.Types.{Bytes, VoucherType}
use machine_asset_tools.Parser.Cmt.{Buf, Cmt}
use machine_asset_tools.Parser.Out.{Memory, CmtOut}
use machine_asset_tools.Parser.Vouchers.{
  VoucherData, Voucher, Encoder, put, open_payload, call_token, put_selector, erc20_payload,
  erc721_payload, cma_parser_encode_erc20_voucher, cma_parser_encode_erc721_voucher, encode_type,
  cma_parser_encode_voucher,
}

-- A call that takes `n` bytes at the buffer's start when it has room for them.
abbrev pub Writes : ℕ → (Memory → Buf → ℤ × Memory × Buf) → Type 0
Writes n op =
    (memory : Memory) (b : Buf)
    → b.begin + n ≤ b.end
    → (after : Memory) × (op memory b ≡ (pos 0, after, record { begin = b.begin + n; end = b.end }))

-- What the sizes rely on.
pub record Roomy (m : Cmt) (w : CmtOut) : Type 0 where
  pub init : (n a : ℕ) → m.cmt_buf_init n a ≡ record { begin = a; end = a + n }
  pub funsel : (f : ℕ) → Writes 4 (w.cmt_abi_put_funsel f)
  pub address : (a : Bytes) → Writes 32 (w.cmt_abi_put_address a)
  pub uint256 : (u : Bytes) → Writes 32 (w.cmt_abi_put_uint256 u)

-- Steps that return when the buffer has room for `n` bytes, and take these.
Takes : ℕ → Throws Encoder (Unit {0}) → Type 0
Takes n k =
    (e : Encoder)
    → e.buf.begin + n ≤ e.buf.end
    → ((k e).0 ≡ ok tt) × ((k e).1.buf ≡ record { begin = e.buf.begin + n; end = e.buf.end })

bind-Takes :
    (n o : ℕ) (k l : Throws Encoder (Unit {0}))
    → Takes n k
    → Takes o l
    → Takes (n + o) (k >>= λ _. l)
unfolding Takes
bind-Takes n o k l hk hl e room = ground (arith, hk e (ground arith), hl (k e).1)

-- What an encoder starts from.
abbrev pub start_of : Memory → Voucher → Encoder
start_of memory v = record { memory = memory; buf = record { begin = 0; end = 0 }; voucher = v }

-- The room that a type of voucher with a fixed size takes, where the request can be encoded.
abbrev pub fixed_size : VoucherType → Option Bytes → Option ℕ
fixed_size VoucherType.none app = none
fixed_size VoucherType.ether app = none
fixed_size VoucherType.erc20 app = some 68
fixed_size VoucherType.erc721 none = none
fixed_size VoucherType.erc721 (some a) = some 100
fixed_size VoucherType.erc1155_single app = none
fixed_size VoucherType.erc1155_batch app = none

module _ (m : Cmt) (w : CmtOut) (cmt : Roomy m w) where
  put-Takes :
      (n : ℕ) (op : Memory → Buf → ℤ × Memory × Buf) (message : String)
      → Writes n op
      → Takes n (put m w op message)
  unfolding put Takes
  put-Takes n op message h e room = ground (arith, h e.memory e.buf room)

  erc20_payload-Takes : (request : VoucherData) → Takes 68 (erc20_payload m w request)
  unfolding erc20_payload put_selector
  erc20_payload-Takes request =
      bind-Takes 4 64 _ _ (put-Takes 4 _ _ (cmt.funsel _))
        (bind-Takes 32 32 _ _ (put-Takes 32 _ _ (cmt.address _)) (put-Takes 32 _ _ (cmt.uint256 _)))

  erc721_payload-Takes :
      (app : Bytes) (request : VoucherData) → Takes 100 (erc721_payload m w app request)
  unfolding erc721_payload put_selector
  erc721_payload-Takes app request = bind-Takes 4 96 _ _ (put-Takes 4 _ _ (cmt.funsel _)) (
      bind-Takes 32 64 _ _ (put-Takes 32 _ _ (cmt.address _)) (
        bind-Takes 32 32 _ _ (put-Takes 32 _ _ (cmt.address _)) (put-Takes 32 _ _ (cmt.uint256 _))))

  -- A payload of at least `n` bytes has room for steps that take these.
  open_payload-Returns :
      (n : ℕ) (token : Bytes) (body : Throws Encoder (Unit {0})) (e : Encoder) (start : ℕ)
      → Takes n body
      → e.voucher.payload_data ≡ some start
      → n ≤ e.voucher.payload_length
      → ((open_payload m w n >>= λ _. modify (call_token m w token) >>= λ _. body) e).0 ≡ ok tt
  unfolding open_payload call_token Takes
  open_payload-Returns n token body e start takes given room = ground (
    arith,
    cmt.init e.voucher.payload_length start,
    takes
        (record {
          memory = e.memory;
          buf = m.cmt_buf_init e.voucher.payload_length start;
          voucher = (call_token m w token e).voucher;
        })
        (ground (arith, cmt.init e.voucher.payload_length start)),
  )

  -- An encoder that returns gives the code 0.
  encode_voucher-Returns :
      (t : VoucherType) (app : Option Bytes) (request : VoucherData) (memory : Memory) (v : Voucher)
      → (encode_type m w t app request (start_of memory v)).0 ≡ ok tt
      → (cma_parser_encode_voucher m w t app (some request) memory (some v)).0 ≡ pos 0
  unfolding cma_parser_encode_voucher
  encode_voucher-Returns t app request memory v returns = ground (arith, returns)

  -- Over a libcmt that writes where it has room, 4 bytes for a selector and 32 for an address or a
  -- number, `cma_parser_encode_voucher` returns 0 for an ERC20 voucher whose payload has a buffer
  -- of at least 68 bytes, and for an ERC721 voucher with an application's address and a buffer of
  -- at least 100 bytes.
  pub encode_voucher-Fits :
      (t : VoucherType) (app : Option Bytes) (n : ℕ) (request : VoucherData) (memory : Memory)
      (v : Voucher) (start : ℕ)
      → fixed_size t app ≡ some n
      → v.payload_data ≡ some start
      → n ≤ v.payload_length
      → (cma_parser_encode_voucher m w t app (some request) memory (some v)).0 ≡ pos 0
  unfolding encode_type cma_parser_encode_erc20_voucher cma_parser_encode_erc721_voucher
  encode_voucher-Fits VoucherType.none app n request memory v start fixed given room = ground arith
  encode_voucher-Fits VoucherType.ether app n request memory v start fixed given room = ground arith
  encode_voucher-Fits VoucherType.erc1155_single app n request memory v start fixed given room =
      ground arith
  encode_voucher-Fits VoucherType.erc1155_batch app n request memory v start fixed given room =
      ground arith
  encode_voucher-Fits VoucherType.erc721 none n request memory v start fixed given room =
      ground arith
  encode_voucher-Fits VoucherType.erc20 app n request memory v start fixed given room =
      encode_voucher-Returns VoucherType.erc20 app request memory v (
        open_payload-Returns 68 request.token (erc20_payload m w request) (start_of memory v) start
          (erc20_payload-Takes request) given (ground arith))
  encode_voucher-Fits VoucherType.erc721 (some a) n request memory v start fixed given room =
      encode_voucher-Returns VoucherType.erc721 (some a) request memory v (
        open_payload-Returns 100 request.token (erc721_payload m w a request) (start_of memory v)
          start (erc721_payload-Takes a request) given (ground arith))
