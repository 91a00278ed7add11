-- ===== src/Parser/Vouchers/Made.antt =====
-- What the voucher encoders make of the voucher, over any libcmt.
use machine_asset_tools.Prelude.{
  ℕ, ◌+◌, ◌*◌, ◌%◌, ◌^◌, ◌≤◌, ◌≡◌, ◌≢◌, Bool, not, throw_if, ℤ, pos, true, false, Option, none,
  some, arith, Result, ok, err, ltb, ◌⊎◌, inl, inr, refl, String, replicate, Bool-cases,
  Option-cases, ◌==◌, Throws, Result-cases, ◌>>=◌, modify,
}
use machine_asset_tools.Parser.Types.{Bytes, VoucherType}
use machine_asset_tools.Parser.Cmt.{Cmt, e_inval}
use machine_asset_tools.Parser.Abi.{failed}
use machine_asset_tools.Parser.Out.{Memory, CmtOut}
use machine_asset_tools.Parser.Vouchers.{
  VoucherData, Voucher, Encoder, words, open_payload, call_token, erc20_payload, erc721_payload,
  erc1155_single_payload, erc1155_batch_payload, cma_parser_encode_erc20_voucher,
  cma_parser_encode_erc721_voucher, cma_parser_encode_erc1155_single_voucher,
  cma_parser_encode_erc1155_batch_voucher, cma_parser_encode_ether_voucher, encode_type,
  cma_parser_encode_voucher,
}
use machine_asset_tools.Parser.Vouchers.Kept.{
  Kept, erc20_payload-Kept, erc721_payload-Kept, erc1155_single_payload-Kept,
  erc1155_batch_payload-Kept,
}

-- The voucher of a call of the token, with no value.
abbrev pub token_voucher : Bytes → Voucher → Voucher
token_voucher token v = record v { address = token; value = replicate 32 0 }

-- An encoder with a payload: one that returns had a buffer of `size` bytes and made the voucher of
-- the token; one that throws has a code that is not 0, and has left the voucher or made that one.
abbrev pub Encodes : ℕ → Bytes → Voucher → Result (Unit {0}) × Encoder → Type 0
Encodes size token v (ok _, e) =
    (v.payload_data ≢ none) × (size ≤ v.payload_length) × (e.voucher ≡ token_voucher token v)
Encodes size token v (err message code, e) =
    (failed code ≡ true) × ((e.voucher ≡ v) ⊎ (e.voucher ≡ token_voucher token v))

-- The room that the guards of the ERC-1155 encoders ask for.
abbrev pub single_size : VoucherData → ℕ
single_size request = (196 + words request.exec_layer_data.length) % 2 ^ 64

abbrev pub batch_size : VoucherData → ℕ
batch_size request =
    (260 + 2 * request.token_ids.length + 32 + words request.exec_layer_data.length) % 2 ^ 64

-- A voucher of the token whose payload has a buffer of `size` bytes.
abbrev pub MadeFor : ℕ → Bytes → Voucher → Voucher → Type 0
MadeFor size token v made =
    (v.payload_data ≢ none) × (size ≤ v.payload_length) × (made ≡ token_voucher token v)

-- What a request that is encoded gives of the voucher `v`, and what it must have had.
abbrev pub Accepted : VoucherType → Option Bytes → VoucherData → Voucher → Voucher → Type 0
Accepted VoucherType.none app request v made = ⊥
Accepted VoucherType.ether app request v made = made ≡ record {
  address = request.receiver;
  value = request.amount;
  payload_length = 0;
  payload_data = none;
}
Accepted VoucherType.erc20 app request v made = MadeFor 68 request.token v made
Accepted VoucherType.erc721 app request v made = (app ≢ none) × MadeFor 100 request.token v made
Accepted VoucherType.erc1155_single app request v made =
    (app ≢ none) × MadeFor (single_size request) request.token v made
Accepted VoucherType.erc1155_batch app request v made =
    (app ≢ none)
    × ((request.token_ids.length == request.amounts.length) ≡ true)
    × MadeFor (batch_size request) request.token v made

abbrev Encoded :
    VoucherType → Option Bytes → VoucherData → Voucher → Result (Unit {0}) × Encoder → Type 0
Encoded t app request v (ok _, e) = Accepted t app request v e.voucher
Encoded t app request v (err message code, e) =
    (failed code ≡ true) × ((e.voucher ≡ v) ⊎ (e.voucher ≡ token_voucher request.token v))

-- The code, the memory, the voucher and the message: a request or a voucher that is missing is
-- refused; else the code is 0 and the request was accepted, or the code is not 0 and the voucher is
-- as it was or has the address and the value of a call of the token.
abbrev pub Answers :
    VoucherType
    → Option Bytes
    → Option VoucherData
    → Option Voucher
    → ℤ × Memory × Option Voucher × String
    → Type 0
Answers t app none voucher (code, memory, after, message) = (code ≡ e_inval) × (after ≡ voucher)
Answers t app (some request) none (code, memory, after, message) = (code ≡ e_inval) × (after ≡ none)
Answers t app (some request) (some v) (code, memory, after, message) =
    ((code ≡ pos 0) × ((made : Voucher) × (after ≡ some made) × Accepted t app request v made))
    ⊎ ((failed code ≡ true) × ((after ≡ some v) ⊎ (after ≡ some (token_voucher request.token v))))

-- A guard that holds is passed.
throw_if-Encodes :
    (k : Throws Encoder (Unit {0})) (message : String) (code : ℤ) (size : ℕ) (token : Bytes)
    (v : Voucher) (c : Bool) (e : Encoder)
    → c ≡ true
    → Encodes size token v (k e)
    → Encodes size token v ((throw_if (not c) message code >>= λ _. k) e)
throw_if-Encodes k message code size token v true e holds h = h
throw_if-Encodes k message code size token v false e holds h = ground arith

module _ (m : Cmt) (w : CmtOut) where
  -- An encoder with a payload.
  with_payload :
      (size : ℕ) (token : Bytes) (body : Throws Encoder (Unit {0})) (e : Encoder)
      → Kept (token_voucher token e.voucher) body
      → Encodes size token e.voucher
          ((open_payload m w size >>= λ _. modify (call_token m w token) >>= λ _. body) e)
  unfolding open_payload call_token Kept
  with_payload size token body e kept = elim (Option-cases e.voucher.payload_data) [
    | inl r ↦ ground arith
    | inr (start, r) ↦ elim (Bool-cases (ltb e.voucher.payload_length size)) [
      | inl small ↦ ground arith
      | inr enough ↦ ground (
        arith,
        kept
            (record {
              memory = e.memory;
              buf = m.cmt_buf_init e.voucher.payload_length start;
              voucher = token_voucher token e.voucher;
            })
            refl,
      )
    ]
  ]

  cma_parser_encode_erc20_voucher-Encodes :
      (request : VoucherData) (e : Encoder)
      → Encodes 68 request.token e.voucher (cma_parser_encode_erc20_voucher m w request e)
  unfolding cma_parser_encode_erc20_voucher
  cma_parser_encode_erc20_voucher-Encodes request e =
      with_payload 68 request.token (erc20_payload m w request) e
        (erc20_payload-Kept m w (token_voucher request.token e.voucher) request)

  cma_parser_encode_erc721_voucher-Encodes :
      (app : Bytes) (request : VoucherData) (e : Encoder)
      → Encodes 100 request.token e.voucher (cma_parser_encode_erc721_voucher m w app request e)
  unfolding cma_parser_encode_erc721_voucher
  cma_parser_encode_erc721_voucher-Encodes app request e =
      with_payload 100 request.token (erc721_payload m w app request) e
        (erc721_payload-Kept m w (token_voucher request.token e.voucher) app request)

  cma_parser_encode_erc1155_single_voucher-Encodes :
      (app : Bytes) (request : VoucherData) (e : Encoder)
      → Encodes
          (single_size request)
          request.token
          e.voucher
          (cma_parser_encode_erc1155_single_voucher m w app request e)
  unfolding cma_parser_encode_erc1155_single_voucher
  cma_parser_encode_erc1155_single_voucher-Encodes app request e =
      with_payload (single_size request) request.token (erc1155_single_payload m w app request) e
        (erc1155_single_payload-Kept m w (token_voucher request.token e.voucher) app request)

  cma_parser_encode_erc1155_batch_voucher-Encodes :
      (app : Bytes) (request : VoucherData) (e : Encoder)
      → (request.token_ids.length == request.amounts.length) ≡ true
      → Encodes
          (batch_size request)
          request.token
          e.voucher
          (cma_parser_encode_erc1155_batch_voucher m w app request e)
  unfolding cma_parser_encode_erc1155_batch_voucher
  cma_parser_encode_erc1155_batch_voucher-Encodes app request e same =
      throw_if-Encodes
        (open_payload m w (batch_size request) >>= λ _.
          modify (call_token m w request.token) >>= λ _. erc1155_batch_payload m w app request)
        "Mismatched token ids and amounts lengths" e_inval (batch_size request) request.token
        e.voucher (request.token_ids.length == request.amounts.length) e same
        (with_payload (batch_size request) request.token (erc1155_batch_payload m w app request) e
          (erc1155_batch_payload-Kept m w (token_voucher request.token e.voucher) app request))

  encode_type-Encoded :
      (t : VoucherType) (app : Option Bytes) (request : VoucherData) (e : Encoder)
      → Encoded t app request e.voucher (encode_type m w t app request e)
  unfolding encode_type cma_parser_encode_ether_voucher cma_parser_encode_erc1155_batch_voucher
  encode_type-Encoded VoucherType.none app request e = (refl, inl refl)
  encode_type-Encoded VoucherType.ether app request e = refl
  encode_type-Encoded VoucherType.erc20 app request e =
      ground (arith, cma_parser_encode_erc20_voucher-Encodes request e)
  encode_type-Encoded VoucherType.erc721 none request e = (refl, inl refl)
  encode_type-Encoded VoucherType.erc721 (some a) request e =
      ground (arith, cma_parser_encode_erc721_voucher-Encodes a request e)
  encode_type-Encoded VoucherType.erc1155_single none request e = (refl, inl refl)
  encode_type-Encoded VoucherType.erc1155_single (some a) request e =
      ground (arith, cma_parser_encode_erc1155_single_voucher-Encodes a request e)
  encode_type-Encoded VoucherType.erc1155_batch none request e = (refl, inl refl)
  encode_type-Encoded VoucherType.erc1155_batch (some a) request e =
      elim (Bool-cases (request.token_ids.length == request.amounts.length)) [
        | inl same ↦
            ground (arith, cma_parser_encode_erc1155_batch_voucher-Encodes a request e same)
        | inr differ ↦ ground arith
      ]

  -- For every type, request and voucher and every libcmt, `cma_parser_encode_voucher` answers a
  -- request or a voucher that is null with -EINVAL. Otherwise it either returns 0, having made an
  -- Ether voucher of the receiver and the amount with an empty payload, or a voucher of the token
  -- with no value, whose payload had the buffer, the size and, by type, the application's address
  -- and the equal lengths that are asked for; or it returns a code that is not 0 and has left the
  -- voucher or set only that address and value.
  pub cma_parser_encode_voucher-Answers :
      (t : VoucherType) (app : Option Bytes) (request : Option VoucherData) (memory : Memory)
      (voucher : Option Voucher)
      → Answers t app request voucher (cma_parser_encode_voucher m w t app request memory voucher)
  unfolding cma_parser_encode_voucher
  cma_parser_encode_voucher-Answers t app none memory voucher = (refl, refl)
  cma_parser_encode_voucher-Answers t app (some request) memory none = (refl, refl)
  cma_parser_encode_voucher-Answers t app (some request) memory (some v) =
      let e : Encoder = record {
        memory = memory;
        buf = record { begin = 0; end = 0 };
        voucher = v;
      } in
      elim (Result-cases (encode_type m w t app request e).0) [
        | inl (a, r) ↦ ground (arith, encode_type-Encoded t app request e)
        | inr (message, code, r) ↦ ground (arith, encode_type-Encoded t app request e)
      ]
