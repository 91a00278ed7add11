-- ===== src/Parser/Codes.antt =====
-- Every exception of an advance decoder carries a code that is not 0 (src/parser_impl.cpp), and so
-- the C interface returns 0 exactly when its decoder returned (src/parser.cpp).
use machine_asset_tools.Prelude.{
  ℕ, ℤ, pos, ◌≡◌, refl, true, Option, some, String, Result, ok, err, Throws, throw, Result-cases,
  arith, inl, inr,
}
use machine_asset_tools.Parser.Types.{Bytes, Span, InputType, ParserInput}
use machine_asset_tools.Parser.Cmt.{Buf, Cmt, e_inval}
use machine_asset_tools.Parser.Abi.{
  Reader, Put, failed, decoder, cma_abi_get_bytes, cma_abi_get_uint256_list_d,
  cma_abi_get_address_packed, cma_abi_get_bytes_packed, check_funsel, mark_frame, get_address,
  get_uint256, get_bytes_s, get_bytes_d, rest_as_payload,
}
use machine_asset_tools.Parser.Deposits.{
  get_batch, base_and_exec, deposit_data, ether_deposit_steps, erc20_deposit_steps,
  erc721_deposit_steps, erc1155_single_deposit_steps, erc1155_batch_deposit_steps,
}
use machine_asset_tools.Parser.Withdrawals.{
  ether_withdrawal_steps, erc20_withdrawal_steps, erc721_withdrawal_steps,
  erc1155_single_withdrawal_steps, erc1155_batch_withdrawal_steps,
}
use machine_asset_tools.Parser.Transfers.{
  ether_transfer_steps, erc20_transfer_steps, erc721_transfer_steps, erc1155_single_transfer_steps,
  erc1155_batch_transfer_steps,
}
use machine_asset_tools.Parser.Advance.{
  rows, cma_parser_decode_advance_auto, decode_type, cma_parser_decode_advance,
}
use machine_asset_tools.Parser.Chain.{no_rows, ◌&◌, chain-keeps}

-- A run that throws has a code that is not 0.
abbrev pub IsCoded : {A S : Type 0} → Result A × S → Type 0
IsCoded (ok _, s) = Unit {0}
IsCoded (err _ code, s) = failed code ≡ true

module _ (m : Cmt) where
  cma_abi_get_address_packed-IsCoded :
      (put : Put Bytes) (s : Reader) → IsCoded (cma_abi_get_address_packed m put s)
  unfolding cma_abi_get_address_packed cma_abi_get_bytes
  cma_abi_get_address_packed-IsCoded put s = ground arith

  cma_abi_get_bytes_packed-IsCoded :
      (put : Put Span) (s : Reader) → IsCoded (cma_abi_get_bytes_packed m put s)
  unfolding cma_abi_get_bytes_packed
  cma_abi_get_bytes_packed-IsCoded put s = ground arith

  get_uint256-IsCoded :
      (message : String) (put : Put Bytes) (s : Reader) → IsCoded (get_uint256 m message put s)
  unfolding get_uint256
  get_uint256-IsCoded message put s = ground arith

  get_address-IsCoded :
      (message : String) (put : Put Bytes) (s : Reader) → IsCoded (get_address m message put s)
  unfolding get_address
  get_address-IsCoded message put s = ground arith

  get_bytes_s-IsCoded : (message : String) (s : Reader) → IsCoded (get_bytes_s m message s)
  unfolding get_bytes_s
  get_bytes_s-IsCoded message s = ground arith

  get_bytes_d-IsCoded :
      (frame offset : Buf) (message : String) (put : Put Span) (s : Reader)
      → IsCoded (get_bytes_d m frame offset message put s)
  unfolding get_bytes_d
  get_bytes_d-IsCoded frame offset message put s = ground arith

  mark_frame-IsCoded : (s : Reader) → IsCoded (mark_frame m s)
  unfolding mark_frame
  mark_frame-IsCoded s = ground arith

  check_funsel-IsCoded : (selector : ℕ) (s : Reader) → IsCoded (check_funsel m selector s)
  unfolding check_funsel
  check_funsel-IsCoded selector s = ground arith

  get_batch-IsCoded : (frame a b : Buf) (s : Reader) → IsCoded (get_batch m frame a b s)
  unfolding get_batch cma_abi_get_uint256_list_d
  get_batch-IsCoded frame a b s = ground arith

  base_and_exec-IsCoded : (frame a b : Buf) (s : Reader) → IsCoded (base_and_exec m frame a b s)
  unfolding base_and_exec get_bytes_d
  base_and_exec-IsCoded frame a b s = ground arith

ruleset coded_deposit = (
  arith, cma_abi_get_address_packed-IsCoded, cma_abi_get_bytes_packed-IsCoded, get_uint256-IsCoded,
  get_bytes_s-IsCoded, mark_frame-IsCoded, get_batch-IsCoded, base_and_exec-IsCoded,
)

ruleset coded_call = (
  arith, get_uint256-IsCoded, get_address-IsCoded, get_bytes_s-IsCoded, get_bytes_d-IsCoded,
  mark_frame-IsCoded, check_funsel-IsCoded, get_batch-IsCoded,
)

module _ (m : Cmt) where
  ether_deposit-IsCoded : (s : Reader) → IsCoded (ether_deposit_steps m s)
  unfolding ether_deposit_steps
  ether_deposit-IsCoded s = grind coded_deposit

  erc20_deposit-IsCoded : (s : Reader) → IsCoded (erc20_deposit_steps m s)
  unfolding erc20_deposit_steps
  erc20_deposit-IsCoded s = grind coded_deposit

  erc721_deposit-IsCoded : (s : Reader) → IsCoded (erc721_deposit_steps m s)
  unfolding erc721_deposit_steps deposit_data rest_as_payload
  erc721_deposit-IsCoded s = grind coded_deposit

  erc1155_single_deposit-IsCoded : (s : Reader) → IsCoded (erc1155_single_deposit_steps m s)
  unfolding erc1155_single_deposit_steps deposit_data rest_as_payload
  erc1155_single_deposit-IsCoded s = grind coded_deposit

  erc1155_batch_deposit-IsCoded : (s : Reader) → IsCoded (erc1155_batch_deposit_steps m s)
  unfolding erc1155_batch_deposit_steps rest_as_payload
  erc1155_batch_deposit-IsCoded s = grind coded_deposit

  ether_withdrawal-IsCoded : (s : Reader) → IsCoded (ether_withdrawal_steps m s)
  unfolding ether_withdrawal_steps
  ether_withdrawal-IsCoded s = grind coded_call

  erc20_withdrawal-IsCoded : (s : Reader) → IsCoded (erc20_withdrawal_steps m s)
  unfolding erc20_withdrawal_steps
  erc20_withdrawal-IsCoded s = grind coded_call

  erc721_withdrawal-IsCoded : (s : Reader) → IsCoded (erc721_withdrawal_steps m s)
  unfolding erc721_withdrawal_steps
  erc721_withdrawal-IsCoded s = grind coded_call

  erc1155_single_withdrawal-IsCoded : (s : Reader) → IsCoded (erc1155_single_withdrawal_steps m s)
  unfolding erc1155_single_withdrawal_steps
  erc1155_single_withdrawal-IsCoded s = grind coded_call

  erc1155_batch_withdrawal-IsCoded : (s : Reader) → IsCoded (erc1155_batch_withdrawal_steps m s)
  unfolding erc1155_batch_withdrawal_steps
  erc1155_batch_withdrawal-IsCoded s = grind coded_call

  ether_transfer-IsCoded : (s : Reader) → IsCoded (ether_transfer_steps m s)
  unfolding ether_transfer_steps
  ether_transfer-IsCoded s = grind coded_call

  erc20_transfer-IsCoded : (s : Reader) → IsCoded (erc20_transfer_steps m s)
  unfolding erc20_transfer_steps
  erc20_transfer-IsCoded s = grind coded_call

  erc721_transfer-IsCoded : (s : Reader) → IsCoded (erc721_transfer_steps m s)
  unfolding erc721_transfer_steps
  erc721_transfer-IsCoded s = grind coded_call

  erc1155_single_transfer-IsCoded : (s : Reader) → IsCoded (erc1155_single_transfer_steps m s)
  unfolding erc1155_single_transfer_steps
  erc1155_single_transfer-IsCoded s = grind coded_call

  erc1155_batch_transfer-IsCoded : (s : Reader) → IsCoded (erc1155_batch_transfer_steps m s)
  unfolding erc1155_batch_transfer_steps
  erc1155_batch_transfer-IsCoded s = grind coded_call

  decoder-IsCoded :
      (t : InputType) (steps : Throws Reader (Unit {0})) (payload : Span) (p : ParserInput)
      → ((s : Reader) → IsCoded (steps s))
      → IsCoded (decoder m t steps payload p)
  unfolding decoder
  decoder-IsCoded t steps payload p h =
      coded
        (steps (record { buf = m.cmt_buf_init payload.length payload.start; fields = p.fields }))
        (h _)
    where
      coded :
          (r : Result (Unit {0}) × Reader)
          → IsCoded r
          → IsCoded {A = Unit {0}} {S = ParserInput} (
              let (x, s) = r in
              elim x [
                | ok _ ↦ (ok tt, record { type = t; fields = s.fields })
                | err message code ↦ (err message code, record p { fields = s.fields })
              ])
      coded (ok _, s) c = tt
      coded (err _ _, s) c = c

  auto-IsCoded :
      (payload : Span) (p : ParserInput) → IsCoded (cma_parser_decode_advance_auto m payload p)
  unfolding cma_parser_decode_advance_auto rows
  auto-IsCoded payload p =
      chain-keeps m p IsCoded (rows m payload) (λ _. throw "Invalid funsel" e_inval) _
        (decoder-IsCoded InputType.ether_withdrawal (ether_withdrawal_steps m) payload p
            ether_withdrawal-IsCoded
          & decoder-IsCoded InputType.erc20_withdrawal (erc20_withdrawal_steps m) payload p
              erc20_withdrawal-IsCoded
          & decoder-IsCoded InputType.erc721_withdrawal (erc721_withdrawal_steps m) payload p
              erc721_withdrawal-IsCoded
          & decoder-IsCoded InputType.erc1155_single_withdrawal (erc1155_single_withdrawal_steps m)
              payload p erc1155_single_withdrawal-IsCoded
          & decoder-IsCoded InputType.erc1155_batch_withdrawal (erc1155_batch_withdrawal_steps m)
              payload p erc1155_batch_withdrawal-IsCoded
          & decoder-IsCoded InputType.ether_transfer (ether_transfer_steps m) payload p
              ether_transfer-IsCoded
          & decoder-IsCoded InputType.erc20_transfer (erc20_transfer_steps m) payload p
              erc20_transfer-IsCoded
          & decoder-IsCoded InputType.erc721_transfer (erc721_transfer_steps m) payload p
              erc721_transfer-IsCoded
          & decoder-IsCoded InputType.erc1155_single_transfer (erc1155_single_transfer_steps m)
              payload p erc1155_single_transfer-IsCoded
          & decoder-IsCoded InputType.erc1155_batch_transfer (erc1155_batch_transfer_steps m)
              payload p erc1155_batch_transfer-IsCoded
          & no_rows)
        (λ _. refl)

  decode_type-IsCoded :
      (t : InputType) (payload : Span) (p : ParserInput) → IsCoded (decode_type m t payload p)
  unfolding decode_type
  decode_type-IsCoded InputType.auto payload p = auto-IsCoded payload p
  decode_type-IsCoded InputType.ether_deposit payload p =
      decoder-IsCoded InputType.ether_deposit (ether_deposit_steps m) payload p
        ether_deposit-IsCoded
  decode_type-IsCoded InputType.erc20_deposit payload p =
      decoder-IsCoded InputType.erc20_deposit (erc20_deposit_steps m) payload p
        erc20_deposit-IsCoded
  decode_type-IsCoded InputType.erc721_deposit payload p =
      decoder-IsCoded InputType.erc721_deposit (erc721_deposit_steps m) payload p
        erc721_deposit-IsCoded
  decode_type-IsCoded InputType.erc1155_single_deposit payload p =
      decoder-IsCoded InputType.erc1155_single_deposit (erc1155_single_deposit_steps m) payload p
        erc1155_single_deposit-IsCoded
  decode_type-IsCoded InputType.erc1155_batch_deposit payload p =
      decoder-IsCoded InputType.erc1155_batch_deposit (erc1155_batch_deposit_steps m) payload p
        erc1155_batch_deposit-IsCoded
  decode_type-IsCoded InputType.ether_withdrawal payload p =
      decoder-IsCoded InputType.ether_withdrawal (ether_withdrawal_steps m) payload p
        ether_withdrawal-IsCoded
  decode_type-IsCoded InputType.erc20_withdrawal payload p =
      decoder-IsCoded InputType.erc20_withdrawal (erc20_withdrawal_steps m) payload p
        erc20_withdrawal-IsCoded
  decode_type-IsCoded InputType.erc721_withdrawal payload p =
      decoder-IsCoded InputType.erc721_withdrawal (erc721_withdrawal_steps m) payload p
        erc721_withdrawal-IsCoded
  decode_type-IsCoded InputType.erc1155_single_withdrawal payload p =
      decoder-IsCoded InputType.erc1155_single_withdrawal (erc1155_single_withdrawal_steps m)
        payload p erc1155_single_withdrawal-IsCoded
  decode_type-IsCoded InputType.erc1155_batch_withdrawal payload p =
      decoder-IsCoded InputType.erc1155_batch_withdrawal (erc1155_batch_withdrawal_steps m) payload
        p erc1155_batch_withdrawal-IsCoded
  decode_type-IsCoded InputType.ether_transfer payload p =
      decoder-IsCoded InputType.ether_transfer (ether_transfer_steps m) payload p
        ether_transfer-IsCoded
  decode_type-IsCoded InputType.erc20_transfer payload p =
      decoder-IsCoded InputType.erc20_transfer (erc20_transfer_steps m) payload p
        erc20_transfer-IsCoded
  decode_type-IsCoded InputType.erc721_transfer payload p =
      decoder-IsCoded InputType.erc721_transfer (erc721_transfer_steps m) payload p
        erc721_transfer-IsCoded
  decode_type-IsCoded InputType.erc1155_single_transfer payload p =
      decoder-IsCoded InputType.erc1155_single_transfer (erc1155_single_transfer_steps m) payload p
        erc1155_single_transfer-IsCoded
  decode_type-IsCoded InputType.erc1155_batch_transfer payload p =
      decoder-IsCoded InputType.erc1155_batch_transfer (erc1155_batch_transfer_steps m) payload p
        erc1155_batch_transfer-IsCoded
  decode_type-IsCoded InputType.none payload p = refl
  decode_type-IsCoded InputType.balance payload p = refl
  decode_type-IsCoded InputType.balance_account payload p = refl
  decode_type-IsCoded InputType.balance_account_token_address payload p = refl
  decode_type-IsCoded InputType.balance_account_token_address_id payload p = refl
  decode_type-IsCoded InputType.supply payload p = refl
  decode_type-IsCoded InputType.supply_token_address payload p = refl
  decode_type-IsCoded InputType.supply_token_address_id payload p = refl

-- The decoder returned, or threw; what the C interface makes of it.
pub data Reported (m : Cmt) (t : InputType) (payload : Span) (p : ParserInput)
    (r : ℤ × Option ParserInput × String) : Type 0 where
  returned :
      (decode_type m t payload p).0 ≡ ok tt
      → r ≡ (pos 0, some (decode_type m t payload p).1, "")
      → Reported m t payload p r
  threw :
      (message : String) (code : ℤ)
      → (decode_type m t payload p).0 ≡ err message code
      → failed code ≡ true
      → r ≡ (code, some (decode_type m t payload p).1, message)
      → Reported m t payload p r

-- For every type, payload and libcmt, `cma_parser_decode_advance` on pointers that are not null
-- either returns 0 with an empty message because the decoder returned, or returns the code and the
-- message of the exception, and this code is not 0; the parser input is what the decoder left.
pub decode_advance-Reported :
    (m : Cmt) (t : InputType) (payload : Span) (p : ParserInput)
    → Reported m t payload p (cma_parser_decode_advance m t (some payload) (some p))
unfolding cma_parser_decode_advance
decode_advance-Reported m t payload p =
    let coded = decode_type-IsCoded m t payload p in
    elim (Result-cases (decode_type m t payload p).0) [
      | inl (u, e) ↦ returned (ground arith) (ground arith)
      | inr (message, code, e) ↦ threw message code e (ground arith) (ground arith)
    ]
