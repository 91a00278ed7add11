-- ===== src/Parser/Vouchers/Tests.antt =====
-- The voucher encoders over a small library in the place of libcmt.
use machine_asset_tools.Prelude.{
  ℕ, suc, ◌+◌, ◌-◌, ◌%◌, ◌/◌, ◌≤◌, ◌≡◌, ℤ, pos, some, none, Option, String, [], ◌∷◌, ◌++◌,
  replicate, ◌==◌, leb, if◌then◌else◌, arith, refl,
}
use machine_asset_tools.Parser.Types.{Bytes, Span, VoucherType}
use machine_asset_tools.Parser.Cmt.{Buf, bytes_at, e_nobufs}
use machine_asset_tools.Parser.Tests.{toy, toy-Documented}
use machine_asset_tools.Parser.Out.{Memory, CmtOut, cma_abi_put_uint256_list_d}
use machine_asset_tools.Parser.Out.Lists.{Placed, put_list-Placed}
use machine_asset_tools.Parser.Vouchers.{
  VoucherData, Voucher, cma_parser_encode_voucher, encode_type, cma_parser_encode_erc20_voucher,
  open_payload, call_token, erc20_payload, put_selector, put,
}
use machine_asset_tools.Parser.Abi.{convert_to_cmt_funsel}
use machine_asset_tools.Parser.Vouchers.Made.{Answers, cma_parser_encode_voucher-Answers}
use machine_asset_tools.Parser.Vouchers.Room.{Roomy, Writes, encode_voucher-Fits}

abbrev store : Memory → ℕ → Bytes → Memory
store memory a [] = memory
store memory a (x ∷ xs) = store (λ k. if k == a then x else memory k) (suc a) xs

-- The bytes go to the buffer's start.
abbrev write : ℕ → Bytes → Memory → Buf → ℤ × Memory × Buf
write n bytes memory b =
    if leb (b.begin + n) b.end
    then (pos 0, store memory b.begin bytes, record { begin = b.begin + n; end = b.end })
    else (e_nobufs, memory, b)

abbrev selector_bytes : ℕ → Bytes
selector_bytes f = f % 256 ∷ f / 256 % 256 ∷ f / 65536 % 256 ∷ f / 16777216 % 256 ∷ []

abbrev toy_out : CmtOut
toy_out = record {
  cmt_abi_put_funsel = λ f. write 4 (selector_bytes f);
  cmt_abi_put_address = λ a. write 32 (replicate 12 0 ++ a);
  cmt_abi_put_uint256 = λ u. write 32 u;
  cmt_abi_put_bytes_s =
      λ memory b. let (code, memory', b') = write 32 [] memory b in (code, memory', b, b');
  cmt_abi_put_bytes_d = λ offset frame payload memory b.
      write (32 + payload.length)
        (replicate 31 0 ++ payload.length ∷ bytes_at memory payload.start payload.length)
        (store memory offset.begin (replicate 31 0 ++ (b.begin - frame.begin) ∷ [])) b;
  cmt_abi_encode_uint = λ n a memory. (pos 0, store memory a (replicate 31 0 ++ n ∷ []));
}

write-Writes : (n : ℕ) (bytes : Bytes) → Writes n (write n bytes)
write-Writes n bytes memory b room = (store memory b.begin bytes, ground arith)

toy-Roomy : Roomy (toy []) toy_out
toy-Roomy = record {
  init = λ n a. refl;
  funsel = λ f. write-Writes 4 (selector_bytes f);
  address = λ a. write-Writes 32 (replicate 12 0 ++ a);
  uint256 = λ u. write-Writes 32 u;
}

abbrev no_span : Span
no_span = record { length = 0; start = 0 }

abbrev request : VoucherData
request = record {
  receiver = replicate 20 7;
  token = replicate 20 9;
  token_id = replicate 32 2;
  amount = replicate 32 3;
  token_ids = no_span;
  amounts = no_span;
  exec_layer_data = no_span;
}

abbrev given : ℕ → Voucher
given length = record { address = []; value = []; payload_length = length; payload_data = some 0 }

abbrev zeros : Memory
zeros a = 0

encode_voucher-Answers_example : Answers VoucherType.erc20 none (some request) (some (given 68)) (
    cma_parser_encode_voucher
      (toy [])
      toy_out
      VoucherType.erc20
      none
      (some request)
      zeros
      (some (given 68)))
encode_voucher-Answers_example =
    cma_parser_encode_voucher-Answers (toy []) toy_out VoucherType.erc20 none (some request) zeros
      (some (given 68))

encode_voucher-Fits_example :
    (cma_parser_encode_voucher
      (toy [])
      toy_out
      VoucherType.erc721
      (some (replicate 20 5))
      (some request)
      zeros
      (some (given 100))).0
    ≡ pos 0
encode_voucher-Fits_example =
    encode_voucher-Fits (toy []) toy_out toy-Roomy VoucherType.erc721 (some (replicate 20 5)) 100
      request zeros (given 100) 0 refl refl arith_fact
  where
    arith_fact : 100 ≤ 100
    arith_fact = omega arith

abbrev two : Span
two = record { length = 2; start = 500 }

abbrev offset_place : Buf
offset_place = record { begin = 0; end = 100 }

abbrev left : Buf
left = record { begin = 32; end = 200 }

put_list-Placed_example :
    Placed 2 left
      (cma_abi_put_uint256_list_d (toy []) toy_out offset_place offset_place two zeros left)
put_list-Placed_example =
    put_list-Placed (toy []) (toy-Documented []) toy_out offset_place offset_place two zeros left
      left_fact
  where
    left_fact : 32 ≤ 200
    left_fact = omega arith

abbrev transfer_call : ℤ × Memory × Option Voucher × String
transfer_call =
    cma_parser_encode_voucher (toy []) toy_out VoucherType.erc20 none (some request) zeros
      (some (given 68))

-- The payload of an ERC-20 transfer.
encode_erc20_test :
    bytes_at transfer_call.1 0 68
    ≡ 169 ∷ 5 ∷ 156 ∷ 187 ∷ [] ++ replicate 12 0 ++ replicate 20 7 ++ replicate 32 3
unfolding cma_parser_encode_voucher bytes_at encode_type cma_parser_encode_erc20_voucher
    open_payload call_token convert_to_cmt_funsel erc20_payload put_selector put
encode_erc20_test = refl
