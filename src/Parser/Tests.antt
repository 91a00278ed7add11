-- ===== src/Parser/Tests.antt =====
-- The parser over a small library in the place of libcmt, at a few payloads.
use machine_asset_tools.Prelude.{
  some, ℕ, zero, suc, ◌+◌, ◌*◌, ◌-◌, ◌≤◌, ◌<◌, ◌≡◌, refl, ltb, leb, ◌==◌, ◌&&◌, if◌then◌else◌, pos,
  neg, ok, [], ◌∷◌, ◌++◌, replicate, ◌⊎◌, arith,
}
use machine_asset_tools.Parser.Types.{Bytes, Span, InputType, ParserInput}
use machine_asset_tools.Parser.Cmt.{Buf, Cmt, Documented, bytes_at, e_nobufs}
use machine_asset_tools.Parser.Deposits.{
  cma_parser_decode_ether_deposit, cma_parser_decode_erc20_deposit,
}
use machine_asset_tools.Parser.Transfers.{transfer_erc20}
use machine_asset_tools.Parser.Packed.{
  ether_fields, erc20_fields, TooShort, decode_ether_deposit_lem, decode_erc20_deposit_lem,
}
use machine_asset_tools.Parser.Advance.{
  cma_parser_decode_advance, cma_parser_decode_advance_auto, decode_type,
}
use machine_asset_tools.Parser.Selectors.{erc20_transfer, StartsWith, auto-Selects}
use machine_asset_tools.Parser.Codes.{Reported, decode_advance-Reported}
use machine_asset_tools.Parser.Abi.{cma_abi_peek_uint256_list_d}
use machine_asset_tools.Parser.Bounds.{Peeked, peek_uint256_list-Peeked}
use machine_asset_tools.Parser.Outcome.{Ends, decode_type-Ends}

-- A byte of a list, and 0 past its end.
abbrev at : Bytes → ℕ → ℕ
at [] n = 0
at (b ∷ bs) zero = b
at (b ∷ bs) (suc n) = at bs n

abbrev room : Buf → ℕ
room b = b.end - b.begin

abbrev after : ℕ → Buf → Buf
after n b = record { begin = b.begin + n; end = b.end }

-- A library over the memory that holds `bytes` from address 0.
abbrev pub toy : Bytes → Cmt
toy bytes = record {
  byte = at bytes;
  cmt_buf_init = λ n a. record { begin = a; end = a + n };
  cmt_buf_length = room;
  cmt_buf_split = λ b n.
      if leb n (room b)
      then (pos 0, record { begin = b.begin; end = b.begin + n }, after n b)
      else (e_nobufs, b, b);
  cmt_abi_funsel = λ a b c d. a + 256 * b + 65536 * c + 16777216 * d;
  cmt_abi_check_funsel = λ b f.
      if leb 4 (room b) && (toy_selector bytes b == f) then (pos 0, after 4 b) else (neg 74, b);
  cmt_abi_mark_frame = λ b. (pos 0, b);
  cmt_abi_get_uint = λ b.
      if ltb (room b) 32 then (e_nobufs, 0, b) else (pos 0, at bytes (b.begin + 31), after 32 b);
  cmt_abi_get_uint256 = λ b.
      if ltb (room b) 32
      then (e_nobufs, [], b)
      else (pos 0, bytes_at (at bytes) b.begin 32, after 32 b);
  cmt_abi_get_address = λ b.
      if ltb (room b) 32
      then (e_nobufs, [], b)
      else (pos 0, bytes_at (at bytes) (b.begin + 12) 20, after 32 b);
  cmt_abi_get_bytes_s = λ b. if ltb (room b) 32 then (e_nobufs, b, b) else (pos 0, b, after 32 b);
  cmt_abi_get_bytes_d = λ frame offset. (pos 0, record { length = 0; start = frame.begin });
}
  where
    toy_selector : Bytes → Buf → ℕ
    toy_selector bytes b =
        at bytes b.begin
        + 256 * at bytes (b.begin + 1)
        + 65536 * at bytes (b.begin + 2)
        + 16777216 * at bytes (b.begin + 3)

pub toy-Documented : (bytes : Bytes) → Documented (toy bytes)
toy-Documented bytes = record {
  init = λ n a. refl;
  length = λ b h. refl;
  split = λ b n h. ground arith;
  split_short = λ b n h. ground arith;
  get_uint = λ b e. (ground arith, ground arith);
  get_uint256 = λ b h. ground arith;
  get_uint256_short = λ b h. ground arith;
  funsel = λ a b c d. refl;
  check_funsel = λ b f h e. ground arith;
  check_funsel_other = λ b f e. (ground arith, ground arith);
}

-- Nothing decoded yet.
abbrev nothing : ParserInput
nothing = record {
  type = InputType.none;
  fields = record {
    sender = [];
    receiver = [];
    token = [];
    token_id = [];
    amount = [];
    token_ids = record { length = 0; start = 0 };
    amounts = record { length = 0; start = 0 };
    base_layer_data = record { length = 0; start = 0 };
    exec_layer_data = record { length = 0; start = 0 };
  };
}

-- A sender, the amount 5 and two bytes more.
abbrev ether_payload : Bytes
ether_payload = replicate 20 1 ++ replicate 31 0 ++ (5 ∷ 8 ∷ 9 ∷ [])

abbrev payload : ℕ → Span
payload n = record { length = n; start = 0 }

decode_ether_deposit_example :
    ((52 ≤ 54)
      × (cma_parser_decode_ether_deposit (toy ether_payload) (payload 54) nothing ≡ (
        ok tt,
        record {
          type = InputType.ether_deposit;
          fields = ether_fields (toy ether_payload) (payload 54) nothing.fields;
        },
      )))
    ⊎ ((54 < 52)
        × TooShort nothing
            (cma_parser_decode_ether_deposit (toy ether_payload) (payload 54) nothing))
decode_ether_deposit_example =
    decode_ether_deposit_lem (toy ether_payload) (toy-Documented ether_payload) (payload 54) nothing

decode_erc20_deposit_example :
    ((72 ≤ 54)
      × (cma_parser_decode_erc20_deposit (toy ether_payload) (payload 54) nothing ≡ (
        ok tt,
        record {
          type = InputType.erc20_deposit;
          fields = erc20_fields (toy ether_payload) (payload 54) nothing.fields;
        },
      )))
    ⊎ ((54 < 72)
        × TooShort nothing
            (cma_parser_decode_erc20_deposit (toy ether_payload) (payload 54) nothing))
decode_erc20_deposit_example =
    decode_erc20_deposit_lem (toy ether_payload) (toy-Documented ether_payload) (payload 54) nothing

-- The selector 03d61dcd with nothing after it.
abbrev transfer_payload : Bytes
transfer_payload = 3 ∷ 214 ∷ 29 ∷ 205 ∷ []

starts : StartsWith (toy transfer_payload) (record { begin = 0; end = 4 }) transfer_erc20
starts = record { long = omega arith; byte_0 = refl; byte_1 = refl; byte_2 = refl; byte_3 = refl }

auto-Selects_example :
    cma_parser_decode_advance_auto (toy transfer_payload) (payload 4) nothing
    ≡ decode_type (toy transfer_payload) InputType.erc20_transfer (payload 4) nothing
auto-Selects_example =
    auto-Selects (toy transfer_payload) (toy-Documented transfer_payload) InputType.erc20_transfer
      transfer_erc20 (payload 4) nothing erc20_transfer starts

decode_type-Ends_example :
    Ends InputType.auto nothing
      (decode_type (toy transfer_payload) InputType.auto (payload 4) nothing)
decode_type-Ends_example =
    decode_type-Ends (toy transfer_payload) (payload 4) nothing InputType.auto

decode_advance-Reported_example :
    Reported (toy ether_payload) InputType.ether_deposit (payload 54) nothing (
      cma_parser_decode_advance
        (toy ether_payload)
        InputType.ether_deposit
        (some (payload 54))
        (some nothing))
decode_advance-Reported_example =
    decode_advance-Reported (toy ether_payload) InputType.ether_deposit (payload 54) nothing

-- An offset of 32, and there one number.
abbrev list_payload : Bytes
list_payload = replicate 31 0 ++ (32 ∷ (replicate 31 0 ++ (1 ∷ replicate 32 9)))

abbrev list_frame : Buf
list_frame = record { begin = 0; end = 96 }

list_read :
    cma_abi_peek_uint256_list_d (toy list_payload) list_frame list_frame
    ≡ (pos 0, record { begin = 64; end = 96 })
unfolding cma_abi_peek_uint256_list_d
list_read = refl

peek_uint256_list-Peeked_example :
    Peeked
      (toy list_payload)
      list_frame
      list_frame
      (cma_abi_peek_uint256_list_d (toy list_payload) list_frame list_frame)
peek_uint256_list-Peeked_example =
    peek_uint256_list-Peeked (toy list_payload) (toy-Documented list_payload) list_frame list_frame
