-- ===== src/Parser/Packed.antt =====
-- What the packed Ether and ERC20 deposits decode to (src/parser_impl.cpp).
mod Readers
use machine_asset_tools.Parser.Packed.Readers.{
  get_address_packed_ok, get_address_packed_short, get_uint256_ok, get_uint256_too_short,
  get_bytes_packed_ok,
}
use machine_asset_tools.Prelude.{
  ℕ, ◌+◌, ◌-◌, ◌≤◌, ◌<◌, ◌≡◌, String, Result, ok, err, arith, ◌⊎◌, inl, inr, lt_or_le,
}
use machine_asset_tools.Parser.Types.{Bytes, Span, Fields, InputType, ParserInput}
use machine_asset_tools.Parser.Cmt.{Buf, Cmt, Documented, bytes_at, e_nobufs}
use machine_asset_tools.Parser.Abi.{
  Put, cma_abi_get_bytes, cma_abi_get_bytes_packed, cma_abi_get_address_packed, get_uint256,
  decoder, put_sender, put_token, put_amount, put_exec,
}
use machine_asset_tools.Parser.Deposits.{
  ether_deposit_steps, erc20_deposit_steps, cma_parser_decode_ether_deposit,
  cma_parser_decode_erc20_deposit,
}

-- What an Ether deposit holds: sender, amount and the rest.
abbrev pub ether_fields : Cmt → Span → Fields → Fields
ether_fields m payload f = record f {
  sender = bytes_at m.byte payload.start 20;
  amount = bytes_at m.byte (payload.start + 20) 32;
  exec_layer_data = record { length = payload.length - 52; start = payload.start + 52 };
}

-- An ERC20 deposit: token, sender, amount and the rest.
abbrev pub erc20_fields : Cmt → Span → Fields → Fields
erc20_fields m payload f = record f {
  token = bytes_at m.byte payload.start 20;
  sender = bytes_at m.byte (payload.start + 20) 20;
  amount = bytes_at m.byte (payload.start + 40) 32;
  exec_layer_data = record { length = payload.length - 72; start = payload.start + 72 };
}

-- The decoder throws -ENOBUFS and leaves the type.
pub record TooShort (p : ParserInput) (r : Result (Unit {0}) × ParserInput) : Type 0 where
  pub message : String
  pub throws : r.0 ≡ err message e_nobufs
  pub type : r.1.type ≡ p.type

module _ (m : Cmt) (d : Documented m) (payload : Span) (p : ParserInput) where
  ether_deposit_long :
      52 ≤ payload.length
      → cma_parser_decode_ether_deposit m payload p ≡ (
        ok tt,
        record { type = InputType.ether_deposit; fields = ether_fields m payload p.fields },
      )
  unfolding decoder ether_deposit_steps
  ether_deposit_long h =
      let a = payload.start in
      let e = payload.start + payload.length in
      let f = put_sender (bytes_at m.byte a 20) p.fields in
      let g = put_amount (bytes_at m.byte (a + 20) 32) f in
      ground (
        arith,
        d.init payload.length a,
        get_address_packed_ok m d a e p.fields put_sender,
        get_uint256_ok m d (a + 20) e f "Error getting amount" put_amount,
        get_bytes_packed_ok m d (a + 20 + 32) e g put_exec,
      )

  ether_deposit_short :
      payload.length < 52 → TooShort p (cma_parser_decode_ether_deposit m payload p)
  unfolding decoder ether_deposit_steps
  ether_deposit_short h =
      let a = payload.start in
      let e = payload.start + payload.length in
      let f = put_sender (bytes_at m.byte a 20) p.fields in
      elim (lt_or_le payload.length 20) [
        | inl less ↦ record {
          message = "Invalid buffer length";
          throws = ground (
            arith,
            d.init payload.length a,
            get_address_packed_short m d a e p.fields put_sender,
          );
          type = ground (
            arith,
            d.init payload.length a,
            get_address_packed_short m d a e p.fields put_sender,
          );
        }
        | inr more ↦
            let s = get_address_packed_ok m d a e p.fields put_sender in
            let t = get_uint256_too_short m d (a + 20) e f "Error getting amount" put_amount in
            record {
              message = "Error getting amount";
              throws = ground (arith, d.init payload.length a, s, t);
              type = ground (arith, d.init payload.length a, s, t);
            }
      ]

  erc20_deposit_long :
      72 ≤ payload.length
      → cma_parser_decode_erc20_deposit m payload p ≡ (
        ok tt,
        record { type = InputType.erc20_deposit; fields = erc20_fields m payload p.fields },
      )
  unfolding decoder erc20_deposit_steps
  erc20_deposit_long h =
      let a = payload.start in
      let e = payload.start + payload.length in
      let f = put_token (bytes_at m.byte a 20) p.fields in
      let g = put_sender (bytes_at m.byte (a + 20) 20) f in
      let k = put_amount (bytes_at m.byte (a + 20 + 20) 32) g in
      ground (
        arith,
        d.init payload.length a,
        get_address_packed_ok m d a e p.fields put_token,
        get_address_packed_ok m d (a + 20) e f put_sender,
        get_uint256_ok m d (a + 20 + 20) e g "Error getting amount" put_amount,
        get_bytes_packed_ok m d (a + 20 + 20 + 32) e k put_exec,
      )

  erc20_deposit_short :
      payload.length < 72 → TooShort p (cma_parser_decode_erc20_deposit m payload p)
  unfolding decoder erc20_deposit_steps
  erc20_deposit_short h =
      let a = payload.start in
      let e = payload.start + payload.length in
      let f = put_token (bytes_at m.byte a 20) p.fields in
      let g = put_sender (bytes_at m.byte (a + 20) 20) f in
      let i = d.init payload.length a in
      let s = get_address_packed_ok m d a e p.fields put_token in
      let t = get_address_packed_ok m d (a + 20) e f put_sender in
      let s' = get_address_packed_short m d a e p.fields put_token in
      let t' = get_address_packed_short m d (a + 20) e f put_sender in
      let u' = get_uint256_too_short m d (a + 20 + 20) e g "Error getting amount" put_amount in
      elim (lt_or_le payload.length 20) [
        | inl less ↦ record {
          message = "Invalid buffer length";
          throws = ground (arith, i, s');
          type = ground (arith, i, s');
        }
        | inr more ↦ elim (lt_or_le payload.length 40) [
          | inl less ↦ record {
            message = "Invalid buffer length";
            throws = ground (arith, i, s, t');
            type = ground (arith, i, s, t');
          }
          | inr most ↦ record {
            message = "Error getting amount";
            throws = ground (arith, i, s, t, u');
            type = ground (arith, i, s, t, u');
          }
        ]
      ]

  -- Over a libcmt that does what is documented, an Ether deposit of at least 52 bytes decodes to
  -- the sender's 20 bytes, the amount's 32 bytes and the span of the rest, whatever the union held
  -- before; a shorter one throws -ENOBUFS and leaves the type.
  pub decode_ether_deposit_lem :
      ((52 ≤ payload.length)
        × (cma_parser_decode_ether_deposit m payload p ≡ (
          ok tt,
          record { type = InputType.ether_deposit; fields = ether_fields m payload p.fields },
        )))
      ⊎ ((payload.length < 52) × TooShort p (cma_parser_decode_ether_deposit m payload p))
  decode_ether_deposit_lem = elim (lt_or_le payload.length 52) [
    | inl less ↦ inr (less, ether_deposit_short less)
    | inr more ↦ inl (more, ether_deposit_long more)
  ]

  -- Over a libcmt that does what is documented, an ERC20 deposit of at least 72 bytes decodes to
  -- the token's 20 bytes, the sender's 20 bytes, the amount's 32 bytes and the span of the rest,
  -- whatever the union held before; a shorter one throws -ENOBUFS and leaves the type.
  pub decode_erc20_deposit_lem :
      ((72 ≤ payload.length)
        × (cma_parser_decode_erc20_deposit m payload p ≡ (
          ok tt,
          record { type = InputType.erc20_deposit; fields = erc20_fields m payload p.fields },
        )))
      ⊎ ((payload.length < 72) × TooShort p (cma_parser_decode_erc20_deposit m payload p))
  decode_erc20_deposit_lem = elim (lt_or_le payload.length 72) [
    | inl less ↦ inr (less, erc20_deposit_short less)
    | inr more ↦ inl (more, erc20_deposit_long more)
  ]
