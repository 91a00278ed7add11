-- ===== src/Parser/Packed/Readers.antt =====
-- The readers of packed fields, with room and without (src/parser_impl.cpp).
use machine_asset_tools.Prelude.{ℕ, ◌+◌, ◌-◌, ◌≤◌, ◌<◌, ◌≡◌, String, ok, err, arith}
use machine_asset_tools.Parser.Types.{Bytes, Span, Fields}
use machine_asset_tools.Parser.Cmt.{Buf, Cmt, Documented, bytes_at, e_nobufs}
use machine_asset_tools.Parser.Abi.{
  Put, cma_abi_get_bytes, cma_abi_get_bytes_packed, cma_abi_get_address_packed, get_uint256,
}

module _ (m : Cmt) (d : Documented m) (b e : ℕ) (f : Fields) where
  pub get_address_packed_ok :
      (put : Put Bytes)
      → b + 20 ≤ e
      → cma_abi_get_address_packed m put
          (record { buf = record { begin = b; end = e }; fields = f })
        ≡ (
          ok tt,
          record {
            buf = record { begin = b + 20; end = e };
            fields = put (bytes_at m.byte b 20) f;
          },
        )
  unfolding cma_abi_get_address_packed cma_abi_get_bytes
  get_address_packed_ok put h =
      let buf : Buf = record { begin = b; end = e } in ground (arith, d.length buf, d.split buf 20)

  pub get_address_packed_short :
      (put : Put Bytes)
      → b ≤ e
      → e < b + 20
      → cma_abi_get_address_packed m put
          (record { buf = record { begin = b; end = e }; fields = f })
        ≡ (
          err "Invalid buffer length" e_nobufs,
          record { buf = record { begin = b; end = e }; fields = f },
        )
  unfolding cma_abi_get_address_packed
  get_address_packed_short put l h =
      let buf : Buf = record { begin = b; end = e } in ground (arith, d.length buf)

  pub get_uint256_ok :
      (message : String) (put : Put Bytes)
      → b + 32 ≤ e
      → get_uint256 m message put (record { buf = record { begin = b; end = e }; fields = f }) ≡ (
        ok tt,
        record { buf = record { begin = b + 32; end = e }; fields = put (bytes_at m.byte b 32) f },
      )
  unfolding get_uint256
  get_uint256_ok message put h =
      let buf : Buf = record { begin = b; end = e } in
      ground (arith, d.length buf, d.get_uint256 buf)

  pub get_uint256_too_short :
      (message : String) (put : Put Bytes)
      → b ≤ e
      → e < b + 32
      → get_uint256 m message put (record { buf = record { begin = b; end = e }; fields = f })
        ≡ (err message e_nobufs, record { buf = record { begin = b; end = e }; fields = f })
  unfolding get_uint256
  get_uint256_too_short message put l h =
      let buf : Buf = record { begin = b; end = e } in
      ground (arith, d.length buf, d.get_uint256_short buf)

  pub get_bytes_packed_ok :
      (put : Put Span)
      → b ≤ e
      → cma_abi_get_bytes_packed m put (record { buf = record { begin = b; end = e }; fields = f })
        ≡ (
          ok tt,
          record {
            buf = record { begin = b; end = e };
            fields = put (record { length = e - b; start = b }) f;
          },
        )
  unfolding cma_abi_get_bytes_packed
  get_bytes_packed_ok put h =
      let buf : Buf = record { begin = b; end = e } in ground (arith, d.length buf)
