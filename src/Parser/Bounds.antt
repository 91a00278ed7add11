-- ===== src/Parser/Bounds.antt =====
-- Where the lists of 256-bit numbers are that the parser reads (src/parser_impl.cpp).
use machine_asset_tools.Prelude.{
  ℕ, ◌+◌, ◌*◌, ◌%◌, ◌^◌, ◌≤◌, ◌<◌, ◌≡◌, ltb, true, false, ℤ, pos, arith, ◌⊎◌, inl, inr, Bool-cases,
  lt_or_le,
}
use machine_asset_tools.Parser.Cmt.{Buf, Cmt, Documented, e_nobufs}
use machine_asset_tools.Parser.Abi.{failed, cma_abi_peek_uint256_list_d}

-- The place that an offset leads to from the start of the frame, which is counted on 64 bits and
-- compared with nothing.
abbrev pub led_to : Cmt → Buf → Buf → Buf
led_to m start offset_buf = record {
  begin = (start.begin + (m.cmt_abi_get_uint offset_buf).1) % 2 ^ 64;
  end = start.end;
}

-- The bytes of as many numbers as stand at a place.
abbrev pub list_size : Cmt → Buf → ℕ
list_size m place = (m.cmt_abi_get_uint place).1 * 32 % 2 ^ 64

-- What follows the number at a place.
abbrev pub behind : Buf → Buf
behind place = record { begin = place.begin + 32; end = place.end }

-- A list at a place, of which the number of bytes is read there: the code of a number that cannot be
-- read, or of a list that does not fit; or the bytes of the list, which end within the frame unless
-- the place is beyond its end.
abbrev pub PeekedAt : Cmt → Buf → ℤ × Buf → Type 0
PeekedAt m place (code, bytes) =
    ((failed (m.cmt_abi_get_uint place).0 ≡ true) × (code ≡ (m.cmt_abi_get_uint place).0))
    ⊎ ((m.cmt_buf_length (behind place) < list_size m place) × (code ≡ e_nobufs))
    ⊎ ((list_size m place ≤ m.cmt_buf_length (behind place))
        × (code ≡ pos 0)
        × (bytes ≡ record { begin = place.begin + 32; end = place.begin + 32 + list_size m place })
        × ((place.end < place.begin + 32) ⊎ (bytes.end ≤ place.end)))

abbrev pub Peeked : Cmt → Buf → Buf → ℤ × Buf → Type 0
Peeked m start offset_buf (code, bytes) =
    ((failed (m.cmt_abi_get_uint offset_buf).0 ≡ true) × (code ≡ (m.cmt_abi_get_uint offset_buf).0))
    ⊎ PeekedAt m (led_to m start offset_buf) (code, bytes)

failed_not : (c : ℤ) → failed c ≡ false → c ≡ pos 0
failed_not c h = ground arith

module _ (m : Cmt) (d : Documented m) where
  -- The bytes that fit end within the frame.
  fits : (b : Buf) (n : ℕ) → n ≤ m.cmt_buf_length b → (b.end < b.begin) ⊎ (b.begin + n ≤ b.end)
  fits b n h = elim (lt_or_le b.end b.begin) [
    | inl past ↦ inl past
    | inr ordered ↦ inr (omega (arith, d.length b ordered, h, ordered))
  ]

  -- Over a libcmt that does what is documented, for every frame and every offset,
  -- `cma_abi_peek_uint256_list_d` returns the code of a number that cannot be read; or -ENOBUFS if
  -- the bytes of the list, 32 for each number and counted on 64 bits, do not fit behind its
  -- length; or 0 and exactly these bytes, 32 behind the place that the offset leads to, and they
  -- end within the frame unless the first of them is beyond its end.
  pub peek_uint256_list-Peeked :
      (start offset_buf : Buf)
      → Peeked m start offset_buf (cma_abi_peek_uint256_list_d m start offset_buf)
  unfolding cma_abi_peek_uint256_list_d
  peek_uint256_list-Peeked start offset_buf =
      let it = led_to m start offset_buf in
      let r = m.cmt_abi_get_uint it in
      let n = list_size m it in
      elim (Bool-cases (failed (m.cmt_abi_get_uint offset_buf).0)) [
        | inl bad ↦ inl (bad, ground arith)
        | inr good ↦ elim (Bool-cases (failed r.0)) [
          | inl bad ↦ inr (inl (bad, ground arith))
          | inr read ↦
              let (_, rest) = d.get_uint it (failed_not r.0 read) in
              elim (Bool-cases (ltb (m.cmt_buf_length (behind it)) n)) [
                | inl short ↦ inr (inr (inl (ground arith, ground (arith, rest))))
                | inr long ↦
                    let s = d.split (behind it) n (ground arith) in
                    let f = fits (behind it) n (ground arith) in
                    inr (
                      inr (
                        inr (
                          ground arith,
                          ground (arith, rest, s),
                          ground (arith, rest, s),
                          ground (arith, rest, s, f),
                        )))
              ]
        ]
      ]
