-- ===== src/Parser/Out/Lists.antt =====
-- Where the lists of 256-bit numbers go (src/parser_impl.cpp).
use machine_asset_tools.Prelude.{
  ℕ, ◌+◌, ◌*◌, ◌%◌, ◌^◌, ◌≤◌, ◌≡◌, ltb, true, ℤ, pos, arith, ◌⊎◌, inl, inr, Bool-cases,
}
use machine_asset_tools.Parser.Types.{Span}
use machine_asset_tools.Parser.Cmt.{Buf, Cmt, Documented}
use machine_asset_tools.Parser.Abi.{failed}
use machine_asset_tools.Parser.Out.{
  Memory, CmtOut, cma_abi_reserve_uints_d, cma_abi_put_uint256_list_d,
}

-- A list of `n` numbers is refused and the buffer stays as it was; or the list takes a number and
-- its own bytes at the start of the buffer, which has room for them.
abbrev pub Placed : ℕ → Buf → ℤ × Memory × Buf → Type 0
Placed n me (code, memory, after) =
    ((failed code ≡ true) × (after ≡ me))
    ⊎ ((code ≡ pos 0)
        × (after ≡ record { begin = me.begin + 32 + n * 32 % 2 ^ 64; end = me.end })
        × (after.begin ≤ after.end))

module _ (m : Cmt) (d : Documented m) (w : CmtOut) where
  -- Over a libcmt that does what is documented, for a buffer that is not reversed,
  -- `cma_abi_put_uint256_list_d` either returns a code that is not 0 and leaves the buffer, or
  -- returns 0 and moves the start of the buffer by 32 bytes and 32 for each number, counted on 64
  -- bits, which stays within the buffer.
  pub put_list-Placed :
      (offset frame : Buf) (payload : Span) (memory : Memory) (me : Buf)
      → me.begin ≤ me.end
      → Placed payload.length me (cma_abi_put_uint256_list_d m w offset frame payload memory me)
  unfolding cma_abi_put_uint256_list_d cma_abi_reserve_uints_d
  put_list-Placed offset frame payload memory me ordered =
      let n = payload.length * 32 % 2 ^ 64 in
      let tmp : Buf = record { begin = me.begin + 32; end = me.end } in
      elim (Bool-cases (ltb (m.cmt_buf_length me) 32)) [
        | inl short ↦ ground (arith, d.split_short me 32 (ground arith))
        | inr long ↦
            let s = d.split me 32 (ground arith) in
            let len = d.length me ordered in
            elim (Bool-cases (ltb (m.cmt_buf_length tmp) n)) [
              | inl short ↦ ground (arith, s, d.split_short tmp n (ground arith))
              | inr room ↦
                  ground (
                    arith,
                    s,
                    len,
                    d.split tmp n (ground arith),
                    d.length tmp (ground (arith, len)),
                  )
            ]
      ]
