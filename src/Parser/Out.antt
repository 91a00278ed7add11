-- ===== src/Parser/Out.antt =====
-- The operations of libcmt that write, as parameters, and the lists of numbers that
-- src/parser_impl.cpp writes with them.
pub mod Lists
use machine_asset_tools.Prelude.{ℕ, ◌+◌, ◌-◌, ◌*◌, ◌%◌, ◌^◌, ℤ, pos, if◌then◌else◌, ltb, leb, ◌&&◌}
use machine_asset_tools.Parser.Types.{Bytes, Span}
use machine_asset_tools.Parser.Cmt.{Buf, Cmt}
use machine_asset_tools.Parser.Abi.{failed}

-- The bytes of the memory, by address.
abbrev pub Memory : Type 0
Memory = ℕ → ℕ

-- A call's return code, then the memory and what else it writes.
pub record CmtOut : Type 0 where
  pub cmt_abi_put_funsel : ℕ → Memory → Buf → ℤ × Memory × Buf
  pub cmt_abi_put_address : Bytes → Memory → Buf → ℤ × Memory × Buf
  pub cmt_abi_put_uint256 : Bytes → Memory → Buf → ℤ × Memory × Buf
  -- the offset's buffer, then the buffer after the call
  pub cmt_abi_put_bytes_s : Memory → Buf → ℤ × Memory × Buf × Buf
  -- for the offset's buffer, the frame and the payload
  pub cmt_abi_put_bytes_d : Buf → Buf → Span → Memory → Buf → ℤ × Memory × Buf
  -- for a number and the address where it goes
  pub cmt_abi_encode_uint : ℕ → ℕ → Memory → ℤ × Memory

-- The copy of `payload_span` to the memory.
abbrev pub copy_n : Memory → ℕ → ℕ → ℕ → Memory
copy_n memory source n target a =
    if leb target a && ltb a (target + n) then memory (source + (a - target)) else memory a

module _ (m : Cmt) (w : CmtOut) where
  -- Room for a list of `n` numbers: the place of the numbers, and the buffer after them. Sizes are
  -- computed on 64 bits.
  unfoldable pub cma_abi_reserve_uints_d : Buf → ℕ → Buf → Memory → Buf → ℤ × Memory × Buf × Buf
  cma_abi_reserve_uints_d of n frame memory me =
      let (code, uints, tmp) = m.cmt_buf_split me 32 in
      if failed code
      then (code, memory, me, me)
      else let (code', out, tmp') = m.cmt_buf_split tmp (n * 32 % 2 ^ 64) in
        if failed code'
        then (code', memory, me, me)
        else let (code1, memory1) =
            w.cmt_abi_encode_uint ((uints.begin + 2 ^ 64 - frame.begin) % 2 ^ 64) of.begin memory in
          if failed code1
          then (code1, memory1, me, me)
          else let (code2, memory2) = w.cmt_abi_encode_uint n uints.begin memory1 in
            if failed code2 then (code2, memory2, me, me) else (pos 0, memory2, out, tmp')

  unfoldable pub cma_abi_put_uint256_list_d : Buf → Buf → Span → Memory → Buf → ℤ × Memory × Buf
  unfolding cma_abi_reserve_uints_d
  cma_abi_put_uint256_list_d offset frame payload memory me =
      let (code, memory', res, me') =
        cma_abi_reserve_uints_d offset payload.length frame memory me in
      if failed code
      then (code, memory', me)
      else (pos 0, copy_n memory' payload.start (payload.length * 32 % 2 ^ 64) res.begin, me')
