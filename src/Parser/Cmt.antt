-- ===== src/Parser/Cmt.antt =====
-- The operations of libcmt that the parser calls, as parameters, and what its documentation says of
-- them. Addresses are numbers; the record stands for the library over one memory.
use machine_asset_tools.Prelude.{
  ℕ, ◌+◌, ◌*◌, ◌-◌, ◌≤◌, ◌<◌, ℤ, pos, neg, true, false, ◌≡◌, ◌==◌, zero, suc, [], ◌∷◌, is_negative,
}
use machine_asset_tools.Parser.Types.{Bytes, Span}

-- `cmt_buf_t`
pub record Buf : Type 0 where
  pub begin : ℕ
  pub end : ℕ

-- A call's return code, which is 0 on success, then what it writes.
pub record Cmt : Type 0 where
  pub byte : ℕ → ℕ
  pub cmt_buf_init : ℕ → ℕ → Buf
  pub cmt_buf_length : Buf → ℕ
  -- the two parts
  pub cmt_buf_split : Buf → ℕ → ℤ × Buf × Buf
  pub cmt_abi_funsel : ℕ → ℕ → ℕ → ℕ → ℕ
  -- the buffer after the call
  pub cmt_abi_check_funsel : Buf → ℕ → ℤ × Buf
  -- the frame
  pub cmt_abi_mark_frame : Buf → ℤ × Buf
  -- the number, and the buffer after the call
  pub cmt_abi_get_uint : Buf → ℤ × ℕ × Buf
  pub cmt_abi_get_uint256 : Buf → ℤ × Bytes × Buf
  pub cmt_abi_get_address : Buf → ℤ × Bytes × Buf
  -- the offset's buffer, and the buffer after the call
  pub cmt_abi_get_bytes_s : Buf → ℤ × Buf × Buf
  -- the bytes that the offset leads to from the frame
  pub cmt_abi_get_bytes_d : Buf → Buf → ℤ × Span

-- The `n` bytes of the memory from an address.
unfoldable pub bytes_at : (ℕ → ℕ) → ℕ → ℕ → Bytes
bytes_at byte a zero = []
bytes_at byte a (suc n) = byte a ∷ bytes_at byte (suc a) n

-- -ENOBUFS and -EINVAL of <cerrno>.
abbrev pub e_nobufs : ℤ
e_nobufs = neg 105

abbrev pub e_inval : ℤ
e_inval = neg 22

-- The selector at the start of a buffer, as `cmt_abi_funsel` numbers it.
abbrev pub selector_at : Cmt → Buf → ℕ
selector_at m b =
    m.cmt_abi_funsel (m.byte b.begin) (m.byte (b.begin + 1)) (m.byte (b.begin + 2))
      (m.byte (b.begin + 3))

-- What the parser relies on.
pub record Documented (m : Cmt) : Type 0 where
  pub init : (n a : ℕ) → m.cmt_buf_init n a ≡ record { begin = a; end = a + n }
  pub length : (b : Buf) → b.begin ≤ b.end → m.cmt_buf_length b ≡ b.end - b.begin
  pub split :
      (b : Buf) (n : ℕ)
      → n ≤ m.cmt_buf_length b
      → m.cmt_buf_split b n ≡ (
        pos 0,
        record { begin = b.begin; end = b.begin + n },
        record { begin = b.begin + n; end = b.end },
      )
  pub split_short : (b : Buf) (n : ℕ) → m.cmt_buf_length b < n → (m.cmt_buf_split b n).0 ≡ e_nobufs
  -- A number that is read takes 32 bytes.
  pub get_uint :
      (b : Buf)
      → (m.cmt_abi_get_uint b).0 ≡ pos 0
      → (32 ≤ m.cmt_buf_length b)
        × ((m.cmt_abi_get_uint b).2 ≡ record { begin = b.begin + 32; end = b.end })
  pub get_uint256 :
      (b : Buf)
      → 32 ≤ m.cmt_buf_length b
      → m.cmt_abi_get_uint256 b
        ≡ (pos 0, bytes_at m.byte b.begin 32, record { begin = b.begin + 32; end = b.end })
  pub get_uint256_short :
      (b : Buf) → m.cmt_buf_length b < 32 → (m.cmt_abi_get_uint256 b).0 ≡ e_nobufs
  -- Function selectors are numbered with the first byte lowest.
  pub funsel : (a b c d : ℕ) → m.cmt_abi_funsel a b c d ≡ a + 256 * b + 65536 * c + 16777216 * d
  pub check_funsel :
      (b : Buf) (f : ℕ)
      → 4 ≤ m.cmt_buf_length b
      → selector_at m b ≡ f
      → (m.cmt_abi_check_funsel b f).0 ≡ pos 0
  pub check_funsel_other :
      (b : Buf) (f : ℕ)
      → (selector_at m b == f) ≡ false
      → (is_negative (m.cmt_abi_check_funsel b f).0 ≡ true) × ((m.cmt_abi_check_funsel b f).1 ≡ b)
