-- ===== src/Parser/Vouchers/Kept.antt =====
-- The steps of the voucher encoders that leave the address and the value.
use machine_asset_tools.Prelude.{
  ◌≡◌, ℤ, true, arith, Result, ok, err, inl, inr, String, Throws, Result-cases, ◌>>=◌,
}
use machine_asset_tools.Parser.Types.{Bytes}
use machine_asset_tools.Parser.Cmt.{Buf, Cmt}
use machine_asset_tools.Parser.Abi.{failed}
use machine_asset_tools.Parser.Out.{Memory, CmtOut}
use machine_asset_tools.Parser.Vouchers.{
  VoucherData, Voucher, Encoder, put, put_offset, mark_payload_frame, erc20_payload, erc721_payload,
  erc1155_single_payload, erc1155_batch_payload,
}

-- Steps that keep the voucher `v` and throw with codes that are not 0.
abbrev KeptAfter : {A : Type 0} → Voucher → Result A × Encoder → Type 0
KeptAfter v (ok _, e) = e.voucher ≡ v
KeptAfter v (err message code, e) = (failed code ≡ true) × (e.voucher ≡ v)

unfoldable pub Kept : {A : Type 0} → Voucher → Throws Encoder A → Type 0
Kept v k = (e : Encoder) → e.voucher ≡ v → KeptAfter v (k e)

bind-Kept :
    {A B : Type 0} (v : Voucher) (k : Throws Encoder A) (f : A → Throws Encoder B)
    → Kept v k
    → ((a : A) → Kept v (f a))
    → Kept v (k >>= f)
unfolding Kept
bind-Kept v k f hk hf e same = elim (Result-cases (k e).0) [
  | inl (a, r) ↦ ground (arith, hk e same, hf a (k e).1)
  | inr (message, code, r) ↦ ground (arith, hk e same)
]

module _ (m : Cmt) (w : CmtOut) (v : Voucher) where
  put-Kept : (op : Memory → Buf → ℤ × Memory × Buf) (message : String) → Kept v (put m w op message)
  unfolding put Kept
  put-Kept op message e same = ground arith

  put_offset-Kept : (message : String) → Kept v (put_offset m w message)
  unfolding put_offset Kept
  put_offset-Kept message e same = ground arith

  mark_payload_frame-Kept : Kept v (mark_payload_frame m w)
  unfolding mark_payload_frame Kept
  mark_payload_frame-Kept e same = ground arith

  pub erc20_payload-Kept : (request : VoucherData) → Kept v (erc20_payload m w request)
  unfolding erc20_payload
  erc20_payload-Kept request = search (bind-Kept, put-Kept) depth 20

  pub erc721_payload-Kept :
      (app : Bytes) (request : VoucherData) → Kept v (erc721_payload m w app request)
  unfolding erc721_payload
  erc721_payload-Kept app request = search (bind-Kept, put-Kept) depth 20

  pub erc1155_single_payload-Kept :
      (app : Bytes) (request : VoucherData) → Kept v (erc1155_single_payload m w app request)
  unfolding erc1155_single_payload
  erc1155_single_payload-Kept app request =
      search (bind-Kept, put-Kept, put_offset-Kept, mark_payload_frame-Kept) depth 40

  pub erc1155_batch_payload-Kept :
      (app : Bytes) (request : VoucherData) → Kept v (erc1155_batch_payload m w app request)
  unfolding erc1155_batch_payload
  erc1155_batch_payload-Kept app request =
      search (bind-Kept, put-Kept, put_offset-Kept, mark_payload_frame-Kept) depth 40
