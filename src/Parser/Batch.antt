-- ===== src/Parser/Batch.antt =====
-- The batch decoders return two lists of one length (src/parser_impl.cpp).
use machine_asset_tools.Prelude.{◌≡◌, String, ok, arith}
use machine_asset_tools.Parser.Types.{Fields}
use machine_asset_tools.Parser.Cmt.{Buf, Cmt}
use machine_asset_tools.Parser.Abi.{Reader, get_bytes_d, put_exec}
use machine_asset_tools.Parser.Deposits.{get_batch, base_and_exec, erc1155_batch_deposit_steps}
use machine_asset_tools.Parser.Withdrawals.{erc1155_batch_withdrawal_steps}
use machine_asset_tools.Parser.Transfers.{erc1155_batch_transfer_steps}

-- As many amounts as token ids.
abbrev pub Paired : Fields → Type 0
Paired f = f.token_ids.length ≡ f.amounts.length

module _ (m : Cmt) where
  get_batch-Paired :
      (frame a b : Buf) (s : Reader)
      → (get_batch m frame a b s).0 ≡ ok tt
      → Paired (get_batch m frame a b s).1.fields
  unfolding get_batch
  get_batch-Paired frame a b s e = ground arith

  exec-lists :
      (frame a : Buf) (message : String) (s : Reader)
      → let f = (get_bytes_d m frame a message put_exec s).1.fields in
        (f.token_ids ≡ s.fields.token_ids) × (f.amounts ≡ s.fields.amounts)
  unfolding get_bytes_d
  exec-lists frame a message s = (ground arith, ground arith)

  base_and_exec-lists :
      (frame a b : Buf) (s : Reader)
      → let f = (base_and_exec m frame a b s).1.fields in
        (f.token_ids ≡ s.fields.token_ids) × (f.amounts ≡ s.fields.amounts)
  unfolding base_and_exec get_bytes_d
  base_and_exec-lists frame a b s = (ground arith, ground arith)

  pub erc1155_batch_deposit-Paired :
      (s : Reader)
      → (erc1155_batch_deposit_steps m s).0 ≡ ok tt
      → Paired (erc1155_batch_deposit_steps m s).1.fields
  unfolding erc1155_batch_deposit_steps
  erc1155_batch_deposit-Paired s e = grind (arith, get_batch-Paired, base_and_exec-lists)

  pub erc1155_batch_withdrawal-Paired :
      (s : Reader)
      → (erc1155_batch_withdrawal_steps m s).0 ≡ ok tt
      → Paired (erc1155_batch_withdrawal_steps m s).1.fields
  unfolding erc1155_batch_withdrawal_steps
  erc1155_batch_withdrawal-Paired s e = grind (arith, get_batch-Paired, exec-lists)

  pub erc1155_batch_transfer-Paired :
      (s : Reader)
      → (erc1155_batch_transfer_steps m s).0 ≡ ok tt
      → Paired (erc1155_batch_transfer_steps m s).1.fields
  unfolding erc1155_batch_transfer_steps
  erc1155_batch_transfer-Paired s e = grind (arith, get_batch-Paired, exec-lists)
