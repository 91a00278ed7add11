-- ===== src/Parser/Outcome.antt =====
-- What every advance decoder leaves: its type, and for a batch two lists of one length
-- (src/parser_impl.cpp, src/parser.cpp).
use machine_asset_tools.Prelude.{
  throw, ℕ, ◌≡◌, refl, Bool, true, false, Result, ok, err, Throws, ◌⊎◌, inl, inr, arith,
}
use machine_asset_tools.Parser.Types.{Span, InputType, ParserInput}
use machine_asset_tools.Parser.Cmt.{e_inval, Cmt}
use machine_asset_tools.Parser.Abi.{Reader, decoder}
use machine_asset_tools.Parser.Deposits.{
  ether_deposit_steps, erc20_deposit_steps, erc721_deposit_steps, erc1155_single_deposit_steps,
  erc1155_batch_deposit_steps,
}
use machine_asset_tools.Parser.Withdrawals.{
  ether_withdrawal_steps, erc20_withdrawal_steps, erc721_withdrawal_steps,
  erc1155_single_withdrawal_steps, cma_parser_decode_ether_withdrawal,
  cma_parser_decode_erc20_withdrawal, cma_parser_decode_erc721_withdrawal,
  cma_parser_decode_erc1155_single_withdrawal, cma_parser_decode_erc1155_batch_withdrawal,
  erc1155_batch_withdrawal_steps,
}
use machine_asset_tools.Parser.Transfers.{
  ether_transfer_steps, erc20_transfer_steps, erc721_transfer_steps, erc1155_single_transfer_steps,
  cma_parser_decode_ether_transfer, cma_parser_decode_erc20_transfer,
  cma_parser_decode_erc721_transfer, cma_parser_decode_erc1155_single_transfer,
  cma_parser_decode_erc1155_batch_transfer, erc1155_batch_transfer_steps,
}
use machine_asset_tools.Parser.Advance.{rows, cma_parser_decode_advance_auto, decode_type}
use machine_asset_tools.Parser.Selectors.{
  Selects, ether_withdrawal, erc20_withdrawal, erc721_withdrawal, erc1155_single_withdrawal,
  erc1155_batch_withdrawal, ether_transfer, erc20_transfer, erc721_transfer,
  erc1155_single_transfer, erc1155_batch_transfer,
}
use machine_asset_tools.Parser.Chain.{no_rows, ◌&◌, chain-keeps}
use machine_asset_tools.Parser.Batch.{
  Paired, erc1155_batch_deposit-Paired, erc1155_batch_withdrawal-Paired,
  erc1155_batch_transfer-Paired,
}

-- The types whose decoders read lists.
abbrev pub is_batch : InputType → Bool
is_batch InputType.erc1155_batch_deposit = true
is_batch InputType.erc1155_batch_withdrawal = true
is_batch InputType.erc1155_batch_transfer = true
is_batch _ = false

-- What a decoder of type `t` leaves: after a throw the old type; otherwise its own type (the automatic
-- decoder: the type of one of the ten selectors), and for a batch as many amounts as token ids.
pub record Decoded (t : InputType) (p' : ParserInput) : Type 0 where
  pub type : ((t ≡ InputType.auto) × (f : ℕ) × Selects p'.type f) ⊎ (p'.type ≡ t)
  pub paired : is_batch p'.type ≡ true → Paired p'.fields

abbrev pub Ends : InputType → ParserInput → Result (Unit {0}) × ParserInput → Type 0
Ends t p (ok _, p') = Decoded t p'
Ends t p (err _ _, p') = p'.type ≡ p.type

module _ (m : Cmt) (payload : Span) (p : ParserInput) where
  decoder-Ends :
      (t : InputType) (steps : Throws Reader (Unit {0}))
      → ((s : Reader) → (steps s).0 ≡ ok tt → is_batch t ≡ true → Paired (steps s).1.fields)
      → Ends t p (decoder m t steps payload p)
  unfolding decoder
  decoder-Ends t steps h =
      ends (steps (record { buf = m.cmt_buf_init payload.length payload.start; fields = p.fields }))
        (h _)
    where
      ends :
          (r : Result (Unit {0}) × Reader)
          → (r.0 ≡ ok tt → is_batch t ≡ true → Paired r.1.fields)
          → Ends t p (
              let (x, s) = r in
              elim x [
                | ok _ ↦ (ok tt, record { type = t; fields = s.fields })
                | err message code ↦ (err message code, record p { fields = s.fields })
              ])
      ends (ok tt, s) h = record { type = inr refl; paired = λ b. h refl b }
      ends (err _ _, s) h = refl

  -- A decoder of one input, which reads no list.
  single-Ends :
      (t : InputType) (steps : Throws Reader (Unit {0}))
      → is_batch t ≡ false
      → Ends t p (decoder m t steps payload p)
  single-Ends t steps single = decoder-Ends t steps (λ s e b. ground arith)

  Ends-auto :
      (t : InputType) (f : ℕ) (r : Result (Unit {0}) × ParserInput)
      → Selects t f
      → Ends t p r
      → Ends InputType.auto p r
  Ends-auto t f (ok _, p') s e = record {
    type = elim e.type [ inl h ↦ inl (refl, h.1, h.2) | inr h ↦ inl (refl, f, rw h s) ];
    paired = e.paired;
  }
  Ends-auto t f (err _ _, p') s e = e

  auto-Ends : Ends InputType.auto p (cma_parser_decode_advance_auto m payload p)
  unfolding cma_parser_decode_advance_auto rows
  auto-Ends =
      chain-keeps m p (Ends InputType.auto p) (rows m payload) (λ _. throw "Invalid funsel" e_inval)
        _
        (Ends-auto _ _ (cma_parser_decode_ether_withdrawal m payload p) ether_withdrawal
            (single-Ends InputType.ether_withdrawal (ether_withdrawal_steps m) refl)
          & Ends-auto _ _ (cma_parser_decode_erc20_withdrawal m payload p) erc20_withdrawal
              (single-Ends InputType.erc20_withdrawal (erc20_withdrawal_steps m) refl)
          & Ends-auto _ _ (cma_parser_decode_erc721_withdrawal m payload p) erc721_withdrawal
              (single-Ends InputType.erc721_withdrawal (erc721_withdrawal_steps m) refl)
          & Ends-auto _ _ (cma_parser_decode_erc1155_single_withdrawal m payload p)
              erc1155_single_withdrawal
              (single-Ends InputType.erc1155_single_withdrawal (erc1155_single_withdrawal_steps m)
                refl)
          & Ends-auto _ _ (cma_parser_decode_erc1155_batch_withdrawal m payload p)
              erc1155_batch_withdrawal
              (decoder-Ends InputType.erc1155_batch_withdrawal (erc1155_batch_withdrawal_steps m)
                (λ s e _. erc1155_batch_withdrawal-Paired m s e))
          & Ends-auto _ _ (cma_parser_decode_ether_transfer m payload p) ether_transfer
              (single-Ends InputType.ether_transfer (ether_transfer_steps m) refl)
          & Ends-auto _ _ (cma_parser_decode_erc20_transfer m payload p) erc20_transfer
              (single-Ends InputType.erc20_transfer (erc20_transfer_steps m) refl)
          & Ends-auto _ _ (cma_parser_decode_erc721_transfer m payload p) erc721_transfer
              (single-Ends InputType.erc721_transfer (erc721_transfer_steps m) refl)
          & Ends-auto _ _ (cma_parser_decode_erc1155_single_transfer m payload p)
              erc1155_single_transfer
              (single-Ends InputType.erc1155_single_transfer (erc1155_single_transfer_steps m) refl)
          & Ends-auto _ _ (cma_parser_decode_erc1155_batch_transfer m payload p)
              erc1155_batch_transfer
              (decoder-Ends InputType.erc1155_batch_transfer (erc1155_batch_transfer_steps m)
                (λ s e _. erc1155_batch_transfer-Paired m s e))
          & no_rows)
        (λ _. refl)

  -- For every type, payload and libcmt, a decoder that throws leaves the type of the parser input
  -- as it was; one that returns has set the type that was asked for, or, asked to find out, a type
  -- that has one of the ten selectors, and a batch then has as many amounts as token ids.
  pub decode_type-Ends : (t : InputType) → Ends t p (decode_type m t payload p)
  unfolding decode_type
  decode_type-Ends InputType.auto = auto-Ends
  decode_type-Ends InputType.ether_deposit =
      single-Ends InputType.ether_deposit (ether_deposit_steps m) refl
  decode_type-Ends InputType.erc20_deposit =
      single-Ends InputType.erc20_deposit (erc20_deposit_steps m) refl
  decode_type-Ends InputType.erc721_deposit =
      single-Ends InputType.erc721_deposit (erc721_deposit_steps m) refl
  decode_type-Ends InputType.erc1155_single_deposit =
      single-Ends InputType.erc1155_single_deposit (erc1155_single_deposit_steps m) refl
  decode_type-Ends InputType.erc1155_batch_deposit =
      decoder-Ends InputType.erc1155_batch_deposit (erc1155_batch_deposit_steps m)
        (λ s e _. erc1155_batch_deposit-Paired m s e)
  decode_type-Ends InputType.ether_withdrawal =
      single-Ends InputType.ether_withdrawal (ether_withdrawal_steps m) refl
  decode_type-Ends InputType.erc20_withdrawal =
      single-Ends InputType.erc20_withdrawal (erc20_withdrawal_steps m) refl
  decode_type-Ends InputType.erc721_withdrawal =
      single-Ends InputType.erc721_withdrawal (erc721_withdrawal_steps m) refl
  decode_type-Ends InputType.erc1155_single_withdrawal =
      single-Ends InputType.erc1155_single_withdrawal (erc1155_single_withdrawal_steps m) refl
  decode_type-Ends InputType.erc1155_batch_withdrawal =
      decoder-Ends InputType.erc1155_batch_withdrawal (erc1155_batch_withdrawal_steps m)
        (λ s e _. erc1155_batch_withdrawal-Paired m s e)
  decode_type-Ends InputType.ether_transfer =
      single-Ends InputType.ether_transfer (ether_transfer_steps m) refl
  decode_type-Ends InputType.erc20_transfer =
      single-Ends InputType.erc20_transfer (erc20_transfer_steps m) refl
  decode_type-Ends InputType.erc721_transfer =
      single-Ends InputType.erc721_transfer (erc721_transfer_steps m) refl
  decode_type-Ends InputType.erc1155_single_transfer =
      single-Ends InputType.erc1155_single_transfer (erc1155_single_transfer_steps m) refl
  decode_type-Ends InputType.erc1155_batch_transfer =
      decoder-Ends InputType.erc1155_batch_transfer (erc1155_batch_transfer_steps m)
        (λ s e _. erc1155_batch_transfer-Paired m s e)
  decode_type-Ends InputType.none = refl
  decode_type-Ends InputType.balance = refl
  decode_type-Ends InputType.balance_account = refl
  decode_type-Ends InputType.balance_account_token_address = refl
  decode_type-Ends InputType.balance_account_token_address_id = refl
  decode_type-Ends InputType.supply = refl
  decode_type-Ends InputType.supply_token_address = refl
  decode_type-Ends InputType.supply_token_address_id = refl
