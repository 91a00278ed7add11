-- ===== src/Parser/Selectors.antt =====
-- A payload's selector chooses its decoder (`cma_parser_decode_advance_auto` of src/parser_impl.cpp).
use machine_asset_tools.Prelude.{
  List, [], ◌∷◌, zero, suc, not, ◌&&◌, throw, sym, ℕ, ◌+◌, ◌*◌, ◌/◌, ◌%◌, ◌≤◌, ◌≡◌, refl, ap, Bool,
  true, false, Throws, arith, ◌==◌, ==_iff,
}
use machine_asset_tools.Parser.Types.{Span, InputType, ParserInput}
use machine_asset_tools.Parser.Cmt.{Buf, Cmt, Documented, selector_at, e_inval}
use machine_asset_tools.Parser.Abi.{convert_to_cmt_funsel}
use machine_asset_tools.Parser.Withdrawals.{
  withdraw_ether, withdraw_erc20, withdraw_erc721, withdraw_erc1155_single, withdraw_erc1155_batch,
}
use machine_asset_tools.Parser.Transfers.{
  transfer_ether, transfer_erc20, transfer_erc721, transfer_erc1155_single, transfer_erc1155_batch,
}
use machine_asset_tools.Parser.Advance.{try_funsel, cma_parser_decode_advance_auto, decode_type}
use machine_asset_tools.Parser.Advance.{Row, chain, rows}

-- The types that have a selector, each with the 32-bit number of the header.
pub data Selects : InputType → ℕ → Type 0 where
  ether_withdrawal : Selects InputType.ether_withdrawal withdraw_ether
  erc20_withdrawal : Selects InputType.erc20_withdrawal withdraw_erc20
  erc721_withdrawal : Selects InputType.erc721_withdrawal withdraw_erc721
  erc1155_single_withdrawal : Selects InputType.erc1155_single_withdrawal withdraw_erc1155_single
  erc1155_batch_withdrawal : Selects InputType.erc1155_batch_withdrawal withdraw_erc1155_batch
  ether_transfer : Selects InputType.ether_transfer transfer_ether
  erc20_transfer : Selects InputType.erc20_transfer transfer_erc20
  erc721_transfer : Selects InputType.erc721_transfer transfer_erc721
  erc1155_single_transfer : Selects InputType.erc1155_single_transfer transfer_erc1155_single
  erc1155_batch_transfer : Selects InputType.erc1155_batch_transfer transfer_erc1155_batch

-- The bytes of the number, highest first, are the selector that a buffer starts with.
pub record StartsWith (m : Cmt) (b : Buf) (f : ℕ) : Type 0 where
  pub long : 4 ≤ m.cmt_buf_length b
  pub byte_0 : m.byte b.begin ≡ f / 16777216 % 256
  pub byte_1 : m.byte (b.begin + 1) ≡ f / 65536 % 256
  pub byte_2 : m.byte (b.begin + 2) ≡ f / 256 % 256
  pub byte_3 : m.byte (b.begin + 3) ≡ f % 256

module _ (m : Cmt) (d : Documented m) (b : Buf) (f : ℕ) (s : StartsWith m b f) where
  selector_at-convert : selector_at m b ≡ convert_to_cmt_funsel m f
  unfolding convert_to_cmt_funsel
  selector_at-convert = rw (selector_at, s.byte_0, s.byte_1, s.byte_2, s.byte_3) refl

  try_funsel_hit :
      (decode : Throws ParserInput (Unit {0})) (otherwise : Buf → Throws ParserInput (Unit {0}))
      → try_funsel m f decode otherwise b ≡ decode
  unfolding try_funsel
  try_funsel_hit decode otherwise =
      ground (arith, d.check_funsel b (convert_to_cmt_funsel m f) s.long selector_at-convert)

  try_funsel_miss :
      (g : ℕ) (decode : Throws ParserInput (Unit {0}))
      (otherwise : Buf → Throws ParserInput (Unit {0}))
      → (convert_to_cmt_funsel m f == convert_to_cmt_funsel m g) ≡ false
      → try_funsel m g decode otherwise b ≡ otherwise b
  unfolding try_funsel
  try_funsel_miss g decode otherwise ne =
      let (e, k) = d.check_funsel_other b (convert_to_cmt_funsel m g) (rw selector_at-convert ne) in
      ground arith

-- The number of a selector with its first byte lowest.
abbrev reversed : ℕ → ℕ
reversed f =
    f / 16777216 % 256 + 256 * (f / 65536 % 256) + 65536 * (f / 256 % 256) + 16777216 * (f % 256)

-- No row before place `n` has the selector `f`, and the row at `n` has.
abbrev leads_to : ℕ → ℕ → List Row → Bool
leads_to f n [] = false
leads_to f zero ((g, _) ∷ rows) = f == g
leads_to f (suc n) ((g, _) ∷ rows) = not (reversed f == reversed g) && leads_to f n rows

abbrev decoder_at : ℕ → List Row → Throws ParserInput (Unit {0}) → Throws ParserInput (Unit {0})
decoder_at n [] none_there = none_there
decoder_at zero ((_, decode) ∷ rows) none_there = decode
decoder_at (suc n) (_ ∷ rows) none_there = decoder_at n rows none_there

module _ (m : Cmt) (d : Documented m) where
  convert_lem : (f : ℕ) → convert_to_cmt_funsel m f ≡ reversed f
  unfolding convert_to_cmt_funsel
  convert_lem f = d.funsel (f / 16777216 % 256) (f / 65536 % 256) (f / 256 % 256) (f % 256)

  chain-leads_to :
      (b : Buf) (f n : ℕ) (rows : List Row) (last : Buf → Throws ParserInput (Unit {0}))
      (other : Throws ParserInput (Unit {0}))
      → StartsWith m b f
      → leads_to f n rows ≡ true
      → chain m rows last b ≡ decoder_at n rows other
  chain-leads_to b f n [] last other s h = ground arith
  chain-leads_to b f zero ((g, decode) ∷ rows) last other s h =
      rw (sym ((==_iff f g).0 h)) (try_funsel_hit m d b f s decode (chain m rows last))
  chain-leads_to b f (suc n) ((g, decode) ∷ rows) last other s h = ground (
    arith,
    try_funsel_miss m d b f s g decode (chain m rows last),
    convert_lem f,
    convert_lem g,
    chain-leads_to b f n rows last other s,
  )

  -- Over a libcmt that does what is documented, a payload that starts with the selector of one of
  -- the ten withdrawals and transfers is decoded by the automatic decoder as by the decoder of
  -- that type.
  pub auto-Selects :
      (t : InputType) (f : ℕ) (payload : Span) (p : ParserInput)
      → Selects t f
      → StartsWith m (record { begin = payload.start; end = payload.start + payload.length }) f
      → cma_parser_decode_advance_auto m payload p ≡ decode_type m t payload p
  unfolding cma_parser_decode_advance_auto decode_type rows
  auto-Selects _ f payload p ether_withdrawal w = rw (d.init payload.length payload.start) (
      ap (λ k. k p)
        (chain-leads_to _ f 0 (rows m payload) (λ _. throw "Invalid funsel" e_inval)
          (throw "" e_inval) w refl))
  auto-Selects _ f payload p erc20_withdrawal w = rw (d.init payload.length payload.start) (
      ap (λ k. k p)
        (chain-leads_to _ f 1 (rows m payload) (λ _. throw "Invalid funsel" e_inval)
          (throw "" e_inval) w refl))
  auto-Selects _ f payload p erc721_withdrawal w = rw (d.init payload.length payload.start) (
      ap (λ k. k p)
        (chain-leads_to _ f 2 (rows m payload) (λ _. throw "Invalid funsel" e_inval)
          (throw "" e_inval) w refl))
  auto-Selects _ f payload p erc1155_single_withdrawal w =
      rw (d.init payload.length payload.start) (
        ap (λ k. k p)
          (chain-leads_to _ f 3 (rows m payload) (λ _. throw "Invalid funsel" e_inval)
            (throw "" e_inval) w refl))
  auto-Selects _ f payload p erc1155_batch_withdrawal w = rw (d.init payload.length payload.start) (
      ap (λ k. k p)
        (chain-leads_to _ f 4 (rows m payload) (λ _. throw "Invalid funsel" e_inval)
          (throw "" e_inval) w refl))
  auto-Selects _ f payload p ether_transfer w = rw (d.init payload.length payload.start) (
      ap (λ k. k p)
        (chain-leads_to _ f 5 (rows m payload) (λ _. throw "Invalid funsel" e_inval)
          (throw "" e_inval) w refl))
  auto-Selects _ f payload p erc20_transfer w = rw (d.init payload.length payload.start) (
      ap (λ k. k p)
        (chain-leads_to _ f 6 (rows m payload) (λ _. throw "Invalid funsel" e_inval)
          (throw "" e_inval) w refl))
  auto-Selects _ f payload p erc721_transfer w = rw (d.init payload.length payload.start) (
      ap (λ k. k p)
        (chain-leads_to _ f 7 (rows m payload) (λ _. throw "Invalid funsel" e_inval)
          (throw "" e_inval) w refl))
  auto-Selects _ f payload p erc1155_single_transfer w = rw (d.init payload.length payload.start) (
      ap (λ k. k p)
        (chain-leads_to _ f 8 (rows m payload) (λ _. throw "Invalid funsel" e_inval)
          (throw "" e_inval) w refl))
  auto-Selects _ f payload p erc1155_batch_transfer w = rw (d.init payload.length payload.start) (
      ap (λ k. k p)
        (chain-leads_to _ f 9 (rows m payload) (λ _. throw "Invalid funsel" e_inval)
          (throw "" e_inval) w refl))
