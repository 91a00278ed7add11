-- ===== src/Parser/Chain.antt =====
-- What holds of every decoder in the chain of selectors holds of the chain (src/parser_impl.cpp).
use machine_asset_tools.Prelude.{if◌then◌else◌, Result, List, [], ◌∷◌, ℕ, Bool, true, false, Throws}
use machine_asset_tools.Parser.Types.{ParserInput}
use machine_asset_tools.Parser.Cmt.{Buf, Cmt}
use machine_asset_tools.Parser.Abi.{failed, convert_to_cmt_funsel}
use machine_asset_tools.Parser.Advance.{Row, chain, try_funsel}

module _ (m : Cmt) (p : ParserInput) (P : Result (Unit {0}) × ParserInput → Type 0) where
  -- What every decoder of the rows leaves satisfies `P`.
  infixr 30 ◌&◌
  pub data EndsRows : List Row → Type 0 where
    no_rows : EndsRows []
    ◌&◌ :
        {g : ℕ} {decode : Throws ParserInput (Unit {0})} {rest : List Row}
        → P (decode p)
        → EndsRows rest
        → EndsRows ((g, decode) ∷ rest)

  try_funsel-keeps :
      (g : ℕ) (decode : Throws ParserInput (Unit {0}))
      (otherwise : Buf → Throws ParserInput (Unit {0})) (b : Buf)
      → P (decode p)
      → ((b' : Buf) → P (otherwise b' p))
      → P (try_funsel m g decode otherwise b p)
  unfolding try_funsel
  try_funsel-keeps g decode otherwise b e h =
      if_ends (failed (m.cmt_abi_check_funsel b (convert_to_cmt_funsel m g)).0)
    where
      if_ends :
          (c : Bool)
          → P (
              (if c
                  then otherwise (m.cmt_abi_check_funsel b (convert_to_cmt_funsel m g)).1
                  else decode)
                p)
      if_ends true = h (m.cmt_abi_check_funsel b (convert_to_cmt_funsel m g)).1
      if_ends false = e

  pub chain-keeps :
      (all : List Row) (last : Buf → Throws ParserInput (Unit {0})) (b : Buf)
      → EndsRows all
      → ((b' : Buf) → P (last b' p))
      → P (chain m all last b p)
  chain-keeps [] last b no_rows h = h b
  chain-keeps ((g, decode) ∷ rest) last b (e & es) h =
      try_funsel-keeps g decode (chain m rest last) b e (λ b'. chain-keeps rest last b' es h)
