-- ===== src/Ledger/Basic/Assets/Distinct.antt =====
-- No two tokens share an asset of `cma_ledger_basic`.
use machine_asset_tools.Prelude.{
  ℕ, ◌≡◌, sym, ap, ◌∙◌, some, [], ◌∷◌, ◌++◌, length, take, drop, take-append, drop-append,
  bytes_key, arith,
}
use machine_asset_tools.Map.{find}
use machine_asset_tools.Ledger.Types.{Bytes, address_key, address_id_key}
use machine_asset_tools.Ledger.Basic.{BasicLedger}
use machine_asset_tools.Ledger.Basic.Assets.Outcome.{key_of}
use machine_asset_tools.Ledger.Basic.Assets.Registry.{IsRegistry}

-- The bytes after the first, which is the type.
abbrev tail : Bytes → Bytes
tail [] = []
tail (b ∷ bs) = bs

-- The type.
abbrev first : Bytes → ℕ
first [] = 0
first (b ∷ bs) = b

append-injective : (a b c d : Bytes) → length a ≡ length b → a ++ c ≡ b ++ d → (a ≡ b) × (c ≡ d)
append-injective a b c d n e = (
  sym (take-append a c) ∙ ap (take (length a)) e ∙ ap (λ k. take k (b ++ d)) n ∙ take-append b d,
  sym (drop-append a c) ∙ ap (drop (length a)) e ∙ ap (λ k. drop k (b ++ d)) n ∙ drop-append b d,
)

-- What a token is known by: its address, or its address and its id.
pub data Token : Type 0 where
  by_address : Bytes → Token
  by_address_id : Bytes → Bytes → Token

abbrev pub token_key : Token → Bytes
token_key (by_address a) = address_key a
token_key (by_address_id a i) = address_id_key a i

abbrev pub address_of : Token → Bytes
address_of (by_address a) = a
address_of (by_address_id a i) = a

token_key-injective :
    (s t : Token)
    → length (address_of s) ≡ length (address_of t)
    → token_key s ≡ token_key t
    → s ≡ t
unfolding address_key address_id_key
token_key-injective (by_address a) (by_address b) n e =
    ap by_address (append-injective a b _ _ n (ap tail e)).0
token_key-injective (by_address a) (by_address_id b j) n e = ground (arith, ap first e)
token_key-injective (by_address_id a i) (by_address b) n e = ground (arith, ap first e)
token_key-injective (by_address_id a i) (by_address_id b j) n e =
    let (p, q) = append-injective a b i j n (ap tail e) in cc

-- On a ledger whose asset maps agree, two tokens with addresses of 20 bytes whose keys lead to one
-- asset are one token: no two addresses, no two pairs of address and id, and no address and pair
-- share an asset.
pub asset-one_token :
    (s t : Token) (i : ℕ) (l : BasicLedger)
    → IsRegistry l
    → length (address_of s) ≡ 20
    → length (address_of t) ≡ 20
    → find (token_key s) l.asset_to_lassid ≡ some i
    → find (token_key t) l.asset_to_lassid ≡ some i
    → s ≡ t
asset-one_token s t i l r m n e f =
    let (x, at_x, k) = r.key_to_asset (token_key s) i e in
    let (y, at_y, k') = r.key_to_asset (token_key t) i f in
    let same : some x ≡ some y = sym at_x ∙ at_y in
    token_key-injective s t (m ∙ sym n)
      (some_injective (sym k ∙ ap key_of (some_injective same) ∙ k'))
  where
    some_injective : {A : Type 0} {a b : A} → some a ≡ some b → a ≡ b
    some_injective p = cc
