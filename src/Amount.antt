-- ===== src/Amount.antt =====
-- src/utils.cpp, and `is_one` of src/ledger_impl.cpp: 256-bit amounts as
-- arrays of 32 bytes, the most significant byte first.
pub mod Value
pub mod Arithmetic
pub mod Compare
pub mod Tests
use machine_asset_tools.Prelude.{
  ℕ, suc, ◌+◌, ◌-◌, ◌/◌, ◌%◌, ◌^◌, Bool, true, false, List, [], ◌∷◌, ltb, ◌==◌, if◌then◌else◌,
  bytes_eq, take, replicate,
}

-- `cmt_abi_u256_t`: the bytes of its `data` field.
abbrev pub Amount : Type 0
Amount = List ℕ

-- The loop over `j_ind = sizeof(res.data) - i - 1` goes from the last byte to the first: the
-- recursive call is what the loop has done when it comes to the first byte here.
add_loop : List ℕ → List ℕ → List ℕ × ℕ
add_loop (a_j ∷ a) (b_j ∷ b) =
    let (res, carry) = add_loop a b in
    let tmp = (carry + a_j + b_j) % 2 ^ 16 in ((tmp % 2 ^ 8) ∷ res, tmp / 2 ^ 8)
add_loop a b = ([], 0)

-- The result, and whether it is exact.
unfoldable pub amount_checked_add : Amount → Amount → Amount × Bool
unfolding add_loop
amount_checked_add amount_a amount_b =
    let (res, carry) = add_loop amount_a amount_b in (res, carry == 0)

sub_loop : List ℕ → List ℕ → List ℕ × ℕ
sub_loop (a_j ∷ a) (b_j ∷ b) =
    let (res, borrow) = sub_loop a b in
    if ltb a_j (borrow + b_j)
    then (((a_j + 2 ^ 8 - borrow - b_j) % 2 ^ 16 % 2 ^ 8) ∷ res, 1)
    else (((a_j - borrow - b_j) % 2 ^ 16 % 2 ^ 8) ∷ res, 0)
sub_loop a b = ([], 0)

unfoldable pub amount_checked_sub : Amount → Amount → Amount × Bool
unfolding sub_loop
amount_checked_sub amount_a amount_b =
    let (res, borrow) = sub_loop amount_a amount_b in (res, borrow == 0)

abbrev pub zero_amount : Amount
zero_amount = replicate 32 0

abbrev pub one_amount : Amount
one_amount =
    0 ∷ 0 ∷ 0 ∷ 0 ∷ 0 ∷ 0 ∷ 0 ∷ 0 ∷ 0 ∷ 0 ∷ 0 ∷ 0 ∷ 0 ∷ 0 ∷ 0 ∷ 0 ∷ 0 ∷ 0 ∷ 0 ∷ 0 ∷ 0 ∷ 0 ∷ 0 ∷ 0
    ∷ 0 ∷ 0 ∷ 0 ∷ 0 ∷ 0 ∷ 0 ∷ 0 ∷ 1 ∷ []

unfoldable pub is_zero : Amount → Bool
unfolding bytes_eq
is_zero amount = bytes_eq amount zero_amount

unfoldable pub is_one : Amount → Bool
unfolding bytes_eq
is_one amount = bytes_eq amount one_amount
