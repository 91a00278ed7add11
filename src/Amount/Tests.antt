-- ===== src/Amount/Tests.antt =====
-- The theorems about amounts at numbers.
use machine_asset_tools.Prelude.{
  ◌+◌, ◌^◌, ◌<◌, ◌≤◌, ◌≡◌, refl, [], ◌∷◌, true, false, if◌then◌else◌, ◌↔◌, arith,
}
use machine_asset_tools.Amount.{
  Amount, amount_checked_add, amount_checked_sub, is_zero, is_one, one_amount,
}
use machine_asset_tools.Amount.Value.{value, IsBytes}
use machine_asset_tools.Amount.Arithmetic.{amount_checked_add-value, amount_checked_sub-value}
use machine_asset_tools.Amount.Compare.{is_zero_iff}

abbrev high : Amount
high = 255 ∷ 200 ∷ []

abbrev low : Amount
low = 0 ∷ 100 ∷ []

add_carries : amount_checked_add high low ≡ (0 ∷ 44 ∷ [], false)
unfolding amount_checked_add
add_carries = refl

amount_checked_add-value_example :
    let (res, exact) = amount_checked_add high low in
    IsBytes 2 res
    × (value res + (if exact then 0 else 256 ^ 2) ≡ value high + value low)
    × ((exact ≡ true) ↔ (value high + value low < 256 ^ 2))
amount_checked_add-value_example = amount_checked_add-value 2 high low (ground arith) (ground arith)

amount_checked_sub-value_example :
    let (res, exact) = amount_checked_sub low high in
    IsBytes 2 res
    × (value res + value high ≡ value low + (if exact then 0 else 256 ^ 2))
    × ((exact ≡ true) ↔ (value high ≤ value low))
amount_checked_sub-value_example = amount_checked_sub-value 2 low high (ground arith) (ground arith)

is_zero_iff_example :
    ((is_zero one_amount ≡ true) ↔ (value one_amount ≡ 0))
    × ((is_one one_amount ≡ true) ↔ (value one_amount ≡ 1))
is_zero_iff_example = is_zero_iff one_amount (ground arith)
