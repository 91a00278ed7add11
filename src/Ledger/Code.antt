-- ===== src/Ledger/Code.antt =====
-- The codes of include/libcma/ledger.h that the ledger throws, and `-EINVAL`.
use machine_asset_tools.Prelude.{ℤ, neg}

-- -EINVAL of <cerrno>, which the C library documents as 22.
abbrev pub e_inval : ℤ
e_inval = neg 22

-- -ENOBUFS of <cerrno>, which the C library documents as 105.
abbrev pub e_nobufs : ℤ
e_nobufs = neg 105

abbrev pub exception : ℤ
exception = neg 1002

abbrev pub insufficient_funds : ℤ
insufficient_funds = neg 1003

abbrev pub account_not_found : ℤ
account_not_found = neg 1004

abbrev pub asset_not_found : ℤ
asset_not_found = neg 1005

abbrev pub balance_not_found : ℤ
balance_not_found = neg 1006

abbrev pub supply_overflow : ℤ
supply_overflow = neg 1007

abbrev pub balance_overflow : ℤ
balance_overflow = neg 1008

abbrev pub insertion_error : ℤ
insertion_error = neg 1010

abbrev pub max_assets_reached : ℤ
max_assets_reached = neg 1011

abbrev pub max_accounts_reached : ℤ
max_accounts_reached = neg 1012

abbrev pub max_balances_reached : ℤ
max_balances_reached = neg 1013

abbrev pub asset_supply : ℤ
asset_supply = neg 1014

abbrev pub account_balance : ℤ
account_balance = neg 1015

abbrev pub remove : ℤ
remove = neg 1016
