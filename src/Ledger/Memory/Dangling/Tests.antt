-- ===== src/Ledger/Memory/Dangling/Tests.antt =====
-- A `cma_ledger_memory` whose vector of virtual balances has one place.
use machine_asset_tools.Prelude.{[], ◌∷◌, replicate, nat_key, pair_key}
use machine_asset_tools.Ledger.Types.{AccountType}
use machine_asset_tools.Ledger.Memory.{MemoryLedger, BalanceType, AccountStruct, zero_entry}
use machine_asset_tools.Ledger.Memory.Construct.{new_ledger}
use machine_asset_tools.Ledger.Memory.Slots.{at}
use machine_asset_tools.Ledger.Memory.Tests.{units, buffer, token_asset}

-- An account that is not a wallet's, with a balance in the one place that the vector has.
abbrev contract : AccountStruct
contract = record {
  account = record { type = AccountType.account_id; account_id = replicate 32 3 };
  n_balances = 1;
}

abbrev full_vector : MemoryLedger
full_vector = record (new_ledger (buffer (zero_entry ∷ zero_entry ∷ [])) 4 4 2) {
  virtual_balances = units 5 ∷ [];
  last_virtual_balances = (0, 0) ∷ [];
  account_asset_balance = ((0, 0), at BalanceType.virtual 0) ∷ [];
  lassid_to_asset = (0, token_asset) ∷ [];
  laccid_to_account = (0, contract) ∷ (1, contract) ∷ [];
  virtual_capacity = 1;
}
