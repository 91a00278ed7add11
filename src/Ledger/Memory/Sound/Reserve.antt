-- ===== src/Ledger/Memory/Sound/Reserve.antt =====
-- A `cma_ledger_memory` whose vector of virtual balances has as many places as the limit of
-- balances, and the calls that leave it so.
use machine_asset_tools.Prelude.{ℕ, ◌≤◌, arith, Bool, String, List, nat_key, bytes_key, pair_key}
use machine_asset_tools.Amount.{Amount}
use machine_asset_tools.Map.{Map}
use machine_asset_tools.Ledger.Types.{Asset, Account}
use machine_asset_tools.Ledger.Memory.{
  MemoryLedger, Balance, BalanceType, AccountStruct, set_asset_supply,
}
use machine_asset_tools.Ledger.Memory.Update.{
  append_balance, emplace_balance, write_n_balances, create_balance, write_amount, write_keys,
  move_last, transfer_last, clear_single, drop_last, erase_balance, remove_balance, update_balance,
  set_account_asset_balance,
}
use machine_asset_tools.Ledger.Memory.Transact
use machine_asset_tools.Ledger.Memory.Sound.{Keeps}

-- The vector then never moves.
unfoldable pub IsReserved : MemoryLedger → Type 0
IsReserved l = l.max_balances ≤ l.virtual_capacity

append_balance-IsReserved :
    (t : BalanceType) (k : ℕ × ℕ) (x : Asset) (a : Account) (b : Amount) (l : MemoryLedger)
    → IsReserved l
    → IsReserved (append_balance t k x a b l)
unfolding append_balance IsReserved
append_balance-IsReserved BalanceType.virtual k x a b l w = ground arith
append_balance-IsReserved BalanceType.withdrawable k x a b l w = w

write_n_balances-IsReserved :
    (c : ℕ) (a : AccountStruct) (n : ℕ) (l : MemoryLedger)
    → IsReserved l
    → IsReserved (write_n_balances c a n l)
unfolding write_n_balances IsReserved
write_n_balances-IsReserved c a n l w = w

write_amount-IsReserved :
    (t : BalanceType) (p : ℕ) (b : Amount) (l : MemoryLedger)
    → IsReserved l
    → IsReserved (write_amount t p b l)
unfolding write_amount IsReserved
write_amount-IsReserved BalanceType.virtual p b l w = w
write_amount-IsReserved BalanceType.withdrawable p b l w = w

write_keys-IsReserved :
    (t : BalanceType) (keys : List (ℕ × ℕ)) (l : MemoryLedger)
    → IsReserved l
    → IsReserved (write_keys t keys l)
unfolding write_keys IsReserved
write_keys-IsReserved BalanceType.virtual keys l w = w
write_keys-IsReserved BalanceType.withdrawable keys l w = w

move_last-IsReserved :
    (t : BalanceType) (same : Bool) (p q : ℕ) (l : MemoryLedger)
    → IsReserved l
    → IsReserved (move_last t same p q l)
unfolding move_last IsReserved
move_last-IsReserved BalanceType.virtual same p q l w = w
move_last-IsReserved BalanceType.withdrawable same p q l w = w

clear_single-IsReserved :
    (t : BalanceType) (p : ℕ) (l : MemoryLedger) → IsReserved l → IsReserved (clear_single t p l)
unfolding clear_single IsReserved
clear_single-IsReserved BalanceType.virtual p l w = w
clear_single-IsReserved BalanceType.withdrawable p l w = w

drop_last-IsReserved :
    (t : BalanceType) (l : MemoryLedger) → IsReserved l → IsReserved (drop_last t l)
unfolding drop_last IsReserved
drop_last-IsReserved BalanceType.virtual l w = w
drop_last-IsReserved BalanceType.withdrawable l w = w

erase_balance-IsReserved :
    (k : ℕ × ℕ) (l : MemoryLedger) → IsReserved l → IsReserved (erase_balance k l)
unfolding erase_balance IsReserved
erase_balance-IsReserved k l w = w

emplace_balance-IsReserved : (k : ℕ × ℕ) (b : Balance) → Keeps IsReserved (emplace_balance k b)
unfolding emplace_balance IsReserved
emplace_balance-IsReserved k b l w = ground arith

create_balance-IsReserved : (i c : ℕ) (b : Amount) → Keeps IsReserved (create_balance i c b)
unfolding create_balance
create_balance-IsReserved i c b l w =
    grind
      (arith, append_balance-IsReserved, emplace_balance-IsReserved, write_n_balances-IsReserved)

pointed-IsReserved :
    (m : Map (ℕ × ℕ) Balance) (l : MemoryLedger)
    → IsReserved l
    → IsReserved (record l { account_asset_balance = m })
unfolding IsReserved
pointed-IsReserved m l w = w

transfer_last-IsReserved :
    (t : BalanceType) (k : ℕ × ℕ) (p : ℕ) → Keeps IsReserved (transfer_last t k p)
unfolding transfer_last
transfer_last-IsReserved t k p l w =
    grind (arith, move_last-IsReserved, write_keys-IsReserved, pointed-IsReserved)

remove_balance-IsReserved :
    (t : BalanceType) (k : ℕ × ℕ) (p : ℕ) → Keeps IsReserved (remove_balance t k p)
unfolding remove_balance
remove_balance-IsReserved t k p l w = grind (
  arith, transfer_last-IsReserved, clear_single-IsReserved, write_n_balances-IsReserved,
  drop_last-IsReserved, erase_balance-IsReserved,
)

update_balance-IsReserved :
    (b : Balance) (k : ℕ × ℕ) (v : Amount) → Keeps IsReserved (update_balance b k v)
unfolding update_balance
update_balance-IsReserved b k v l w =
    grind (arith, write_amount-IsReserved, remove_balance-IsReserved)

set_balance-IsReserved : (i c : ℕ) (v : Amount) → Keeps IsReserved (set_account_asset_balance i c v)
unfolding set_account_asset_balance
set_balance-IsReserved i c v l w =
    grind (arith, create_balance-IsReserved, update_balance-IsReserved)

set_asset_supply-IsReserved : (i : ℕ) (s : Amount) → Keeps IsReserved (set_asset_supply i s)
unfolding set_asset_supply IsReserved
set_asset_supply-IsReserved i s l w = ground arith

supply_after_deposit-IsReserved :
    (i : ℕ) (v : Amount) → Keeps IsReserved (Transact.supply_after_deposit i v)
unfolding Transact.supply_after_deposit IsReserved
supply_after_deposit-IsReserved i v l w = ground arith

supply_after_withdraw-IsReserved :
    (i : ℕ) (v : Amount) → Keeps IsReserved (Transact.supply_after_withdraw i v)
unfolding Transact.supply_after_withdraw IsReserved
supply_after_withdraw-IsReserved i v l w = ground arith

check_asset-IsReserved : (i : ℕ) → Keeps IsReserved (Transact.check_asset i)
unfolding Transact.check_asset IsReserved
check_asset-IsReserved i l w = ground arith

balance_after_credit-IsReserved :
    (m o : String) (i c : ℕ) (v : Amount)
    → Keeps IsReserved (Transact.balance_after_credit m o i c v)
unfolding Transact.balance_after_credit IsReserved
balance_after_credit-IsReserved m o i c v l w = ground arith

balance_after_debit-IsReserved :
    (m : String) (i c : ℕ) (v : Amount) → Keeps IsReserved (Transact.balance_after_debit m i c v)
unfolding Transact.balance_after_debit IsReserved
balance_after_debit-IsReserved m i c v l w = ground arith

ruleset reserved_steps = (
  arith, set_balance-IsReserved, set_asset_supply-IsReserved, supply_after_deposit-IsReserved,
  supply_after_withdraw-IsReserved, check_asset-IsReserved, balance_after_credit-IsReserved,
  balance_after_debit-IsReserved,
)

pub deposit-IsReserved : (i c : ℕ) (v : Amount) → Keeps IsReserved (Transact.deposit i c v)
unfolding Transact.deposit
deposit-IsReserved i c v l w = grind reserved_steps

pub withdraw-IsReserved : (i c : ℕ) (v : Amount) → Keeps IsReserved (Transact.withdraw i c v)
unfolding Transact.withdraw
withdraw-IsReserved i c v l w = grind reserved_steps

pub transfer-IsReserved : (i c d : ℕ) (v : Amount) → Keeps IsReserved (Transact.transfer i c d v)
unfolding Transact.transfer
transfer-IsReserved i c d v l w = grind reserved_steps
