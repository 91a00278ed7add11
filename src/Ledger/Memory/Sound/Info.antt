-- ===== src/Ledger/Memory/Sound/Info.antt =====
-- The place of a balance that `get_account_asset_balance` of `cma_ledger_memory` gives away.
use mathlib.Core.Option.{get_or}
use mathlib.Core.Option
use machine_asset_tools.Prelude.{
  ℕ, ◌+◌, ◌*◌, ◌%◌, ◌^◌, ◌<◌, ◌≡◌, some, Option, arith, nat_key, pair_key, inl, inr, Option-cases,
  length, get_elem?, get_elem?-lt, get_elem?-some,
}
use machine_asset_tools.Amount.{Amount, zero_amount}
use machine_asset_tools.Map.{find}
use machine_asset_tools.Ledger.Memory.{
  MemoryLedger, BalanceType, BalanceInfo, balance_info, get_account_asset_balance,
  get_balances_size, amount_at,
}
use machine_asset_tools.Ledger.Memory.Placed.{IsPlaced, stored}
use machine_asset_tools.Ledger.Memory.Slots.{at}
use machine_asset_tools.Ledger.Memory.Sound.{IsSound}

-- What the caller gets: the stored balance, or 0; and for a place, one of the places in use, whose
-- entry in the memory holds that balance, with its offset.
pub record Located (i c : ℕ) (l : MemoryLedger) (balance : Option Amount)
    (info : Option BalanceInfo) : Type 0 where
  pub amount : balance ≡ some (get_or (stored (i, c) l) zero_amount)
  pub place :
      (b : BalanceInfo) (p : ℕ)
      → info ≡ some b
      → b.balance ≡ some p
      → (b.index ≡ p)
        × (b.offset ≡ (p * 128 + l.mem_offset) % 2 ^ 64)
        × (p < get_balances_size l)
        × (p < l.max_balances)
        × (get_elem? l.last_balances p ≡ some (i, c))
        × (Option.map (λ e. e.amount) (get_elem? l.balances p) ≡ stored (i, c) l)

-- A place is given away for a withdrawable balance only.
info_place :
    (t : BalanceType) (q p : ℕ) (info : BalanceInfo) (l : MemoryLedger)
    → (balance_info t q info l).balance ≡ some p
    → (t ≡ BalanceType.withdrawable)
      × (q ≡ p)
      × ((balance_info t q info l).index ≡ p)
      × ((balance_info t q info l).offset ≡ (p * 128 + l.mem_offset) % 2 ^ 64)
unfolding balance_info
info_place BalanceType.virtual q p info l h = absurd (ground arith)
info_place BalanceType.withdrawable q p info l h = ground arith

stored_entry :
    (i c p : ℕ) (l : MemoryLedger)
    → IsPlaced l
    → find (i, c) l.account_asset_balance ≡ some (at BalanceType.withdrawable p)
    → (p < length l.last_balances)
      × (p < l.max_balances)
      × (get_elem? l.last_balances p ≡ some (i, c))
      × (Option.map (λ e. e.amount) (get_elem? l.balances p) ≡ stored (i, c) l)
unfolding amount_at
stored_entry i c p l w here =
    let named = w.slots.placed (i, c) p here in
    let range = get_elem?-lt l.last_balances p (i, c) named in
    let fits : p < length l.balances = omega (arith, w.entries, w.sizes, w.room) in
    let (e, at_p) = get_elem?-some l.balances p fits in
    (range, omega (arith, w.entries), named, rw here (ground arith))

-- On a sound memory ledger, `get_account_asset_balance` with both pointers gives the stored
-- balance, or 0 if there is none; a place that it gives lies below the number of places in use and
-- the limit of balances, carries the key, has the offset that belongs to its index, and the entry
-- of the memory there holds the balance.
pub get_account_asset_balance-Located :
    (i c : ℕ) (old : Amount) (info : BalanceInfo) (l : MemoryLedger)
    → IsSound l
    → Located i c l
        (get_account_asset_balance i c (some old) (some info) l).0
        (get_account_asset_balance i c (some old) (some info) l).1
unfolding get_account_asset_balance IsSound get_balances_size amount_at
get_account_asset_balance-Located i c old info l w =
    elim (Option-cases (find (i, c) l.account_asset_balance)) [
      | inl missing ↦ record { amount = ground arith; place = λ b p e h. absurd (ground arith) }
      | inr (o, here) ↦ record {
        amount = ground arith;
        place = λ b p e h.
            let (t, q, index, offset) = info_place o.type o.place p info l (ground arith) in
            let (range, limit, named, amount) = stored_entry i c p l w.placed (ground arith) in
            (ground arith, ground arith, range, limit, named, amount);
      }
    ]
