-- ===== src/Ledger/Memory/Sound/HalfWay.antt =====
-- A transfer of `cma_ledger_memory` that stops between its two writes.
use mathlib.Core.Path.{subst}
use machine_asset_tools.Prelude.{
  ℕ, ◌≡◌, ◌≢◌, true, false, none, some, arith, nat_key, pair_key, inl, inr, Option-cases, ok, err,
  ◌∙◌, ap, sym,
}
use machine_asset_tools.Amount.{
  Amount, zero_amount, is_zero, amount_checked_add, amount_checked_sub,
}
use machine_asset_tools.Map.{find, size}
use machine_asset_tools.Ledger.Types.{Asset}
use machine_asset_tools.Ledger.Code
use machine_asset_tools.Ledger.Memory.{
  MemoryLedger, AccountStruct, Balance, find_asset, find_account, get_account_asset_balance,
}
use machine_asset_tools.Ledger.Memory.Update.{
  set_account_asset_balance, update_balance, create_balance, write_amount,
}
use machine_asset_tools.Ledger.Memory.Transact
use machine_asset_tools.Ledger.Memory.Placed.{stored}
use machine_asset_tools.Ledger.Memory.Fields.{written-Wrote}
use machine_asset_tools.Ledger.Memory.Changed.{IsChanged, written-IsChanged}
use machine_asset_tools.Ledger.Memory.Sound.{IsSound}

-- A write of a positive balance over one that is there.
over_write :
    (i c : ℕ) (v : Amount) (o : Balance) (l : MemoryLedger)
    → find (i, c) l.account_asset_balance ≡ some o
    → is_zero v ≡ false
    → set_account_asset_balance i c v l ≡ (ok tt, write_amount o.type o.place v l)
unfolding set_account_asset_balance update_balance
over_write i c v o l here positive = ground arith

-- A new balance where there is no room.
no_room :
    (i d : ℕ) (v : Amount) (l : MemoryLedger)
    → find (i, d) l.account_asset_balance ≡ none
    → size l.account_asset_balance ≡ l.max_balances
    → set_account_asset_balance i d v l ≡ (err "Max balances reached" Code.max_balances_reached, l)
unfolding set_account_asset_balance create_balance
no_room i d v l new full = ground arith

module _ (i c d : ℕ) (amount old : Amount) (x : Asset) (a a' : AccountStruct)
    (l : MemoryLedger) where
  passes_checks :
      find i l.lassid_to_asset ≡ some x
      → c ≢ d
      → find c l.laccid_to_account ≡ some a
      → find d l.laccid_to_account ≡ some a'
      → stored (i, c) l ≡ some old
      → stored (i, d) l ≡ none
      → (amount_checked_sub old amount).1 ≡ true
      → (amount_checked_add zero_amount amount).1 ≡ true
      → (l1 : MemoryLedger)
      → set_account_asset_balance i c (amount_checked_sub old amount).0 l ≡ (ok tt, l1)
      → Transact.transfer i c d amount l
        ≡ set_account_asset_balance i d (amount_checked_add zero_amount amount).0 l1
  unfolding Transact.transfer Transact.check_asset Transact.balance_after_debit
      Transact.balance_after_credit find_asset find_account get_account_asset_balance
  passes_checks asset ne from to has new covered fits l1 e = ground arith

-- On a sound memory ledger that is full, a transfer of a known asset between two known and
-- different accounts, with a sender's balance that covers the amount and leaves a rest, and a
-- receiver with no entry, throws with the code for reached balances and leaves the sender's
-- balance lowered, the type, owner and token of its entry, the bytes of every other balance, the
-- assets, the accounts but for their numbers of balances, the limits, the ids and the offset as
-- they were: the amount is in no account.
pub transfer-stops_half_way :
    (i c d : ℕ) (amount old : Amount) (x : Asset) (a a' : AccountStruct) (l : MemoryLedger)
    → IsSound l
    → find i l.lassid_to_asset ≡ some x
    → c ≢ d
    → find c l.laccid_to_account ≡ some a
    → find d l.laccid_to_account ≡ some a'
    → stored (i, c) l ≡ some old
    → stored (i, d) l ≡ none
    → (amount_checked_sub old amount).1 ≡ true
    → is_zero (amount_checked_sub old amount).0 ≡ false
    → (amount_checked_add zero_amount amount).1 ≡ true
    → size l.account_asset_balance ≡ l.max_balances
    → ((Transact.transfer i c d amount l).0 ≡ err "Max balances reached" Code.max_balances_reached)
      × IsChanged
          (i, c)
          (some (amount_checked_sub old amount).0)
          l
          (Transact.transfer i c d amount l).1
unfolding IsSound
transfer-stops_half_way i c d amount old x a a' l w asset ne from to has new covered left fits
      full =
    elim (Option-cases (find (i, c) l.account_asset_balance)) [
      | inl missing ↦ absurd (ground arith)
      | inr (o, here) ↦
          let v = (amount_checked_sub old amount).0 in
          let l1 = write_amount o.type o.place v l in
          let wrote = written-Wrote o.type o.place v l in
          let whole =
            passes_checks i c d amount old x a a' l asset ne from to has new covered fits l1
              (over_write i c v o l here left)
            ∙ no_room i d (amount_checked_add zero_amount amount).0 l1
                (ap (find (i, d)) wrote.account_asset_balance ∙ ground arith)
                (ap (λ m. size m) wrote.account_asset_balance ∙ full ∙ sym wrote.max_balances) in
          (
            ap (λ r. r.0) whole,
            subst (λ r. IsChanged (i, c) (some v) l r.1) (sym whole)
                (written-IsChanged o.type (i, c) o.place v l w.placed w.counted here),
          )
    ]
