-- ===== src/Ledger/Basic/Conservation.antt =====
-- The transactions of `cma_ledger_basic` as moves of money: what each changes, that it keeps the
-- invariant, and that one that throws changes nothing.
use machine_asset_tools.Prelude.{
  ℕ, ◌+◌, ◌≤◌, ◌≡◌, ◌≢◌, ◌∙◌, true, ◌==◌, if◌then◌else◌, arith, nat_key, pair_key, pair_eq, inl,
  inr, Option-cases, Result, ok, err,
}
use machine_asset_tools.Amount.{Amount, amount_checked_add, amount_checked_sub, is_zero, is_one}
use machine_asset_tools.Amount.Value.{value, IsBytes}
use machine_asset_tools.Amount.Arithmetic.{exact_add, exact_sub}
use machine_asset_tools.Amount.Compare.{is_zero_iff, zero_amount-value}
use machine_asset_tools.Map.{find}
use machine_asset_tools.Ledger.Types.{Asset}
use machine_asset_tools.Ledger.Basic.{
  BasicLedger, set_account_asset_balance, deposit, withdraw, transfer,
}
use machine_asset_tools.Ledger.Basic.Balances.{
  balance_value, supply_value, total-set_balance, set_balance-assets,
}
use machine_asset_tools.Ledger.Basic.Transactions.{
  Refuses, deposit_cases, withdraw_cases, transfer_cases, DepositChecked, CreditChecked,
  WithdrawChecked, DebitChecked, deposited, withdrawn, transferred, stored_balance,
}
use machine_asset_tools.Ledger.Basic.Funds.{
  IsFunded, set-BalanceBytes, written-IsFunded, find-written, balance_value-set_balance,
}

-- A call that returns leaves a ledger of which `P` holds; one that throws leaves the old one.
abbrev pub Ends : (BasicLedger → Type 0) → BasicLedger → Result (Unit {0}) × BasicLedger → Type 0
Ends P l (ok _, l') = P l'
Ends P l (err _ _, l') = l' ≡ l

Ends-refused :
    (P : BasicLedger → Type 0) (l : BasicLedger) (r : Result (Unit {0}) × BasicLedger)
    → Refuses l r
    → Ends P l r
Ends-refused P l (ok _, l') h = absurd h
Ends-refused P l (err _ _, l') h = h.0

pub stored-IsBytes : (i a : ℕ) (l : BasicLedger) → IsFunded l → IsBytes 32 (stored_balance i a l)
stored-IsBytes i a l f = elim (Option-cases (find (i, a) l.account_asset_balance)) [
  | inl e ↦ ground arith
  | inr (b, e) ↦ ground (arith, f.balance_bytes i a b e)
]

pub stored_value : (i a : ℕ) (l : BasicLedger) → value (stored_balance i a l) ≡ balance_value i a l
stored_value i a l = ground (arith, zero_amount-value)

nft_total :
    (old amount : Amount) {n : ℕ}
    → IsBytes 32 old
    → IsBytes 32 amount
    → (is_zero old ≡ true) × (is_one amount ≡ true)
    → n ≡ value old + value amount
    → n ≤ 1
nft_total old amount ho ha h e =
    omega (arith, (is_zero_iff old ho).0.0 h.0, (is_zero_iff amount ha).1.0 h.1)

-- The ledger after `n` units of asset `i` came to account `a` from outside.
pub record Credited (i a n : ℕ) (l l' : BasicLedger) : Type 0 where
  pub funded : IsFunded l'
  pub balances :
      (j c : ℕ)
      → balance_value j c l' ≡ balance_value j c l + (if pair_eq (i, a) (j, c) then n else 0)
  pub supplies : (j : ℕ) → supply_value j l' ≡ supply_value j l + (if i == j then n else 0)

deposited-Credited :
    (i a : ℕ) (amount : Amount) (l : BasicLedger) (x : Asset)
    → IsFunded l
    → IsBytes 32 amount
    → DepositChecked i amount l x
    → CreditChecked i a amount l
    → Credited i a (value amount) l (deposited i a amount x l)
deposited-Credited i a amount l x f bytes checked credit =
    let old = stored_balance i a l in
    let (s_bytes, s_sum) =
      exact_add x.supply amount (f.supply_bytes i x checked.known) bytes checked.fits in
    let (b_bytes, b_sum) = exact_add old amount (stored-IsBytes i a l f) bytes credit.fits in
    let v = (amount_checked_add old amount).0 in
    let s = (amount_checked_add x.supply amount).0 in
    record {
      funded =
          written-IsFunded i a v s l x checked.known f b_bytes s_bytes
            (omega (arith, stored_value i a l))
            (λ t.
              nft_total x.supply amount (f.supply_bytes i x checked.known) bytes
                (checked.nft_is_one t) s_sum);
      balances = λ j c. ground (arith, balance_value-set_balance i a v l j c, stored_value i a l);
      supplies = λ j. ground (arith, find-written i a v s l x checked.known j);
    }

-- On a ledger that keeps the money invariant, and for an amount of 32 bytes, a deposit that
-- returns adds the amount to one balance and to the supply of its asset, changes no other balance
-- or supply, and keeps the invariant; one that throws leaves the ledger as it was.
pub deposit-Credited :
    (i a : ℕ) (amount : Amount) (l : BasicLedger)
    → IsFunded l
    → IsBytes 32 amount
    → Ends (Credited i a (value amount) l) l (deposit i a amount l)
deposit-Credited i a amount l f bytes = elim (deposit_cases i a amount l) [
  | inl r ↦ Ends-refused (Credited i a (value amount) l) l (deposit i a amount l) r
  | inr (x, checked, credit, e) ↦ rw e (deposited-Credited i a amount l x f bytes checked credit)
]

-- The ledger after `n` units of asset `i` left account `a`.
pub record Debited (i a n : ℕ) (l l' : BasicLedger) : Type 0 where
  pub funded : IsFunded l'
  pub balances :
      (j c : ℕ)
      → balance_value j c l' + (if pair_eq (i, a) (j, c) then n else 0) ≡ balance_value j c l
  pub supplies : (j : ℕ) → supply_value j l' + (if i == j then n else 0) ≡ supply_value j l

withdrawn-Debited :
    (i a : ℕ) (amount : Amount) (l : BasicLedger) (x : Asset)
    → IsFunded l
    → IsBytes 32 amount
    → WithdrawChecked i amount l x
    → DebitChecked i a amount l
    → Debited i a (value amount) l (withdrawn i a amount x l)
withdrawn-Debited i a amount l x f bytes checked debit =
    let old = stored_balance i a l in
    let (s_bytes, s_sum) =
      exact_sub x.supply amount (f.supply_bytes i x checked.known) bytes checked.covered in
    let (b_bytes, b_sum) = exact_sub old amount (stored-IsBytes i a l f) bytes debit.covered in
    let v = (amount_checked_sub old amount).0 in
    let s = (amount_checked_sub x.supply amount).0 in
    record {
      funded =
          written-IsFunded i a v s l x checked.known f b_bytes s_bytes
            (omega (arith, stored_value i a l)) (λ t. omega (arith, f.unique i x checked.known t));
      balances = λ j c. ground (arith, balance_value-set_balance i a v l j c, stored_value i a l);
      supplies = λ j. ground (arith, find-written i a v s l x checked.known j);
    }

-- On a ledger that keeps the money invariant, and for an amount of 32 bytes, a withdrawal that
-- returns takes the amount from one balance and from the supply of its asset, changes no other
-- balance or supply, and keeps the invariant; one that throws leaves the ledger as it was.
pub withdraw-Debited :
    (i a : ℕ) (amount : Amount) (l : BasicLedger)
    → IsFunded l
    → IsBytes 32 amount
    → Ends (Debited i a (value amount) l) l (withdraw i a amount l)
withdraw-Debited i a amount l f bytes = elim (withdraw_cases i a amount l) [
  | inl r ↦ Ends-refused (Debited i a (value amount) l) l (withdraw i a amount l) r
  | inr (x, checked, debit, e) ↦ rw e (withdrawn-Debited i a amount l x f bytes checked debit)
]

-- The ledger after `n` units of asset `i` went from account `a` to account `b`.
pub record Moved (i a b n : ℕ) (l l' : BasicLedger) : Type 0 where
  pub funded : IsFunded l'
  pub distinct : a ≢ b
  pub balances :
      (j c : ℕ)
      → balance_value j c l' + (if pair_eq (i, a) (j, c) then n else 0)
        ≡ balance_value j c l + (if pair_eq (i, b) (j, c) then n else 0)
  pub supplies : (j : ℕ) → supply_value j l' ≡ supply_value j l

transferred-assets :
    (i a b : ℕ) (amount : Amount) (l : BasicLedger)
    → (transferred i a b amount l).lassid_to_asset ≡ l.lassid_to_asset
transferred-assets i a b amount l = set_balance-assets _ _ _ _ ∙ set_balance-assets _ _ _ _

transferred-Moved :
    (i a b : ℕ) (amount : Amount) (l : BasicLedger)
    → a ≢ b
    → IsFunded l
    → IsBytes 32 amount
    → DebitChecked i a amount l
    → CreditChecked i b amount l
    → Moved i a b (value amount) l (transferred i a b amount l)
transferred-Moved i a b amount l ne f bytes debit credit =
    let (v_bytes, v_sum) =
      exact_sub (stored_balance i a l) amount (stored-IsBytes i a l f) bytes debit.covered in
    let (w_bytes, w_sum) =
      exact_add (stored_balance i b l) amount (stored-IsBytes i b l f) bytes credit.fits in
    let v = (amount_checked_sub (stored_balance i a l) amount).0 in
    let w = (amount_checked_add (stored_balance i b l) amount).0 in
    let mid = set_account_asset_balance i a v l in
    let same = transferred-assets i a b amount l in
    record {
      funded = record {
        supply_bytes = λ j x e. f.supply_bytes j x (rw same at e);
        balance_bytes =
            set-BalanceBytes i b w mid (set-BalanceBytes i a v l f.balance_bytes v_bytes) w_bytes;
        conserved = λ j. rw same (
            ground (
              arith,
              total-set_balance i a v l j,
              total-set_balance i b w mid j,
              balance_value-set_balance i a v l i b,
              stored_value i a l,
              stored_value i b l,
              f.conserved j,
            ));
        unique = λ j x e t. f.unique j x (rw same at e) t;
      };
      distinct = ne;
      balances = λ j c. ground (
        arith,
        balance_value-set_balance i a v l j c,
        balance_value-set_balance i b w mid j c,
        stored_value i a l,
        stored_value i b l,
      );
      supplies = λ j. rw same;
    }

-- On a ledger that keeps the money invariant, and for an amount of 32 bytes, a transfer that
-- returns takes the amount from the first balance, adds it to the second, has two different
-- accounts, changes no other balance and no supply, and keeps the invariant; one that throws
-- leaves the ledger as it was.
pub transfer-Moved :
    (i a b : ℕ) (amount : Amount) (l : BasicLedger)
    → IsFunded l
    → IsBytes 32 amount
    → Ends (Moved i a b (value amount) l) l (transfer i a b amount l)
transfer-Moved i a b amount l f bytes = elim (transfer_cases i a b amount l) [
  | inl r ↦ Ends-refused (Moved i a b (value amount) l) l (transfer i a b amount l) r
  | inr (x, known, ne, debit, credit, e) ↦
      rw e (transferred-Moved i a b amount l ne f bytes debit credit)
]
