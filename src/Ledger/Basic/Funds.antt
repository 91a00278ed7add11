-- ===== src/Ledger/Basic/Funds.antt =====
-- The money in a `cma_ledger_basic`: the invariant that ties each supply to the balances, and what
-- the two writes of a transaction do to it.
use machine_asset_tools.Prelude.{
  ℕ, ◌+◌, ◌≤◌, ◌≡◌, true, some, ◌==◌, if◌then◌else◌, arith, nat_key, pair_key, pair_eq,
}
use machine_asset_tools.Amount.{Amount}
use machine_asset_tools.Amount.Value.{value, IsBytes}
use machine_asset_tools.Map.{find}
use machine_asset_tools.Map.Laws.{find-assign}
use machine_asset_tools.Ledger.Types.{Asset, is_token_address_id}
use machine_asset_tools.Ledger.Basic.{BasicLedger, set_account_asset_balance}
use machine_asset_tools.Ledger.Basic.Balances.{
  total, balance_value, supply_value, find-set_balance, total-set_balance, set_balance-assets,
}
use machine_asset_tools.Ledger.Basic.Transactions.{assign_supply}

-- Every amount has 32 bytes, the supply of an asset is the sum of its balances, and there is at
-- most one of an asset with an id.
pub record IsFunded (l : BasicLedger) : Type 0 where
  pub supply_bytes : (i : ℕ) (x : Asset) → find i l.lassid_to_asset ≡ some x → IsBytes 32 x.supply
  pub balance_bytes :
      (i a : ℕ) (b : Amount) → find (i, a) l.account_asset_balance ≡ some b → IsBytes 32 b
  pub conserved : (i : ℕ) → total i l.account_asset_balance ≡ supply_value i l
  pub unique :
      (i : ℕ) (x : Asset)
      → find i l.lassid_to_asset ≡ some x
      → is_token_address_id x.type ≡ true
      → value x.supply ≤ 1

-- Every balance has 32 bytes.
abbrev pub BalanceBytes : BasicLedger → Type 0
BalanceBytes l =
    (i a : ℕ) (b : Amount) → find (i, a) l.account_asset_balance ≡ some b → IsBytes 32 b

pub set-BalanceBytes :
    (i a : ℕ) (v : Amount) (l : BasicLedger)
    → BalanceBytes l
    → IsBytes 32 v
    → (j c : ℕ) (b : Amount)
    → find (j, c) (set_account_asset_balance i a v l).account_asset_balance ≡ some b
    → IsBytes 32 b
set-BalanceBytes i a v l old bytes j c b e = ground (arith, find-set_balance i a v l j c, old j c b)

pub balance_value-set_balance :
    (i a : ℕ) (v : Amount) (l : BasicLedger) (j c : ℕ)
    → balance_value j c (set_account_asset_balance i a v l)
      ≡ (if pair_eq (i, a) (j, c) then value v else balance_value j c l)
balance_value-set_balance i a v l j c = ground (arith, find-set_balance i a v l j c)

pub find-written :
    (i a : ℕ) (v s : Amount) (l : BasicLedger) (x : Asset)
    → find i l.lassid_to_asset ≡ some x
    → (j : ℕ)
    → find j (assign_supply i x s (set_account_asset_balance i a v l)).lassid_to_asset
      ≡ (if i == j then some (record x { supply = s }) else find j l.lassid_to_asset)
find-written i a v s l x known j =
    rw (set_balance-assets i a v l) (find-assign i j _ x l.lassid_to_asset known)

-- The two writes keep the invariant when they move the balance and the supply alike.
pub written-IsFunded :
    (i a : ℕ) (v s : Amount) (l : BasicLedger) (x : Asset)
    → find i l.lassid_to_asset ≡ some x
    → IsFunded l
    → IsBytes 32 v
    → IsBytes 32 s
    → balance_value i a l + value s ≡ value v + value x.supply
    → (is_token_address_id x.type ≡ true → value s ≤ 1)
    → IsFunded (assign_supply i x s (set_account_asset_balance i a v l))
written-IsFunded i a v s l x known funded v_bytes s_bytes moved one = record {
  supply_bytes = λ j y e. ground (arith, find-written i a v s l x known j, funded.supply_bytes j y);
  balance_bytes = λ j c b e. set-BalanceBytes i a v l funded.balance_bytes v_bytes j c b e;
  conserved = λ j.
      ground
        (arith, find-written i a v s l x known j, total-set_balance i a v l j, funded.conserved j);
  unique = λ j y e t. ground (arith, find-written i a v s l x known j, funded.unique j y);
}
