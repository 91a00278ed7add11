-- ===== src/Ledger/Basic/Sound.antt =====
-- The invariant of `cma_ledger_basic` as one: the asset maps agree and the money is conserved.
use machine_asset_tools.Prelude.{
  ℕ, ◌≡◌, refl, ◌⊎◌, true, false, pair_key, some, ◌==◌, if◌then◌else◌, Bool-cases, inl, inr, arith,
  nat_key, bytes_key, Result, ok, err,
}
use machine_asset_tools.Amount.{Amount}
use machine_asset_tools.Amount.Value.{IsBytes}
use machine_asset_tools.Map.{find, assign}
use machine_asset_tools.Map.Laws.{find-assign, size-assign}
use machine_asset_tools.Ledger.Types.{Bytes, Asset, Operation}
use machine_asset_tools.Ledger.Basic.Accounts.{AccountCall, retrieve_account}
use machine_asset_tools.Ledger.Basic.Accounts.Outcome.{retrieve_account-SameFunds}
use machine_asset_tools.Ledger.Basic.{
  BasicLedger, clear, deposit, withdraw, transfer, set_account_asset_balance,
}
use machine_asset_tools.Ledger.Basic.Transactions.{
  assign_supply, Refuses, deposit_cases, withdraw_cases, transfer_cases,
}
use machine_asset_tools.Ledger.Basic.Balances.{set_balance-assets, total_nil}
use machine_asset_tools.Ledger.Basic.Funds.{IsFunded}
use machine_asset_tools.Ledger.Basic.Conservation.{
  Ends, deposit-Credited, withdraw-Debited, transfer-Moved,
}
use machine_asset_tools.Ledger.Basic.Assets.Outcome.{
  key_of, Registers, same, by_id, by_key, retrieve_asset-Registers,
}
use machine_asset_tools.Ledger.Basic.Assets.Registry.{IsRegistry, retrieve_asset-IsRegistry}
use machine_asset_tools.Ledger.Basic.Assets.{AssetCall, retrieve_asset}
use machine_asset_tools.Ledger.Basic.Accounts.Registry.{
  IsAccounts, IsAccounts-maps, set_balance-IsAccounts, retrieve_account-IsAccounts,
}
use native.Mathlib.Nat.{le_refl}

pub record IsSound (l : BasicLedger) : Type 0 where
  pub registry : IsRegistry l
  pub accounts : IsAccounts l
  pub funded : IsFunded l

pub clear-IsSound : (l : BasicLedger) → IsSound (clear l)
unfolding clear find
clear-IsSound l = record {
  registry = record {
    fresh = λ i h. refl;
    supported = λ i x e. ground arith;
    key_to_asset = λ k i e. ground arith;
    asset_to_key = λ i x k e. ground arith;
  };
  accounts = record {
    fresh = λ i h. refl;
    key_to_account = λ k i e. ground arith;
    account_to_key = λ i a e t. ground arith;
  };
  funded = record {
    supply_bytes = λ i x e. ground arith;
    balance_bytes = λ i a b e. ground arith;
    conserved = λ i. total_nil i;
    unique = λ i x e. ground arith;
  };
}

-- The registry stands on the two asset maps.
pub IsRegistry-maps :
    (l l' : BasicLedger)
    → l'.lassid_to_asset ≡ l.lassid_to_asset
    → l'.asset_to_lassid ≡ l.asset_to_lassid
    → IsRegistry l
    → IsRegistry l'
IsRegistry-maps l l' assets keys r = record {
  fresh = rw assets r.fresh;
  supported = rw assets r.supported;
  key_to_asset = rw (assets, keys) r.key_to_asset;
  asset_to_key = rw (assets, keys) r.asset_to_key;
}

key_of-supply : (x : Asset) (s : Amount) → key_of (record x { supply = s }) ≡ key_of x
unfolding key_of
key_of-supply x s = refl

assign_supply-IsRegistry :
    (i : ℕ) (x : Asset) (s : Amount) (l : BasicLedger)
    → find i l.lassid_to_asset ≡ some x
    → IsRegistry l
    → IsRegistry (assign_supply i x s l)
assign_supply-IsRegistry i x s l known r =
    let x' : Asset = record x { supply = s } in
    let at : (j : ℕ)
        → find j (assign i x' l.lassid_to_asset)
          ≡ (if i == j then some x' else find j l.lassid_to_asset) =
      λ j. find-assign i j x' x l.lassid_to_asset known in
    let same_key = key_of-supply x s in
    record {
      fresh = λ j h. ground (arith, at j, r.fresh j, size-assign i x' l.lassid_to_asset);
      supported = λ j y e. ground (arith, at j, r.supported j y, r.supported i x known);
      key_to_asset = λ k j e. key_case k j (r.key_to_asset k j e) (Bool-cases (i == j));
      asset_to_key =
          λ j y k e h. ground (arith, at j, r.asset_to_key j y k, r.asset_to_key i x k known);
    }
  where
    key_case :
        (k : Bytes) (j : ℕ)
        → (y : Asset) × (find j l.lassid_to_asset ≡ some y) × (key_of y ≡ some k)
        → ((i == j) ≡ true) ⊎ ((i == j) ≡ false)
        → (y : Asset) × (find j (assign_supply i x s l).lassid_to_asset ≡ some y)
          × (key_of y ≡ some k)
    key_case k j (y, at_j, h) (inl this) = (
      record x { supply = s },
      ground (arith, find-assign i j (record x { supply = s }) x l.lassid_to_asset known),
      ground (arith, key_of-supply x s),
    )
    key_case k j (y, at_j, h) (inr other) =
        (y, ground (arith, find-assign i j (record x { supply = s }) x l.lassid_to_asset known), h)

set_balance-keys :
    (i a : ℕ) (v : Amount) (l : BasicLedger)
    → (set_account_asset_balance i a v l).asset_to_lassid ≡ l.asset_to_lassid
unfolding set_account_asset_balance
set_balance-keys i a v l = ground arith

set_balance-IsRegistry :
    (i a : ℕ) (v : Amount) (l : BasicLedger)
    → IsRegistry l
    → IsRegistry (set_account_asset_balance i a v l)
set_balance-IsRegistry i a v l =
    IsRegistry-maps l _ (set_balance-assets i a v l) (set_balance-keys i a v l)

written-registers :
    (i a : ℕ) (v s : Amount) (x : Asset) (l : BasicLedger)
    → find i l.lassid_to_asset ≡ some x
    → IsRegistry l × IsAccounts l
    → IsRegistry (assign_supply i x s (set_account_asset_balance i a v l))
      × IsAccounts (assign_supply i x s (set_account_asset_balance i a v l))
written-registers i a v s x l known (r, c) = (
  assign_supply-IsRegistry i x s (set_account_asset_balance i a v l)
      (rw (set_balance-assets i a v l) known) (set_balance-IsRegistry i a v l r),
  IsAccounts-maps (set_account_asset_balance i a v l) _ refl refl
      (set_balance-IsAccounts i a v l c),
)

refused-registers :
    (l : BasicLedger) (r : Result (Unit {0}) × BasicLedger)
    → Refuses l r
    → IsRegistry l × IsAccounts l
    → IsRegistry r.1 × IsAccounts r.1
refused-registers l (ok _, _) h s = absurd h
refused-registers l (err _ _, _) h s = rw h.0 s

deposit-registers :
    (i a : ℕ) (n : Amount) (l : BasicLedger)
    → IsRegistry l × IsAccounts l
    → IsRegistry (deposit i a n l).1 × IsAccounts (deposit i a n l).1
deposit-registers i a n l r = elim (deposit_cases i a n l) [
  | inl h ↦ refused-registers l (deposit i a n l) h r
  | inr (x, c, _, e) ↦ rw e (written-registers i a _ _ x l c.known r)
]

withdraw-registers :
    (i a : ℕ) (n : Amount) (l : BasicLedger)
    → IsRegistry l × IsAccounts l
    → IsRegistry (withdraw i a n l).1 × IsAccounts (withdraw i a n l).1
withdraw-registers i a n l r = elim (withdraw_cases i a n l) [
  | inl h ↦ refused-registers l (withdraw i a n l) h r
  | inr (x, c, _, e) ↦ rw e (written-registers i a _ _ x l c.known r)
]

transfer-registers :
    (i a b : ℕ) (n : Amount) (l : BasicLedger)
    → IsRegistry l × IsAccounts l
    → IsRegistry (transfer i a b n l).1 × IsAccounts (transfer i a b n l).1
transfer-registers i a b n l r = elim (transfer_cases i a b n l) [
  | inl h ↦ refused-registers l (transfer i a b n l) h r
  | inr (_, _, _, _, _, e) ↦ rw e (
    set_balance-IsRegistry i b _ _ (set_balance-IsRegistry i a _ l r.0),
    set_balance-IsAccounts i b _ _ (set_balance-IsAccounts i a _ l r.1),
  )
]

Ends-IsFunded :
    (P : BasicLedger → Type 0) (l : BasicLedger) (r : Result (Unit {0}) × BasicLedger)
    → ((l' : BasicLedger) → P l' → IsFunded l')
    → Ends P l r
    → IsFunded l
    → IsFunded r.1
Ends-IsFunded P l (ok _, l') f e s = f l' e
Ends-IsFunded P l (err _ _, l') f e s = rw e s

module _ (n : Amount) (bytes : IsBytes 32 n) (l : BasicLedger) (s : IsSound l) where
  pub deposit-IsSound : (i a : ℕ) → IsSound (deposit i a n l).1
  deposit-IsSound i a = record {
    registry = (deposit-registers i a n l (s.registry, s.accounts)).0;
    accounts = (deposit-registers i a n l (s.registry, s.accounts)).1;
    funded =
        Ends-IsFunded _ l (deposit i a n l) (λ l' c. c.funded)
          (deposit-Credited i a n l s.funded bytes) s.funded;
  }

  pub withdraw-IsSound : (i a : ℕ) → IsSound (withdraw i a n l).1
  withdraw-IsSound i a = record {
    registry = (withdraw-registers i a n l (s.registry, s.accounts)).0;
    accounts = (withdraw-registers i a n l (s.registry, s.accounts)).1;
    funded =
        Ends-IsFunded _ l (withdraw i a n l) (λ l' c. c.funded)
          (withdraw-Debited i a n l s.funded bytes) s.funded;
  }

  pub transfer-IsSound : (i a b : ℕ) → IsSound (transfer i a b n l).1
  transfer-IsSound i a b = record {
    registry = (transfer-registers i a b n l (s.registry, s.accounts)).0;
    accounts = (transfer-registers i a b n l (s.registry, s.accounts)).1;
    funded =
        Ends-IsFunded _ l (transfer i a b n l) (λ l' c. c.funded)
          (transfer-Moved i a b n l s.funded bytes) s.funded;
  }

pub retrieve_account-IsSound :
    (op : Operation) (c : AccountCall) → IsSound c.ledger → IsSound (retrieve_account op c).1.ledger
retrieve_account-IsSound op c s =
    let kept = retrieve_account-SameFunds op c in
    record {
      registry = IsRegistry-maps c.ledger _ kept.assets kept.asset_keys s.registry;
      accounts = retrieve_account-IsAccounts op c s.accounts;
      funded = record {
        supply_bytes = rw kept.assets s.funded.supply_bytes;
        balance_bytes = rw kept.balances s.funded.balance_bytes;
        conserved = rw (kept.assets, kept.balances) s.funded.conserved;
        unique = rw kept.assets s.funded.unique;
      };
    }

Registers-IsAccounts : (l l' : BasicLedger) → Registers l l' → IsAccounts l → IsAccounts l'
Registers-IsAccounts l l' (same e) r = rw e r
Registers-IsAccounts l l' (by_id e) r = rw e (IsAccounts-maps l _ refl refl r)
Registers-IsAccounts l l' (by_key key x _ _ _ _ e) r = rw e (IsAccounts-maps l _ refl refl r)

pub retrieve_asset-IsSound :
    (op : Operation) (c : AssetCall) → IsSound c.ledger → IsSound (retrieve_asset op c).1.ledger
retrieve_asset-IsSound op c s =
    let (r, f) = retrieve_asset-IsRegistry op c s.registry s.funded in
    record {
      registry = r;
      accounts =
          Registers-IsAccounts c.ledger _
            (retrieve_asset-Registers op c (s.registry.fresh _ (le_refl _))) s.accounts;
      funded = f;
    }
