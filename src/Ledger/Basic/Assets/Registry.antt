-- ===== src/Ledger/Basic/Assets/Registry.antt =====
-- The two asset maps of `cma_ledger_basic` agree, and stay so under every registration.
use machine_asset_tools.Prelude.{
  ℕ, ◌≤◌, ◌≡◌, ◌≢◌, refl, true, false, none, some, nat_key, bytes_key, ◌⊎◌, inl, inr, arith,
  Bool-cases, bytes_eq_iff, bytes_eq,
}
use native.Mathlib.Nat.{le_refl}
use machine_asset_tools.Amount.{zero_amount}
use machine_asset_tools.Amount.Compare.{zero_amount-value}
use machine_asset_tools.Map.{find, size}
use machine_asset_tools.Map.Laws.{find-cons}
use machine_asset_tools.Ledger.Types.{Bytes, Asset, AssetType, Operation}
use machine_asset_tools.Ledger.Basic.{BasicLedger}
use machine_asset_tools.Ledger.Basic.Funds.{IsFunded}
use machine_asset_tools.Ledger.Basic.Assets.{AssetCall, retrieve_asset}
use machine_asset_tools.Ledger.Basic.Assets.Outcome.{
  with_asset, with_keyed_asset, IsFresh, key_of, Registers, same, by_id, by_key,
  retrieve_asset-Registers,
}

pub record IsRegistry (l : BasicLedger) : Type 0 where
  -- Ids are given out in order.
  pub fresh : (i : ℕ) → size l.lassid_to_asset ≤ i → find i l.lassid_to_asset ≡ none
  pub supported : (i : ℕ) (x : Asset) → find i l.lassid_to_asset ≡ some x → x.type ≢ AssetType.base
  -- A key leads to an asset that has this key.
  pub key_to_asset :
      (key : Bytes) (i : ℕ)
      → find key l.asset_to_lassid ≡ some i
      → (x : Asset) × (find i l.lassid_to_asset ≡ some x) × (key_of x ≡ some key)
  -- The key of an asset leads to it.
  pub asset_to_key :
      (i : ℕ) (x : Asset) (key : Bytes)
      → find i l.lassid_to_asset ≡ some x
      → key_of x ≡ some key
      → find key l.asset_to_lassid ≡ some i

IsRegistry-IsFresh : (l : BasicLedger) → IsRegistry l → IsFresh l
IsRegistry-IsFresh l r = r.fresh (size l.lassid_to_asset) (le_refl _)

with_asset-IsRegistry :
    (x : Asset) (l : BasicLedger)
    → key_of x ≡ none
    → x.type ≢ AssetType.base
    → IsRegistry l
    → IsRegistry (with_asset x l)
with_asset-IsRegistry x l no_key ok_type r =
    let n = size l.lassid_to_asset in
    let new = IsRegistry-IsFresh l r in
    record {
      fresh = λ i h. ground (arith, find-cons n i x l.lassid_to_asset, r.fresh i);
      supported = λ i y e. ground (arith, find-cons n i x l.lassid_to_asset, r.supported i y);
      key_to_asset = λ key i e.
          let (y, at_i, k) = r.key_to_asset key i e in
          (y, ground (arith, find-cons n i x l.lassid_to_asset), k);
      asset_to_key =
          λ i y key e k. ground (arith, find-cons n i x l.lassid_to_asset, r.asset_to_key i y key);
    }

with_keyed_asset-IsRegistry :
    (key : Bytes) (x : Asset) (l : BasicLedger)
    → key_of x ≡ some key
    → x.type ≢ AssetType.base
    → find key l.asset_to_lassid ≡ none
    → IsRegistry l
    → IsRegistry (with_keyed_asset key x l)
with_keyed_asset-IsRegistry key x l its_key ok_type new_key r =
    let n = size l.lassid_to_asset in
    let new = IsRegistry-IsFresh l r in
    record {
      fresh = λ i h. ground (arith, find-cons n i x l.lassid_to_asset, r.fresh i);
      supported = λ i y e. ground (arith, find-cons n i x l.lassid_to_asset, r.supported i y);
      key_to_asset = λ k i e. key_case k i (Bool-cases (bytes_eq key k)) e;
      asset_to_key = λ i y k e h. ground (
        arith,
        find-cons n i x l.lassid_to_asset,
        find-cons key k n l.asset_to_lassid,
        bytes_eq_iff key k,
        r.asset_to_key i y k,
      );
    }
  where
    key_case :
        (k : Bytes) (i : ℕ)
        → (bytes_eq key k ≡ true) ⊎ (bytes_eq key k ≡ false)
        → find k (with_keyed_asset key x l).asset_to_lassid ≡ some i
        → (y : Asset) × (find i (with_keyed_asset key x l).lassid_to_asset ≡ some y)
          × (key_of y ≡ some k)
    key_case k i (inl this) e = (
      x,
      ground (
        arith,
        find-cons key k (size l.lassid_to_asset) l.asset_to_lassid,
        find-cons (size l.lassid_to_asset) i x l.lassid_to_asset,
      ),
      ground (arith, bytes_eq_iff key k),
    )
    key_case k i (inr other) e =
        let (y, at_i, h) =
          r.key_to_asset k i
            (ground (arith, find-cons key k (size l.lassid_to_asset) l.asset_to_lassid)) in
        (
          y,
          ground (
            arith,
            find-cons (size l.lassid_to_asset) i x l.lassid_to_asset,
            r.fresh (size l.lassid_to_asset) (le_refl _),
          ),
          h,
        )

-- A new asset with no supply leaves the money alone.
IsFunded-with_asset :
    (x : Asset) (l l' : BasicLedger)
    → x.supply ≡ zero_amount
    → IsFresh l
    → l'.lassid_to_asset ≡ (with_asset x l).lassid_to_asset
    → l'.account_asset_balance ≡ l.account_asset_balance
    → IsFunded l
    → IsFunded l'
IsFunded-with_asset x l l' none_yet new assets balances f =
    let n = size l.lassid_to_asset in
    record {
      supply_bytes = λ i y e. ground (arith, find-cons n i x l.lassid_to_asset, f.supply_bytes i y);
      balance_bytes = λ i a b e. f.balance_bytes i a b (rw balances at e);
      conserved =
          λ i. ground (arith, find-cons n i x l.lassid_to_asset, f.conserved i, zero_amount-value);
      unique = λ i y e t.
          ground (arith, find-cons n i x l.lassid_to_asset, f.unique i y, zero_amount-value);
    }

Registers-keeps :
    (l l' : BasicLedger) → IsRegistry l → IsFunded l → Registers l l' → IsRegistry l' × IsFunded l'
Registers-keeps l l' r f (same e) = (rw e r, rw e f)
Registers-keeps l l' r f (by_id e) = (
  rw e (with_asset-IsRegistry _ l (unfold key_of in refl) (λ q. cc) r),
  rw e (IsFunded-with_asset _ l _ refl (IsRegistry-IsFresh l r) refl refl f),
)
Registers-keeps l l' r f (by_key key x k s b new e) = (
  rw e (with_keyed_asset-IsRegistry key x l k b new r),
  rw e (IsFunded-with_asset x l _ s (IsRegistry-IsFresh l r) refl refl f),
)

-- On a ledger whose asset maps agree and that keeps the money invariant, `retrieve_asset` leaves a
-- ledger of the same kind, for every operation and every arguments, whether it returns or throws.
pub retrieve_asset-IsRegistry :
    (op : Operation) (c : AssetCall)
    → IsRegistry c.ledger
    → IsFunded c.ledger
    → IsRegistry (retrieve_asset op c).1.ledger × IsFunded (retrieve_asset op c).1.ledger
retrieve_asset-IsRegistry op c r f =
    Registers-keeps c.ledger _ r f (retrieve_asset-Registers op c (IsRegistry-IsFresh c.ledger r))
