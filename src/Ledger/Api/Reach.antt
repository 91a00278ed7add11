-- ===== src/Ledger/Api/Reach.antt =====
-- Programs that use the C interface of the ledger (src/ledger.cpp): every sequence of calls keeps
-- the ledger's invariant.
use machine_asset_tools.Prelude.{
  ℕ, if◌then◌else◌, ◌⊎◌, ◌≡◌, Bool, Option, none, some, inl, inr, arith, Option-cases, Bool-cases,
  true, false,
}
use machine_asset_tools.Amount.{Amount}
use machine_asset_tools.Amount.Value.{IsBytes}
use machine_asset_tools.Ledger.Types.{Operation}
use machine_asset_tools.Ledger.Basic.{BasicLedger, clear, cma_ledger_basic}
use machine_asset_tools.Ledger.Basic.Sound.{
  IsSound, clear-IsSound, deposit-IsSound, withdraw-IsSound, transfer-IsSound,
  retrieve_account-IsSound, retrieve_asset-IsSound,
}
use machine_asset_tools.Ledger.Basic.Assets.{AssetArgs, retrieve_asset}
use machine_asset_tools.Ledger.Basic.Accounts.{AccountArgs, retrieve_account}
use machine_asset_tools.Ledger.Api.{
  Object, Thread, finish, initialized, is_initialized, cma_ledger_init, cma_ledger_fini,
  cma_ledger_reset, cma_ledger_retrieve_asset, cma_ledger_retrieve_account, cma_ledger_get_balance,
}
use machine_asset_tools.Ledger.Api.Outcome.{
  Transaction, deposit_call, withdraw_call, transfer_call, call, amount_of, method_of, call_outcome,
}

-- One call of the interface; an amount that is given has 32 bytes.
pub data Step (t : Thread) : Thread → Type 0 where
  init : Step t (cma_ledger_init t).2
  fini : Step t (cma_ledger_fini t).2
  reset : Step t (cma_ledger_reset t).2
  retrieve_asset_call :
      (b : Bool) (op : Operation) (args : AssetArgs)
      → Step t (cma_ledger_retrieve_asset b op args t).2
  retrieve_account_call :
      (b : Bool) (op : Operation) (args : AccountArgs)
      → Step t (cma_ledger_retrieve_account b op args t).2
  get_balance_call :
      (i a : ℕ) (b : Bool) (n : Option Amount) → Step t (cma_ledger_get_balance i a b n t).2
  transact :
      (x : Transaction) → ((n : Amount) → amount_of x ≡ some n → IsBytes 32 n) → Step t (call x t).2

-- Any number of calls.
pub data Steps (t : Thread) : Thread → Type 0 where
  none_yet : Steps t t
  more : {u v : Thread} → Steps t u → Step u v → Steps t v

-- The object behind the pointer, if there is one and it is initialised, is sound.
abbrev pub IsSoundObject : Option Object → Type 0
IsSoundObject none = Unit {0}
IsSoundObject (some o) = is_initialized o ≡ true → IsSound o.basic

-- The pointer after a call that does `f` to the maps of an initialised object.
on_ready : (BasicLedger → BasicLedger) → Option Object → Option Object
on_ready f none = none
on_ready f (some o) = if is_initialized o then some (record o { basic = f o.basic }) else some o

on_ready-IsSoundObject :
    (f : BasicLedger → BasicLedger) (o : Option Object)
    → ((l : BasicLedger) → IsSound l → IsSound (f l))
    → IsSoundObject o
    → IsSoundObject (on_ready f o)
unfolding on_ready is_initialized
on_ready-IsSoundObject f none keeps s = tt
on_ready-IsSoundObject f (some o) keeps s = ready_case (Bool-cases (is_initialized o))
  where
    ready_case :
        (is_initialized o ≡ true) ⊎ (is_initialized o ≡ false) → IsSoundObject (on_ready f (some o))
    ready_case (inl e) = rw e (λ _. keeps o.basic (s e))
    ready_case (inr e) = rw e s

reset-ledger : (t : Thread) → (cma_ledger_reset t).2.ledger ≡ on_ready clear t.ledger
unfolding cma_ledger_reset finish initialized on_ready
reset-ledger t = ground arith

fini-ledger : (t : Thread) → IsSoundObject t.ledger → IsSoundObject (cma_ledger_fini t).2.ledger
unfolding cma_ledger_fini finish is_initialized
fini-ledger t s = elim (Option-cases t.ledger) [ inl e ↦ ground arith | inr (o, e) ↦ ground arith ]

get_balance-ledger :
    (i a : ℕ) (b : Bool) (n : Option Amount) (t : Thread)
    → (cma_ledger_get_balance i a b n t).2.ledger ≡ t.ledger
unfolding cma_ledger_get_balance finish initialized
get_balance-ledger i a b n t = ground arith

retrieve_asset-ledger :
    (b : Bool) (op : Operation) (args : AssetArgs) (t : Thread)
    → (cma_ledger_retrieve_asset b op args t).2.ledger ≡ (
        if b
        then on_ready
            (λ l. (retrieve_asset op (record { ledger = l; args = args })).1.ledger)
            t.ledger
        else t.ledger)
unfolding cma_ledger_retrieve_asset finish initialized on_ready
retrieve_asset-ledger b op args t = ground arith

retrieve_account-ledger :
    (b : Bool) (op : Operation) (args : AccountArgs) (t : Thread)
    → (cma_ledger_retrieve_account b op args t).2.ledger ≡ (
        if b
        then on_ready
            (λ l. (retrieve_account op (record { ledger = l; args = args })).1.ledger)
            t.ledger
        else t.ledger)
unfolding cma_ledger_retrieve_account finish initialized on_ready
retrieve_account-ledger b op args t = ground arith

init-ledger : (t : Thread) → IsSoundObject (cma_ledger_init t).2.ledger
unfolding cma_ledger_init finish clear
init-ledger t = λ _. clear-IsSound cma_ledger_basic

registered :
    (op : Operation) (args : AssetArgs) (l : BasicLedger)
    → IsSound l
    → IsSound (retrieve_asset op (record { ledger = l; args = args })).1.ledger
registered op args l s = retrieve_asset-IsSound op (record { ledger = l; args = args }) s

method_of-IsSound :
    (x : Transaction) (n : Amount) (l : BasicLedger)
    → IsBytes 32 n
    → IsSound l
    → IsSound (method_of x n l).1
unfolding method_of
method_of-IsSound (deposit_call i a _) n l bytes s = deposit-IsSound n bytes l s i a
method_of-IsSound (withdraw_call i a _) n l bytes s = withdraw-IsSound n bytes l s i a
method_of-IsSound (transfer_call i a b _) n l bytes s = transfer-IsSound n bytes l s i a b

IsSoundObject-if :
    (b : Bool) (o o' : Option Object)
    → IsSoundObject o
    → IsSoundObject o'
    → IsSoundObject (if b then o else o')
IsSoundObject-if true o o' s s' = s
IsSoundObject-if false o o' s s' = s'

-- Every call of the interface keeps an initialised ledger sound, whatever code it returns.
pub Step-IsSoundObject :
    (t t' : Thread) → Step t t' → IsSoundObject t.ledger → IsSoundObject t'.ledger
Step-IsSoundObject t _ init s = init-ledger t
Step-IsSoundObject t _ fini s = fini-ledger t s
Step-IsSoundObject t _ reset s =
    rw (reset-ledger t) (on_ready-IsSoundObject clear t.ledger (λ l _. clear-IsSound l) s)
Step-IsSoundObject t _ (retrieve_asset_call b op args) s =
    rw (retrieve_asset-ledger b op args t)
      (IsSoundObject-if b _ t.ledger (on_ready-IsSoundObject _ t.ledger (registered op args) s) s)
Step-IsSoundObject t _ (retrieve_account_call b op args) s =
    rw (retrieve_account-ledger b op args t) (
      IsSoundObject-if b _ t.ledger
        (on_ready-IsSoundObject _ t.ledger
          (λ l. retrieve_account-IsSound op (record { ledger = l; args = args })) s)
        s)
Step-IsSoundObject t _ (get_balance_call i a b n) s = rw (get_balance-ledger i a b n t) s
Step-IsSoundObject t _ (transact x bytes) s = elim (call_outcome x t) [
  | inl f ↦ rw f.ledger s
  | inr p ↦ rw p.ledger (λ _.
      method_of-IsSound x p.amount p.object.basic (bytes p.amount p.amount_given)
        (object_sound t.ledger p.object s p.given p.ready))
]
  where
    object_sound :
        (l : Option Object) (o : Object)
        → IsSoundObject l
        → l ≡ some o
        → is_initialized o ≡ true
        → IsSound o.basic
    object_sound l o s e r = (rw e at s) r

-- After any number of calls of the C interface, in any order and with any arguments whose amounts
-- have 32 bytes, an initialised ledger is sound if it was so before them: the asset maps and the
-- account maps agree, every supply is the sum of its balances, and there is at most one unit of a
-- token with an id.
pub Steps-IsSoundObject :
    (t t' : Thread) → Steps t t' → IsSoundObject t.ledger → IsSoundObject t'.ledger
Steps-IsSoundObject t _ none_yet s = s
Steps-IsSoundObject t _ (more {u} {v} h k) s =
    Step-IsSoundObject u v k (Steps-IsSoundObject t u h s)
