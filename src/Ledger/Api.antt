-- ===== src/Ledger/Api.antt =====
-- The C interface of the ledger (src/ledger.cpp) over a `cma_ledger_basic`: the checks of the
-- arguments, and the code and the message that an exception becomes.
pub mod Outcome
pub mod Reach
pub mod Balance
pub mod Tests
use machine_asset_tools.Prelude.{
  ℕ, ℤ, pos, Bool, true, false, not, Option, none, some, [], String, Result, ok, err, Throws, throw,
  gets, ◌>>=◌, ◌>>◌, throw_if, ◌==◌, is_null,
}
use machine_asset_tools.Amount.{Amount}
use machine_asset_tools.Ledger.Types.{Account, AssetType, AccountType, Operation}
use machine_asset_tools.Ledger.Code
use machine_asset_tools.Ledger.Basic.{
  BasicLedger, cma_ledger_basic, clear, get_account_asset_balance, deposit, withdraw, transfer,
}
use machine_asset_tools.Ledger.Basic.Assets.{AssetArgs, AssetCall, retrieve_asset}
use machine_asset_tools.Ledger.Basic.Accounts.{AccountArgs, AccountCall, retrieve_account}

-- CMA_LEDGER_MAGIC
abbrev pub magic_number : ℕ
magic_number = 7919236567341710038

-- The object behind a `cma_ledger_t *`: the base class with its magic number, and the maps.
pub record Object : Type 0 where
  pub magic : ℕ
  pub basic : BasicLedger

unfoldable pub is_initialized : Object → Bool
is_initialized o = o.magic == magic_number

-- The destructor of the base class, which is the one that `cma_ledger_fini` calls.
abbrev pub destroy : Object → Object
destroy o = record o { magic = 0 }

-- The pointer that a call is given, `none` if it is null, and the thread's last error message.
pub record Thread : Type 0 where
  pub ledger : Option Object
  pub last_err_msg : String

-- What the body of a function sees: the pointer and what it writes of the other arguments.
abbrev pub Body : Type 0 → Type 0
Body E = Throws (Option Object × E) (Unit {0})

-- A function's end: `cma_ledger_result_success`, or `cma_ledger_result_failure` of a `CmaException`.
unfoldable pub finish :
    {E : Type 0} → Result (Unit {0}) → Option Object × E → Thread → ℤ × E × Thread
finish (ok _) (o, e) t = (pos 0, e, record { ledger = o; last_err_msg = "" })
finish (err message code) (o, e) t = (code, e, record { ledger = o; last_err_msg = message })

abbrev pub run : {E : Type 0} → Body E → E → Thread → ℤ × E × Thread
run body e t = let (r, s) = body (t.ledger, e) in finish r s t

-- `if (ledger == nullptr)`
abbrev pub require_ledger : {E : Type 0} → String → Body E
require_ledger message = do absent ← gets (λ s. is_null s.0); throw_if absent message Code.e_inval

-- The body on the object; a null pointer does not come so far.
abbrev pub on_object : {E : Type 0} → Throws (Object × E) (Unit {0}) → Body E
on_object body (none, e) = (ok tt, (none, e))
on_object body (some o, e) = let (r, (o', e')) = body (o, e) in (r, (some o', e'))

-- `if (!ledger_ptr->is_initialized())`, and then the method on the maps.
unfoldable pub initialized : {E : Type 0} → Throws (BasicLedger × E) (Unit {0}) → Body E
initialized body = on_object (do
  ready ← gets (λ s. is_initialized s.0)
  throw_if (not ready) "Invalid ledger ptr" Code.e_inval
  on_basic body)
  where
    on_basic : {E : Type 0} → Throws (BasicLedger × E) (Unit {0}) → Throws (Object × E) (Unit {0})
    on_basic body (o, e) = let (r, (l, e')) = body (o.basic, e) in (r, (record o { basic = l }, e'))

-- A required pointer is dereferenced.
abbrev pub require : {A E : Type 0} → Option A → String → (A → Body E) → Body E
require none message body = throw message Code.e_inval
require (some a) message body = body a

-- A method that writes no argument.
abbrev pub method : Throws BasicLedger (Unit {0}) → Throws (BasicLedger × Unit {0}) (Unit {0})
method m (l, e) = let (r, l') = m l in (r, (l', e))

-- Placement `new` of a basic ledger. The pointer is not checked: a null one is undefined in C++, and
-- here gets an object.
unfoldable pub cma_ledger_init : Thread → ℤ × Unit {0} × Thread
cma_ledger_init t =
    finish (ok tt) (some (record { magic = magic_number; basic = cma_ledger_basic }), tt) t

unfoldable pub cma_ledger_fini : Thread → ℤ × Unit {0} × Thread
cma_ledger_fini =
    run
      (do
        require_ledger "Invalid ledger"
        on_object (do
          ready ← gets (λ s. is_initialized s.0)
          throw_if (not ready) "Invalid ledger ptr" Code.e_inval
          (λ s. (ok tt, (destroy s.0, s.1)))))
      tt

unfoldable pub cma_ledger_reset : Thread → ℤ × Unit {0} × Thread
cma_ledger_reset =
    run (do require_ledger "Invalid ledger"; initialized (λ s. (ok tt, (clear s.0, s.1)))) tt

-- The pointer to the type may be null; otherwise the call reads and writes the type through it.
unfoldable pub cma_ledger_retrieve_asset :
    Bool → Operation → AssetArgs → Thread → ℤ × AssetArgs × Thread
cma_ledger_retrieve_asset type_given operation = run (do
  require_ledger "Invalid ledger ptr"
  throw_if (not type_given) "Invalid asset type ptr" Code.e_inval
  initialized (λ s.
      let (r, c) = retrieve_asset operation (record { ledger = s.0; args = s.1 }) in
      (r, (c.ledger, c.args))))

unfoldable pub cma_ledger_retrieve_account :
    Bool → Operation → AccountArgs → Thread → ℤ × AccountArgs × Thread
cma_ledger_retrieve_account type_given operation = run (do
  require_ledger "Invalid ledger ptr"
  throw_if (not type_given) "Invalid account type ptr" Code.e_inval
  initialized (λ s.
      let (r, c) = retrieve_account operation (record { ledger = s.0; args = s.1 }) in
      (r, (c.ledger, c.args))))

-- The pointers to the balance and, by the flag, to the balance's place.
unfoldable pub cma_ledger_get_balance :
    ℕ → ℕ → Bool → Option Amount → Thread → ℤ × Option Amount × Thread
cma_ledger_get_balance asset_id account_id with_info = run (do
  require_ledger "Invalid ledger ptr"
  initialized (λ s. elim (get_account_asset_balance asset_id account_id s.1 with_info s.0) [
    | ok b ↦ (ok tt, (s.0, b))
    | err message code ↦ (err message code, s)
  ]))

unfoldable pub cma_ledger_deposit : ℕ → ℕ → Option Amount → Thread → ℤ × Unit {0} × Thread
cma_ledger_deposit asset_id to_account_id amount =
    run
      (do
        require_ledger "Invalid ledger ptr"
        require amount "Invalid deposit ptr"
            (λ n. initialized (method (deposit asset_id to_account_id n))))
      tt

unfoldable pub cma_ledger_withdraw : ℕ → ℕ → Option Amount → Thread → ℤ × Unit {0} × Thread
cma_ledger_withdraw asset_id from_account_id amount =
    run
      (do
        require_ledger "Invalid ledger ptr"
        require amount "Invalid withdrawal ptr"
            (λ n. initialized (method (withdraw asset_id from_account_id n))))
      tt

unfoldable pub cma_ledger_transfer : ℕ → ℕ → ℕ → Option Amount → Thread → ℤ × Unit {0} × Thread
cma_ledger_transfer asset_id from_account_id to_account_id amount =
    run
      (do
        require_ledger "Invalid ledger ptr"
        require amount "Invalid amount ptr"
            (λ n. initialized (method (transfer asset_id from_account_id to_account_id n))))
      tt
