-- ===== src/Ledger/Api/Outcome.antt =====
-- What the functions of the C interface leave (src/ledger.cpp).
use machine_asset_tools.Prelude.{
  ◌∙◌, is_negative, ℕ, ℤ, pos, true, false, Option, none, some, String, Result, ok, err, Throws,
  ◌≡◌, ap, ◌⊎◌, inl, inr, arith, Option-cases, Bool-cases, refl,
}
use machine_asset_tools.Amount.{Amount}
use machine_asset_tools.Ledger.Code
use machine_asset_tools.Ledger.Basic.{BasicLedger, deposit, withdraw, transfer}
use machine_asset_tools.Ledger.Basic.Transactions.{
  Refuses, deposit_cases, withdraw_cases, transfer_cases,
}
use machine_asset_tools.Ledger.Api.{
  Object, Thread, finish, initialized, is_initialized, cma_ledger_deposit, cma_ledger_withdraw,
  cma_ledger_transfer,
}

-- The functions that move money, by one name.
pub data Transaction : Type 0 where
  deposit_call withdraw_call : ℕ → ℕ → Option Amount → Transaction
  transfer_call : ℕ → ℕ → ℕ → Option Amount → Transaction

unfoldable pub call : Transaction → Thread → ℤ × Unit {0} × Thread
call (deposit_call i a n) t = cma_ledger_deposit i a n t
call (withdraw_call i a n) t = cma_ledger_withdraw i a n t
call (transfer_call i a b n) t = cma_ledger_transfer i a b n t

-- The method behind it and the amount's pointer.
unfoldable pub amount_of : Transaction → Option Amount
amount_of (deposit_call i a n) = n
amount_of (withdraw_call i a n) = n
amount_of (transfer_call i a b n) = n

unfoldable pub method_of : Transaction → Amount → Throws BasicLedger (Unit {0})
method_of (deposit_call i a _) = deposit i a
method_of (withdraw_call i a _) = withdraw i a
method_of (transfer_call i a b _) = transfer i a b

-- The code of a refusal and its message; the object is as it was.
pub record Refused (code : ℤ) (message : String) (t : Thread) (r : ℤ × Unit {0} × Thread)
    : Type 0 where
  pub returns : r.0 ≡ code
  pub explains : r.2.last_err_msg ≡ message
  pub ledger : r.2.ledger ≡ t.ledger

method_of_atomic :
    (x : Transaction) (n : Amount) (l : BasicLedger)
    → Refuses l (method_of x n l) ⊎ ((method_of x n l).0 ≡ ok tt)
unfolding method_of
method_of_atomic (deposit_call i a _) n l = elim (deposit_cases i a n l) [
  | inl r ↦ inl r
  | inr (x, _, _, e) ↦ inr (ap (λ r. r.0) e)
]
method_of_atomic (withdraw_call i a _) n l = elim (withdraw_cases i a n l) [
  | inl r ↦ inl r
  | inr (x, _, _, e) ↦ inr (ap (λ r. r.0) e)
]
method_of_atomic (transfer_call i a b _) n l = elim (transfer_cases i a b n l) [
  | inl r ↦ inl r
  | inr (x, _, _, _, _, e) ↦ inr (ap (λ r. r.0) e)
]

call-null :
    (x : Transaction) (t : Thread)
    → t.ledger ≡ none
    → Refused Code.e_inval "Invalid ledger ptr" t (call x t)
unfolding call cma_ledger_deposit cma_ledger_withdraw cma_ledger_transfer finish
call-null (deposit_call i a n) t e = ground arith
call-null (withdraw_call i a n) t e = ground arith
call-null (transfer_call i a b n) t e = ground arith

call-uninitialized :
    (x : Transaction) (t : Thread) (o : Object) (n : Amount)
    → t.ledger ≡ some o
    → amount_of x ≡ some n
    → is_initialized o ≡ false
    → Refused Code.e_inval "Invalid ledger ptr" t (call x t)
unfolding call amount_of cma_ledger_deposit cma_ledger_withdraw cma_ledger_transfer finish
    initialized
call-uninitialized (deposit_call i a _) t o n e g h = ground arith
call-uninitialized (withdraw_call i a _) t o n e g h = ground arith
call-uninitialized (transfer_call i a b _) t o n e g h = ground arith

-- What a call on an initialised object does with the method's result.
pub call-method :
    (x : Transaction) (t : Thread) (o : Object) (n : Amount)
    → t.ledger ≡ some o
    → amount_of x ≡ some n
    → is_initialized o ≡ true
    → call x t
      ≡ (let (r, l) = method_of x n o.basic in finish r (some (record o { basic = l }), tt) t)
unfolding call amount_of method_of cma_ledger_deposit cma_ledger_withdraw cma_ledger_transfer
    initialized
call-method (deposit_call i a _) t o n e g h = ground arith
call-method (withdraw_call i a _) t o n e g h = ground arith
call-method (transfer_call i a b _) t o n e g h = ground arith

-- The method behind the call returned, and its ledger is stored.
pub record Performed (x : Transaction) (t : Thread) (r : ℤ × Unit {0} × Thread) : Type 0 where
  pub object : Object
  pub amount : Amount
  pub given : t.ledger ≡ some object
  pub amount_given : amount_of x ≡ some amount
  pub ready : is_initialized object ≡ true
  pub method_returns : (method_of x amount object.basic).0 ≡ ok tt
  pub returns : r.0 ≡ pos 0
  pub message : r.2.last_err_msg ≡ ""
  pub ledger : r.2.ledger ≡ some (record object { basic = (method_of x amount object.basic).1 })

-- The call returns a negative code, and the object is as it was.
pub record Fails (t : Thread) (r : ℤ × Unit {0} × Thread) : Type 0 where
  pub negative : is_negative r.0 ≡ true
  pub ledger : r.2.ledger ≡ t.ledger

call-no_amount : (x : Transaction) (t : Thread) → amount_of x ≡ none → Fails t (call x t)
unfolding call amount_of cma_ledger_deposit cma_ledger_withdraw cma_ledger_transfer finish
call-no_amount (deposit_call i a n) t e = elim (Option-cases t.ledger) [
  | inl g ↦ record { negative = ground arith; ledger = ground arith }
  | inr (o, g) ↦ record { negative = ground arith; ledger = ground arith }
]
call-no_amount (withdraw_call i a n) t e = elim (Option-cases t.ledger) [
  | inl g ↦ record { negative = ground arith; ledger = ground arith }
  | inr (o, g) ↦ record { negative = ground arith; ledger = ground arith }
]
call-no_amount (transfer_call i a b n) t e = elim (Option-cases t.ledger) [
  | inl g ↦ record { negative = ground arith; ledger = ground arith }
  | inr (o, g) ↦ record { negative = ground arith; ledger = ground arith }
]

Refused-Fails :
    {code : ℤ} {message : String} {t : Thread} {r : ℤ × Unit {0} × Thread}
    → is_negative code ≡ true
    → Refused code message t r
    → Fails t r
Refused-Fails n f = record { negative = ap is_negative f.returns ∙ n; ledger = f.ledger }

finish-Fails :
    (t : Thread) (o : Object) (r : Result (Unit {0}) × BasicLedger)
    → t.ledger ≡ some o
    → Refuses o.basic r
    → Fails t (finish r.0 (some (record o { basic = r.1 }), tt) t)
unfolding finish
finish-Fails t o (ok _, l) g h = absurd h
finish-Fails t o (err m c, l) g h = record { negative = h.1; ledger = cc }

finish-ok :
    (t : Thread) (l : Option Object) (r : Result (Unit {0}))
    → r ≡ ok tt
    → finish r (l, tt) t ≡ (pos 0, tt, record { ledger = l; last_err_msg = "" })
unfolding finish
finish-ok t l r e = ground arith

-- A deposit, a withdrawal or a transfer through the C interface, with any pointers, either fails,
-- returning a negative code and leaving the object as it was, or has an initialised object and an
-- amount, returns 0 with an empty message, and stores the ledger of the method, which returned.
pub call_outcome : (x : Transaction) (t : Thread) → Fails t (call x t) ⊎ Performed x t (call x t)
call_outcome x t = elim (Option-cases t.ledger) [
  | inl null ↦ inl (Refused-Fails refl (call-null x t null))
  | inr (o, given) ↦ elim (Option-cases (amount_of x)) [
    | inl no_amount ↦ inl (call-no_amount x t no_amount)
    | inr (n, amount) ↦ elim (Bool-cases (is_initialized o)) [
      | inr dead ↦ inl (Refused-Fails refl (call-uninitialized x t o n given amount dead))
      | inl ready ↦ method_outcome o n given amount ready (method_of_atomic x n o.basic)
    ]
  ]
]
  where
    method_outcome :
        (o : Object) (n : Amount)
        → t.ledger ≡ some o
        → amount_of x ≡ some n
        → is_initialized o ≡ true
        → Refuses o.basic (method_of x n o.basic) ⊎ ((method_of x n o.basic).0 ≡ ok tt)
        → Fails t (call x t) ⊎ Performed x t (call x t)
    method_outcome o n given amount ready (inl r) = inl (
        rw (call-method x t o n given amount ready)
          (finish-Fails t o (method_of x n o.basic) given r))
    method_outcome o n given amount ready (inr r) =
        let e =
          call-method x t o n given amount ready
          ∙ finish-ok t (some (record o { basic = (method_of x n o.basic).1 }))
              (method_of x n o.basic).0 r in
        inr (record {
          object = o;
          amount = n;
          given = given;
          amount_given = amount;
          ready = ready;
          method_returns = r;
          returns = ap (λ q. q.0) e;
          message = ap (λ q. q.2.last_err_msg) e;
          ledger = ap (λ q. q.2.ledger) e;
        })
