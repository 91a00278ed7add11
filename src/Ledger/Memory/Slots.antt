-- ===== src/Ledger/Memory/Slots.antt =====
-- The order between the map of balances and the array of one type: each key of the array has its
-- place in the map, and the map has no other place of that type.
use machine_asset_tools.Prelude.{
  ℕ, ◌-◌, suc, ◌≡◌, ◌≢◌, none, some, List, ◌∷◌, arith, nat_key, pair_key, pair_eq_iff, length,
  get_elem?, set, push_back, pop_back, back, index_of, get_elem?-lt, length-set, get_elem?-set,
  get_elem?-push_back, get_elem?-pop_back, back-get_elem?, index_of-only,
}
use machine_asset_tools.Map.{Map, find, assign, erase}
use machine_asset_tools.Map.Laws.{find-cons, find-assign, find-erase, IsUnique, assign-IsUnique}
use machine_asset_tools.Ledger.Memory.{Balance, BalanceType}

abbrev pub BalanceMap : Type 0
BalanceMap = Map (ℕ × ℕ) Balance

abbrev pub at : BalanceType → ℕ → Balance
at t p = record { type = t; place = p }

pub record IsSlots (t : BalanceType) (m : BalanceMap) (keys : List (ℕ × ℕ)) : Type 0 where
  pub placed : (k : ℕ × ℕ) (p : ℕ) → find k m ≡ some (at t p) → get_elem? keys p ≡ some k
  pub named : (k : ℕ × ℕ) (p : ℕ) → get_elem? keys p ≡ some k → find k m ≡ some (at t p)

-- A new balance at the end of its array.
pub create-IsSlots :
    (t : BalanceType) (m : BalanceMap) (keys : List (ℕ × ℕ)) (k : ℕ × ℕ)
    → find k m ≡ none
    → IsSlots t m keys
    → IsSlots t ((k, at t (length keys)) ∷ m) (push_back keys k)
create-IsSlots t m keys k new s = record {
  placed = λ k' p e. ground (
    arith,
    find-cons k k' (at t (length keys)) m,
    get_elem?-push_back keys k p,
    s.placed k' p,
    get_elem?-lt keys p k',
    pair_eq_iff k k',
  );
  named = λ k' p e. ground (
    arith,
    find-cons k k' (at t (length keys)) m,
    get_elem?-push_back keys k p,
    s.named k' p,
    pair_eq_iff k k',
    new,
  );
}

-- A balance of the other type, which this array has no key of.
pub create_other-IsSlots :
    (t : BalanceType) (m : BalanceMap) (keys : List (ℕ × ℕ)) (k : ℕ × ℕ) (b : Balance)
    → find k m ≡ none
    → ((p : ℕ) → b ≢ at t p)
    → IsSlots t m keys
    → IsSlots t ((k, b) ∷ m) keys
create_other-IsSlots t m keys k b new ne s = record {
  placed = λ k' p e. ground (arith, find-cons k k' b m, s.placed k' p, ne p);
  named = λ k' p e. ground (arith, find-cons k k' b m, s.named k' p e, pair_eq_iff k k', new);
}

-- The last key moves to the place of the key that goes.
pub remove-IsSlots :
    (t : BalanceType) (m : BalanceMap) (keys : List (ℕ × ℕ)) (k last : ℕ × ℕ) (p : ℕ)
    → IsUnique m
    → find k m ≡ some (at t p)
    → back keys ≡ some last
    → IsSlots t m keys
    → IsSlots t (erase k (assign last (at t p) m)) (pop_back (set keys p last))
remove-IsSlots t m keys k last p u here end s =
    let at_end = back-get_elem? keys in
    let last_known = s.named last (length keys - 1) (ground arith) in
    let moved = assign-IsUnique last (at t p) m u in
    let in_range = get_elem?-lt keys p k (s.placed k p here) in
    record {
      placed = λ k' q e. ground (
        arith,
        find-erase k k' (assign last (at t p) m) moved,
        find-assign last k' (at t p) (at t (length keys - 1)) m last_known,
        get_elem?-pop_back (set keys p last) q,
        get_elem?-set keys p q last in_range,
        length-set keys p last,
        s.placed k' q,
        s.placed k p here,
        get_elem?-lt keys q k',
        pair_eq_iff k k',
        pair_eq_iff last k',
        pair_eq_iff k last,
      );
      named = λ k' q e. ground (
        arith,
        find-erase k k' (assign last (at t p) m) moved,
        find-assign last k' (at t p) (at t (length keys - 1)) m last_known,
        get_elem?-pop_back (set keys p last) q,
        get_elem?-set keys p q last in_range,
        length-set keys p last,
        s.named k' q,
        last_known,
        here,
        pair_eq_iff k k',
        pair_eq_iff last k',
        pair_eq_iff k last,
      );
    }

-- The same balances leave the array of the other type as it was.
pub remove_other-IsSlots :
    (t t' : BalanceType) (m : BalanceMap) (keys : List (ℕ × ℕ)) (k last : ℕ × ℕ) (p q : ℕ)
    → IsUnique m
    → t ≢ t'
    → find k m ≡ some (at t p)
    → find last m ≡ some (at t q)
    → IsSlots t' m keys
    → IsSlots t' (erase k (assign last (at t p) m)) keys
remove_other-IsSlots t t' m keys k last p q u ne here there s =
    let moved = assign-IsUnique last (at t p) m u in
    record {
      placed = λ k' r e. ground (
        arith,
        find-erase k k' (assign last (at t p) m) moved,
        find-assign last k' (at t p) (at t q) m there,
        s.placed k' r,
      );
      named = λ k' r e. ground (
        arith,
        find-erase k k' (assign last (at t p) m) moved,
        find-assign last k' (at t p) (at t q) m there,
        s.named k' r e,
        pair_eq_iff k k',
        pair_eq_iff last k',
      );
    }

-- A balance at the end of its array goes.
pub pop-IsSlots :
    (t : BalanceType) (m : BalanceMap) (keys : List (ℕ × ℕ)) (k : ℕ × ℕ) (p : ℕ)
    → IsUnique m
    → find k m ≡ some (at t p)
    → suc p ≡ length keys
    → IsSlots t m keys
    → IsSlots t (erase k m) (pop_back keys)
pop-IsSlots t m keys k p u here end s = record {
  placed = λ k' q e. ground (
    arith,
    find-erase k k' m u,
    get_elem?-pop_back keys q,
    s.placed k' q,
    s.placed k p here,
    get_elem?-lt keys q k',
    pair_eq_iff k k',
  );
  named = λ k' q e.
      ground (
        arith,
        find-erase k k' m u,
        get_elem?-pop_back keys q,
        s.named k' q,
        here,
        pair_eq_iff k k',
      );
}

pub pop_other-IsSlots :
    (t t' : BalanceType) (m : BalanceMap) (keys : List (ℕ × ℕ)) (k : ℕ × ℕ) (p : ℕ)
    → IsUnique m
    → t ≢ t'
    → find k m ≡ some (at t p)
    → IsSlots t' m keys
    → IsSlots t' (erase k m) keys
pop_other-IsSlots t t' m keys k p u ne here s = record {
  placed = λ k' r e. ground (arith, find-erase k k' m u, s.placed k' r);
  named = λ k' r e. ground (arith, find-erase k k' m u, s.named k' r e, pair_eq_iff k k');
}

-- The first place of a key is its place.
pub index_of-named :
    (t : BalanceType) (m : BalanceMap) (keys : List (ℕ × ℕ)) (k : ℕ × ℕ) (p : ℕ)
    → find k m ≡ some (at t p)
    → IsSlots t m keys
    → index_of k keys ≡ some p
index_of-named t m keys k p here s =
    index_of-only k keys p (s.placed k p here) (λ i e. ground (arith, s.named k i e))
