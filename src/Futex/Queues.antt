-- ===== src/Futex/Queues.antt =====
-- What the functions of src/common/futex.c do to the queue of each address.
use upthread.Base.{
  ℕ, zero, suc, ◌≤◌, ◌≡◌, refl, ap, ◌≢◌, inl, inr, Bool, ◌&&◌, none, some, List, [], ◌∷◌, ◌++◌,
  arith, ◌==◌, if◌then◌else◌, Bool-cases, Option-cases, is_some, length, insert_tail, ℤ, pos,
  eq_int,
}
use Prim.Native.Nat.{min}
use upthread.Futex.Ops.{
  FutexList, Wfl, find, tailq, set_tailq, get_futex_list, take_some, futex_wake_some,
  futex_wake_all, futex_wake, futex_wait, futex_wake_one, futex_block, wait_call, Futexes,
}

find-append :
    (u : ℕ) (xs ys : List FutexList)
    → find u (xs ++ ys) ≡ (if is_some (find u xs) then find u xs else find u ys)
unfolding find
find-append u [] ys = refl
find-append u (x ∷ xs) ys = ground (arith, find-append u xs ys)

-- A new list is found at its address, and changes nothing at the others.
find-insert :
    (w : Wfl) (u v : ℕ) (ls : List FutexList)
    → find u ls ≡ none
    → (let new : FutexList = record { uaddr = u; tailq = [] } in
        find v (w.insert new ls) ≡ (if u == v then some new else find v ls))
unfolding find
find-insert w u v ls e =
    let new : FutexList = record { uaddr = u; tailq = [] } in
    let (xs, ys, split, put) = w.insert_split new ls in
    ground
      (arith, split, put, find-append v xs (new ∷ ys), find-append v xs ys, find-append u xs ys)

get_futex_list_new :
    (w : Wfl) (u : ℕ) (ls : List FutexList)
    → find u ls ≡ none
    → get_futex_list w u ls ≡ w.insert (record { uaddr = u; tailq = [] }) ls
unfolding get_futex_list
get_futex_list_new w u ls e = rw (e, get_futex_list)

get_futex_list_old :
    (w : Wfl) (u : ℕ) (ls : List FutexList) (l : FutexList)
    → find u ls ≡ some l
    → get_futex_list w u ls ≡ ls
unfolding get_futex_list
get_futex_list_old w u ls l e = rw (e, get_futex_list)

-- Creating the list of an address changes no queue.
pub tailq-get_futex_list :
    (w : Wfl) (u v : ℕ) (ls : List FutexList) → tailq v (get_futex_list w u ls) ≡ tailq v ls
unfolding tailq
tailq-get_futex_list w u v ls = elim (Option-cases (find u ls)) [
  | inl e ↦ ground (arith, get_futex_list_new w u ls e, find-insert w u v ls e)
  | inr (l, e) ↦ rw (get_futex_list_old w u ls l e)
]

pub find-get_futex_list :
    (w : Wfl) (u : ℕ) (ls : List FutexList) → find u (get_futex_list w u ls) ≢ none
find-get_futex_list w u ls = elim (Option-cases (find u ls)) [
  | inl e ↦ ground (arith, get_futex_list_new w u ls e, find-insert w u u ls e)
  | inr (l, e) ↦ ground (arith, get_futex_list_old w u ls l e)
]

-- Where an address has a list, a change of its queue is seen at that address only.
pub tailq-set_tailq :
    (u v : ℕ) (q : List ℕ) (ls : List FutexList)
    → find u ls ≢ none
    → tailq v (set_tailq u q ls) ≡ (if u == v then q else tailq v ls)
unfolding tailq set_tailq find
tailq-set_tailq u v q [] h = absurd (h refl)
tailq-set_tailq u v q (l ∷ ls) h = ground (arith, tailq-set_tailq u v q ls)

-- The first `n` of a queue, in order, and the rest.
pub take_some_split :
    (n : ℕ) (q : List ℕ)
    → (let (taken, left) = take_some (pos n) q in
        (taken ++ left ≡ q) × (length taken ≡ min n (length q)))
unfolding take_some
take_some_split n [] = (refl, omega arith)
take_some_split zero (t ∷ q) = (refl, omega arith)
take_some_split (suc n) (t ∷ q) =
    (ap (λ (l : List ℕ). t ∷ l) (take_some_split n q).0, omega (arith, (take_some_split n q).1))

-- `futex_wake_some` wakes the `n` threads that have waited longest at the address, or all if they
-- are fewer; they leave the queue, those behind them stay in order, and no other address changes.
pub wake_some_lem :
    (w : Wfl) (u n v : ℕ) (ls : List FutexList)
    → (let (woken, ls') = futex_wake_some w u (pos n) ls in
        (woken ++ tailq u ls' ≡ tailq u ls)
        × (length woken ≡ min n (length (tailq u ls)))
        × (u ≢ v → tailq v ls' ≡ tailq v ls))
unfolding futex_wake_some
wake_some_lem w u n v ls =
    let ls' = get_futex_list w u ls in
    let old = tailq-get_futex_list w u u ls in
    let seen =
      tailq-set_tailq u u (take_some (pos n) (tailq u ls')).1 ls' (find-get_futex_list w u ls) in
    let split = take_some_split n (tailq u ls') in
    (
      ground (arith, old, seen, split.0),
      ground (arith, old, split.1),
      λ ne. ground (
        arith,
        tailq-get_futex_list w u v ls,
        tailq-set_tailq u v (take_some (pos n) (tailq u ls')).1 ls' (find-get_futex_list w u ls),
      ),
    )

take_one : (q : List ℕ) → take_some (pos 1) q ≡ elim q [ [] ↦ ([], []) | t ∷ rest ↦ (t ∷ [], rest) ]
unfolding take_some
take_one [] = refl
take_one (t ∷ []) = refl
take_one (t ∷ u ∷ q) = refl

take_all : (n : ℕ) (q : List ℕ) → length q ≤ n → take_some (pos n) q ≡ (q, [])
unfolding take_some
take_all n [] h = refl
take_all zero (t ∷ q) h = absurd (omega arith)
take_all (suc n) (t ∷ q) h = ground (arith, take_all n q)

set_tailq_self : (u : ℕ) (q : List ℕ) (ls : List FutexList) → tailq u ls ≡ q → set_tailq u q ls ≡ ls
unfolding tailq set_tailq find
set_tailq_self u q [] e = refl
set_tailq_self u q (l ∷ ls) e = ground (arith, set_tailq_self u q ls)

wake_one_some :
    (w : Wfl) (u : ℕ) (ls : List FutexList) → futex_wake_one w u ls ≡ futex_wake_some w u (pos 1) ls
unfolding futex_wake_one futex_wake_some
wake_one_some w u ls =
    let ls' = get_futex_list w u ls in
    ground (arith, take_one (tailq u ls'), set_tailq_self u [] ls')

wake_all_some :
    (w : Wfl) (u n : ℕ) (ls : List FutexList)
    → length (tailq u ls) ≤ n
    → futex_wake_all w u ls ≡ futex_wake_some w u (pos n) ls
unfolding futex_wake_all futex_wake_some
wake_all_some w u n ls h =
    let ls' = get_futex_list w u ls in
    rw (take_all n (tailq u ls') (rw (tailq-get_futex_list w u u ls) h)) refl

-- The macro `futex_wake` does what `futex_wake_some` does, whichever function it picks, as long as
-- no more than INT_MAX threads wait.
pub futex_wake_lem :
    (w : Wfl) (constant : Bool) (u n int_max : ℕ) (ls : List FutexList)
    → length (tailq u ls) ≤ int_max
    → futex_wake w constant u (pos n) (pos int_max) ls ≡ futex_wake_some w u (pos n) ls
unfolding futex_wake
futex_wake_lem w constant u n int_max ls h =
    ground (arith, wake_one_some w u ls, wake_all_some w u int_max ls h)

-- A thread that calls `futex_wait` blocks exactly if the int has the value that it expects at the
-- test and again in the callback, whatever other threads store in between, and then stands behind
-- all that wait at the address; else no queue changes. Other addresses are not touched.
pub block_lem :
    (w : Wfl) (t u v : ℕ) (val : ℤ) (now : ℕ → ℤ) (s : Futexes)
    → (let (blocks, s') = wait_call w t u val now s in
        (blocks ≡ (eq_int (s.value u) val && eq_int (now u) val))
        × (tailq v s'.lists
            ≡ (if blocks && (u == v) then insert_tail (tailq v s.lists) t else tailq v s.lists)))
unfolding wait_call futex_wait futex_block
block_lem w t u v val now s = elim (Bool-cases (eq_int (s.value u) val)) [
  | inl e ↦ elim (Bool-cases (eq_int (now u) val)) [
    | inl k ↦
        let ls = get_futex_list w u s.lists in
        rw (e, k, wait_call)
          (
            refl,
            ground (
              arith,
              tailq-set_tailq u v (insert_tail (tailq u ls) t) ls (find-get_futex_list w u s.lists),
              tailq-get_futex_list w u v s.lists,
              tailq-get_futex_list w u u s.lists,
            ),
          )
    | inr k ↦ rw (e, k, wait_call) (refl, tailq-get_futex_list w u v s.lists)
  ]
  | inr e ↦ rw (e, wait_call) (refl, refl)
]
