-- ===== src/Futex/Ops.antt =====
-- src/common/futex.c: find or create the queue of an address, block on it, wake from it. The wait-
-- free list that holds the queues is parlib's; a section under a spinlock is one function.

-- `struct futex_list`. An element of its queue lives on the stack of the thread that waits, and of
-- it only the thread matters once it is queued.

use upthread.Base.{
  ℕ, ◌≡◌, Bool, true, false, ◌&&◌, Option, none, some, List, [], ◌∷◌, ◌++◌, ◌==◌, if◌then◌else◌,
  insert_tail, ℤ, pos, decr, positive, eq_int,
}

pub record FutexList : Type 0 where
  pub uaddr : ℕ
  pub tailq : List ℕ

-- What wfl_insert of parlib does: the new element stands somewhere among the others, whose order
-- wfl_foreach keeps.
pub record Wfl : Type 0 where
  pub insert : FutexList → List FutexList → List FutexList
  pub insert_split :
      (x : FutexList) (l : List FutexList)
      → (xs ys : List FutexList) × (l ≡ xs ++ ys) × (insert x l ≡ xs ++ x ∷ ys)

-- `futex_lists`, and the user's ints.
pub record Futexes : Type 0 where
  pub lists : List FutexList
  pub value : ℕ → ℤ

-- The loop `wfl_foreach_unsafe(list, &futex_lists)`: the first list of the address.
unfoldable pub find : ℕ → List FutexList → Option FutexList
find u [] = none
find u (l ∷ ls) = if l.uaddr == u then some l else find u ls

-- The queue of an address; an address without a list has nobody waiting.
abbrev pub queue_of : Option FutexList → List ℕ
queue_of none = []
queue_of (some l) = l.tailq

unfoldable pub tailq : ℕ → List FutexList → List ℕ
tailq u ls = queue_of (find u ls)

-- A change of the queue through the pointer that `get_futex_list` returned.
unfoldable pub set_tailq : ℕ → List ℕ → List FutexList → List FutexList
set_tailq u q [] = []
set_tailq u q (l ∷ ls) = if l.uaddr == u then record l { tailq = q } ∷ ls else l ∷ set_tailq u q ls

module _ (w : Wfl) where
  -- `get_futex_list`: after it the address has a list.
  unfoldable pub get_futex_list : ℕ → List FutexList → List FutexList
  get_futex_list u ls = elim (find u ls) [
    | none ↦ w.insert (record { uaddr = u; tailq = [] }) ls
    | some l ↦ ls
  ]

  -- `__futex_block`, run by the vcore for the thread `t`: true if the thread blocks, and then it is
  -- queued; false if it is to go on, by `uthread_paused`.
  unfoldable pub futex_block : ℕ → ℕ → ℤ → Futexes → Bool × Futexes
  futex_block t u val s =
      if eq_int (s.value u) val
      then (true, record s { lists = set_tailq u (insert_tail (tailq u s.lists) t) s.lists })
      else (false, s)

  -- `futex_wait` up to `uthread_yield`: whether it yields, with the queue found.
  unfoldable pub futex_wait : ℕ → ℤ → Futexes → Bool × Futexes
  futex_wait u val s =
      if eq_int (s.value u) val
      then (true, record s { lists = get_futex_list u s.lists })
      else (false, s)

  -- `futex_wait` whole, with the user's ints as they are when the vcore runs the callback: whether
  -- the thread blocks.
  unfoldable pub wait_call : ℕ → ℕ → ℤ → (ℕ → ℤ) → Futexes → Bool × Futexes
  unfolding futex_wait futex_block
  wait_call t u val now s =
      let (yields, s₁) = futex_wait u val s in
      let s₂ = record s₁ { value = now } in
      let called = futex_block t u val s₂ in if yields then called else (false, s₂)

  -- `futex_wake_one`: the thread to be made runnable, if any; it returns their number.
  unfoldable pub futex_wake_one : ℕ → List FutexList → List ℕ × List FutexList
  futex_wake_one u ls =
      let ls' = get_futex_list u ls in
      elim (tailq u ls') [ [] ↦ ([], ls') | t ∷ rest ↦ (t ∷ [], set_tailq u rest ls') ]

  -- `futex_wake_all`: the threads that `unblock_futex_queue` makes runnable, in order.
  unfoldable pub futex_wake_all : ℕ → List FutexList → List ℕ × List FutexList
  futex_wake_all u ls = let ls' = get_futex_list u ls in (tailq u ls', set_tailq u [] ls')

abbrev taking : ℕ → List ℕ × List ℕ → List ℕ × List ℕ
taking t (taken, left) = (t ∷ taken, left)

-- The loop of `futex_wake_some`: while `count-- > 0` and there is a first element.
unfoldable pub take_some : ℤ → List ℕ → List ℕ × List ℕ
take_some n [] = ([], [])
take_some n (t ∷ rest) = if positive n then taking t (take_some (decr n) rest) else ([], t ∷ rest)

module _ (w : Wfl) where
  -- `futex_wake_some`
  unfoldable pub futex_wake_some : ℕ → ℤ → List FutexList → List ℕ × List FutexList
  futex_wake_some u n ls =
      let ls' = get_futex_list w u ls in
      let (taken, left) = take_some n (tailq u ls') in (taken, set_tailq u left ls')

  -- The macro `futex_wake` of futex.h: a constant count of 1 or INT_MAX has a function of its own.
  unfoldable pub futex_wake : Bool → ℕ → ℤ → ℤ → List FutexList → List ℕ × List FutexList
  futex_wake constant u n int_max ls =
      if constant && eq_int n (pos 1)
      then futex_wake_one w u ls
      else if constant && eq_int n int_max
      then futex_wake_all w u ls
      else futex_wake_some u n ls

-- `op` of `futex`.
pub data Op : Type 0 where
  wait wake unknown : Op

-- How `futex` ends: it may block first, it has woken threads, or it returns -1 with ENOSYS.
pub data FutexResult : Type 0 where
  waited : (yields : Bool) → Futexes → FutexResult
  woke : (threads : List ℕ) → Futexes → FutexResult
  enosys : FutexResult

-- `futex`; its assertions say that `timeout`, `uaddr2` and `val3` are not used.
unfoldable pub futex : Wfl → Op → ℕ → ℤ → Futexes → FutexResult
futex w wait u val s = let (yields, s') = futex_wait w u val s in waited yields s'
futex w wake u val s =
    let (threads, ls) = futex_wake_some w u val s.lists in woke threads (record s { lists = ls })
futex w unknown u val s = enosys
