-- ===== src/Examples/Futexes.antt =====
-- src/common/futex.c and condvar.c: an address at which two threads wait, and a condition variable
-- with two waiters.
use upthread.Base.{
  ℕ, ◌≤◌, ◌≡◌, refl, ◌≢◌, true, ◌&&◌, none, some, List, [], ◌∷◌, ◌++◌, arith, ◌==◌, if◌then◌else◌,
  length, insert_tail, pos, eq_int,
}
use upthread.Mutex.Ops.{Mutex}
use upthread.Condvar.Ops.{Shared, cond_broadcast}
use upthread.Condvar.Wakeups.{quiet, all_woken, broadcast_wakes_all}
use upthread.Futex.Ops.{
  FutexList, Wfl, Futexes, tailq, wait_call, futex_wake_some, futex_wake, find,
}
use upthread.Futex.Queues.{wake_some_lem, futex_wake_lem, block_lem}
use Prim.Native.Nat.{min}

-- A list that takes new elements at its head.
abbrev stack : Wfl
stack = record { insert = λ x l. x ∷ l; insert_split = λ x l. ([], l, refl, refl) }

abbrev lists : List FutexList
lists = record { uaddr = 8; tailq = 1 ∷ 2 ∷ [] } ∷ []

abbrev futexes : Futexes
futexes = record { lists = lists; value = λ _. pos 0 }

two_wait : length (tailq 8 lists) ≤ 100
unfolding tailq find
two_wait = omega arith

wake_some_lem_example :
    let (woken, ls) = futex_wake_some stack 8 (pos 1) lists in
    (woken ++ tailq 8 ls ≡ tailq 8 lists)
    × (length woken ≡ min 1 (length (tailq 8 lists)))
    × (◌≢◌ {A = ℕ} 8 16 → tailq 16 ls ≡ tailq 16 lists)
wake_some_lem_example = wake_some_lem stack 8 1 16 lists

futex_wake_lem_example :
    futex_wake stack true 8 (pos 1) (pos 100) lists ≡ futex_wake_some stack 8 (pos 1) lists
futex_wake_lem_example = futex_wake_lem stack true 8 1 100 lists two_wait

block_lem_example :
    let (blocks, s') = wait_call stack 3 8 (pos 0) futexes.value futexes in
    (blocks ≡ (eq_int (futexes.value 8) (pos 0) && eq_int (futexes.value 8) (pos 0)))
    × (tailq 8 s'.lists
        ≡ (if blocks && (8 == 8) then insert_tail (tailq 8 lists) 3 else tailq 8 lists))
block_lem_example = block_lem stack 3 8 8 (pos 0) futexes.value futexes

abbrev mutex : Mutex
mutex = record { attr = record { type = pos 0 }; queue = []; locked = pos 0; owner = none }

abbrev shared : Shared
shared = record {
  cond = record { waiting_mutex = some 7; queue = 1 ∷ 2 ∷ [] };
  mutex = λ _. mutex;
  woken = [];
}

broadcast_wakes_all_example : cond_broadcast 3 quiet shared ≡ some (all_woken shared (1 ∷ 2 ∷ []))
broadcast_wakes_all_example = broadcast_wakes_all (1 ∷ 2 ∷ []) 3 shared refl (omega arith)
