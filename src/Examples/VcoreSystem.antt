-- ===== src/Examples/VcoreSystem.antt =====
-- src/pvcq/upthread.c: on two vcores, the main thread creates a second one and waits for it.
use upthread.Base.{
  ℕ, ◌+◌, ◌==◌, List, ◌∷◌, bit, count, count-cons, ◌≡◌, refl, ◌≢◌, inl, true, Option, none, some,
  [], arith, assert,
}
use upthread.Base.Sums.{update}
use upthread.Tcb.{zeroed, runnable, exiting}
use upthread.Pvcq.State.{Pvcq, Platform}
use upthread.Pvcq.Queues.{thread_enqueue, pth_thread_runnable}
use upthread.Pvcq.Lifecycle.{upthread_create, join_cb, upthread_lib_init}
use upthread.Pvcq.Invariant.{queued, found}
use upthread.Pvcq.System.{System, stopped, start, next, creates, joins, Reach, is_over}
use upthread.Pvcq.OnePlace.{IsOnce, one_place, joiner_waits}
use upthread.Examples.VcoreQueues.{platform, memory, state}

abbrev vcores : Platform
vcores = record platform { uthread_runnable = pth_thread_runnable [] }

abbrev mmap : ℕ → Option ℕ
mmap size = some 40960

abbrev zeros : Pvcq
zeros = record state { next_pid = 0; tcb = λ t. zeroed }

abbrev or_zeros : Option (ℕ × Pvcq) → ℕ × Pvcq
or_zeros none = (0, zeros)
or_zeros (some r) = r

abbrev booted : ℕ × Pvcq
booted = or_zeros (upthread_lib_init vcores memory mmap none 0 4096 zeros)

abbrev two : ℕ × Pvcq
two = or_zeros (upthread_create vcores memory (λ size. some 81920) none 0 0 booted.1)

abbrev waited : Pvcq
waited = elim (join_cb vcores memory booted.0 two.0 two.1) as (λ _. Pvcq) [
  | none ↦ zeros
  | some b ↦ b
]

abbrev first : System
first = record {
  base = booted.1;
  current = update (λ _. none) 0 (some booted.0);
  joining = λ _. none;
}

booted_ran : upthread_lib_init vcores memory mmap none 0 4096 zeros ≡ some booted
unfolding upthread_lib_init assert
booted_ran = refl

two_ran : upthread_create vcores memory (λ size. some 81920) none 0 0 booted.1 ≡ some two
unfolding upthread_lib_init upthread_create assert
two_ran = refl

two_over : is_over (booted.1.tcb two.0).state ≡ true
unfolding upthread_lib_init upthread_create assert
two_over = refl

two_unlisted : count two.0 booted.1.zombie_list ≡ 0
unfolding upthread_lib_init upthread_create assert count
two_unlisted = refl

still_unlisted : count two.0 two.1.zombie_list ≡ 0
unfolding upthread_lib_init upthread_create assert count pth_thread_runnable thread_enqueue
still_unlisted = refl

-- The list of dead blocks puts and takes at its head.
inserted : (t u : ℕ) (l : List ℕ) → count u (memory.wfl_insert t l) ≡ count u l + bit (u == t)
inserted t u l = omega (arith, count-cons u t l)

removed :
    (u : ℕ) (l : List ℕ)
    → count u (memory.wfl_remove l).1 + found u (memory.wfl_remove l).0 ≡ count u l
removed u [] = omega arith
removed u (t ∷ l) = omega (arith, count-cons u t l)

waited_ran : join_cb vcores memory booted.0 two.0 two.1 ≡ some waited
unfolding upthread_lib_init upthread_create join_cb assert pth_thread_runnable thread_enqueue
waited_ran = refl

apart : booted.0 ≢ two.0
unfolding upthread_lib_init upthread_create assert
apart = λ e. ground arith

slot_empty : (two.1.tcb two.0).joiner ≡ none
unfolding upthread_lib_init upthread_create assert pth_thread_runnable thread_enqueue
slot_empty = refl

abbrev last : System
last = record (stopped 0 waited (record first { base = two.1 })) {
  joining = update (λ _. none) booted.0 (some two.0);
}

last_reached : Reach vcores memory last
last_reached =
    next
      (next {v = 0} (start mmap none 0 4096 booted.0 zeros booted.1 refl refl booted_ran) (
        creates (λ size. some 81920) none 0 0 two.0 two.1 two_ran
          (λ q. (two_over, (two_unlisted, λ u k. absurd (ground arith))))))
      (joins booted.0 two.0 waited refl refl apart (still_unlisted, λ u k. absurd (ground arith))
        (inl slot_empty) waited_ran)

one_place_example : IsOnce 2 two.0 last
one_place_example =
    one_place vcores memory (omega arith) (omega arith) (λ t s. []) (λ t s k e. tt) (λ t s. refl)
      inserted removed last_reached two.0

target_runnable : (waited.tcb two.0).state ≡ runnable
unfolding upthread_lib_init upthread_create join_cb assert pth_thread_runnable thread_enqueue
target_runnable = refl

slot_full : (waited.tcb two.0).joiner ≡ some booted.0
unfolding upthread_lib_init upthread_create join_cb assert pth_thread_runnable thread_enqueue
slot_full = refl

joiner_waits_example :
    (queued 2 booted.0 waited ≡ 0)
    × ((v : ℕ) → last.current v ≢ some booted.0)
    × ((u : ℕ) → (waited.tcb u).state ≢ exiting → (waited.tcb u).joiner ≡ some booted.0 → u ≡ two.0)
joiner_waits_example =
    joiner_waits vcores memory (omega arith) (omega arith) (λ t s. []) (λ t s k e. tt) (λ t s. refl)
      inserted removed last_reached two.0 booted.0 (λ e. ground (arith, target_runnable)) slot_full
