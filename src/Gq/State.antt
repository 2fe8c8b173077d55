-- ===== src/Gq/State.antt =====
-- src/gq/upthread.c, lines 18-64 and 229-234: the state of the scheduler with one global queue, and
-- what it leaves to parlib and the C library.
use upthread.Base.{ℕ, suc, ◌%◌, ◌^◌, Bool, List, ◌∷◌, ℤ}
use upthread.Tcb.{Tcb, ThreadState, set_state, modify}

-- Calls out of the file that return nothing to it, newest first in `calls`.
pub data Call : Type 0 where
  vcore_request : ℕ → Call
  vcore_yield : Call
  run_uthread : ℕ → Call
  init_uthread_tf : (thread stackbottom stacksize : ℕ) → Call
  uthread_init : ℕ → Call
  uthread_lib_init : ℕ → Call
  uthread_cleanup : ℕ → Call
  destroy_dtls : ℕ → Call
  free : ℕ → Call
  odd_state : ℕ → Call
  just_blocked : Call
  allocation_failed : Call
  join_detached : ℕ → Call

-- The file's variables, the memory of the control blocks, and the calls made. The queues are lists
-- of addresses, head first.
pub record Gq : Type 0 where
  pub ready_queue : List ℕ
  pub active_queue : List ℕ
  pub threads_ready : ℤ
  pub threads_active : ℤ
  pub can_adjust_vcores : Bool
  pub max_spin_count : ℤ
  pub next_pid : ℕ
  pub tcb : ℕ → Tcb
  pub calls : List Call

-- What is not in this repository. `uthread_runnable` is parlib's entry to the scheduler;
-- `munmap` tells whether the range was unmapped; `debug` whether UPTHREAD_DEBUG is defined.
pub record Platform : Type 0 where
  pub debug : Bool
  pub uthread_runnable : ℕ → Gq → Gq
  pub munmap : ℕ → ℕ → Bool
  pub pgsize : ℕ

abbrev pub with_tcb : ℕ → (Tcb → Tcb) → Gq → Gq
with_tcb t f s = record s { tcb = modify s.tcb t f }

abbrev pub to_state : ThreadState → ℕ → Gq → Gq
to_state st t s = with_tcb t (set_state st) s

abbrev pub call : Call → Gq → Gq
call c s = record s { calls = c ∷ s.calls }

-- `get_next_pid`: a static uint32_t, post-incremented.
unfoldable pub get_next_pid : Gq → ℕ × Gq
get_next_pid s = (s.next_pid, record s { next_pid = suc s.next_pid % 2 ^ 32 })
