-- ===== src/Examples/GlobalQueue.antt =====
-- src/gq/upthread.c: thread 1 runs, threads 3 and 4 are ready.
use upthread.Base.{
  ℕ, ◌≡◌, refl, inr, Bool, true, false, Option, none, some, [], ◌∷◌, arith, ◌>>=◌, count, pos,
}
use upthread.Tcb.{Attr, joinable, zeroed, runnable, blk_mutex, blk_sysc}
use upthread.Gq.State.{Gq, Platform}
use upthread.Gq.Schedule.{
  take_ready, pth_thread_runnable, pth_thread_has_blocked, pth_blockon_syscall,
}
use upthread.Gq.Threads.{
  pth_thread_paused, yield_cb, join_cb, exit_cb, getattr_np, allocate_stack, new_tcb,
}
use upthread.Gq.Invariant.{IsValid, IsActive, IsIdle}
use upthread.Gq.Totality.{IsRequeued}
use upthread.Gq.Syscalls.{note, syscall_returns}
use upthread.Gq.Threads.{pth_handle_syscall}
use upthread.Gq.Outcomes.{
  IsBlocked, JoinEnds, ExitEnds, Requeues, stops_total, join_cb_total, exit_cb_total,
}
use upthread.Attributes.{attr_getstack}
use upthread.Gq.Attributed.{wanted, getattr-create}
use upthread.Gq.Dispatch.{Runs, sched_entry-Runs}
use upthread.Gq.Fairness.{Run, start, other, dispatch, wakes, served_in_order}

-- With parlib's entry to the scheduler as it is documented.
abbrev platform : Platform
platform = record {
  debug = true;
  uthread_runnable = pth_thread_runnable;
  munmap = λ base size. true;
  pgsize = 4096;
}

dispatches : (t : ℕ) (s : Gq) → platform.uthread_runnable t s ≡ pth_thread_runnable t s
dispatches t s = refl

-- All blocks have the same slot, and are detached or not.
abbrev state : Option ℕ → Bool → Gq
state slot detached = record {
  ready_queue = 3 ∷ 4 ∷ [];
  active_queue = 1 ∷ [];
  threads_ready = pos 2;
  threads_active = pos 1;
  can_adjust_vcores = true;
  max_spin_count = pos 100;
  next_pid = 5;
  tcb = λ t. record zeroed { state = runnable; joiner = slot; detached = detached };
  calls = [];
}

state-IsValid : (slot : Option ℕ) (detached : Bool) → IsValid (state slot detached)
unfolding count
state-IsValid slot detached = record {
  ready_counted = refl;
  active_counted = refl;
  once = λ t. ground arith;
  ready_runnable = λ t h. refl;
}

active : IsActive 1 (state none false)
unfolding count
active = omega arith

idle : IsIdle 2 (state none false)
unfolding count
idle = omega arith

stops_total_example :
    Requeues 1 (state none false) (yield_cb platform 1 (state none false))
    × Requeues 1 (state none false) (pth_thread_paused platform 1 (state none false))
    × ((s' : Gq) × (pth_thread_has_blocked 1 true (state none false) ≡ some s')
        × IsBlocked 1 blk_mutex (state none false) s')
    × ((s' : Gq) × (pth_blockon_syscall 1 (state none false) ≡ some (1, s'))
        × IsBlocked 1 blk_sysc (state none false) s')
stops_total_example =
    stops_total platform dispatches 1 true (state none false) active (state-IsValid none false)

syscall_returns_example :
    (s₁ s₂ : Gq) × (pth_blockon_syscall 1 (state none false) ≡ some (1, s₁))
    × (pth_handle_syscall platform
          (some (some (record { address = 9; u_data = some 1 })))
          (note 1 9 s₁)
        ≡ some s₂)
    × IsValid s₂
    × IsRequeued 1 (state none false) s₂
    × ((s₂.tcb 1).sysc ≡ none)
syscall_returns_example =
    syscall_returns platform 1 9 (state none false) active (state-IsValid none false)

-- Thread 2 has exited, and stands in its own slot.
join_cb_total_example :
    (s' : Gq) × (join_cb platform 1 2 (state (some 2) false) ≡ some s')
    × IsValid s'
    × JoinEnds 1 2 (state (some 2) false) s'
join_cb_total_example =
    join_cb_total platform dispatches 1 2 (state (some 2) false) active
      (state-IsValid (some 2) false) (inr refl)

two_waits : (j : ℕ) → some 2 ≡ some j → IsIdle j (state (some 2) false)
unfolding count
two_waits j e = ground arith

-- Thread 2 waits for thread 1.
exit_cb_total_example :
    (s' : Gq) × (exit_cb platform 1 (state (some 2) false) ≡ some s')
    × IsValid s'
    × ExitEnds 1 (state (some 2) false) s'
exit_cb_total_example =
    exit_cb_total platform dispatches 1 (state (some 2) false) active (state-IsValid (some 2) false)
      refl two_waits

getattr-create_example :
    (a : Attr) × ((allocate_stack platform
          (some 4096)
          (new_tcb platform 5 (some (wanted platform 65536 joinable)) 1 2)
        >>= λ r. some (getattr_np r.1))
      ≡ some a)
    × (a.detachstate ≡ joinable)
    × (attr_getstack a ≡ (some 4096, 65536))
getattr-create_example =
    getattr-create platform 5 65536 4096 1 2 joinable (omega arith) (omega arith) (omega arith)

sched_entry-Runs_example : Runs platform ((λ s. s) ∷ []) (state none false)
sched_entry-Runs_example =
    sched_entry-Runs platform ((λ s. s) ∷ []) (state none false) ((λ s v. v), tt)
      (state-IsValid none false)

-- Thread 3 is dispatched after thread 5 was made runnable.
abbrev crowded : Gq
crowded = pth_thread_runnable 5 (state none false)

crowded-Run : Run platform (state none false) 1 (take_ready crowded).1
unfolding take_ready pth_thread_runnable
crowded-Run = dispatch 3 (other start (wakes 5)) refl

second : take_ready (take_ready crowded).1 ≡ (some 4, (take_ready (take_ready crowded).1).1)
unfolding take_ready pth_thread_runnable
second = refl

served_in_order_example : ◌≡◌ {A = ℕ} 4 4
served_in_order_example =
    served_in_order platform dispatches (3 ∷ []) [] 4 4 refl crowded-Run second
