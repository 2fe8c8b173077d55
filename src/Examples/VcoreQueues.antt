-- ===== src/Examples/VcoreQueues.antt =====
-- src/pvcq/upthread.c: vcore 0 has no thread and takes one of the three of vcore 1.
use upthread.Base.{
  ℕ, suc, ◌+◌, ◌-◌, ◌*◌, ◌/◌, ◌<◌, ◌≡◌, refl, ◌≢◌, true, Option, none, some, List, [], ◌∷◌, arith,
  ◌==◌, if◌then◌else◌, ◌>>=◌, length, pop_head, count, pos,
}
use upthread.Tcb.{zeroed, runnable}
use upthread.Pvcq.State.{Pvcq, Platform, get_next_queue_id_basic}
use upthread.Pvcq.Queues.{thread_dequeue, pth_thread_runnable}
use upthread.Pvcq.Threads.{Memory, mapping, alloc, unmapped, pth_sched_entry}
use upthread.Pvcq.Invariant.{IsValid, Takes}
use upthread.Pvcq.Dequeue.{thread_dequeue-Takes}
use upthread.Pvcq.Working.{thread_dequeue_finds}
use upthread.Pvcq.TlsAware.{
  Choice, Sizes, Setting, IsChoice, get_next_queue_id_tls_aware, next_queue_ids-lt,
}
use upthread.Pvcq.Entry.{IsRunning, sched_entry-IsRunning}
use upthread.Pvcq.Lifecycle.{exit_start, exit_cb, join_cb}
use upthread.Pvcq.Joining.{Meet, joined_once}
use upthread.Pvcq.Stacks.{unmapped-alloc}

abbrev pub platform : Platform
platform = record {
  debug = true;
  max_vcores = 2;
  num_vcores = 2;
  rand_r = λ seed. (seed, suc seed);
  uthread_runnable = λ t s. s;
  pgsize = 4096;
  cl_size = 64;
  tcb_size = 500;
}

abbrev pub memory : Memory
memory = record {
  round_up = λ n to. (n + (to - 1)) / to * to;
  wfl_remove = λ l. pop_head l;
  wfl_insert = λ t l. t ∷ l;
  wfl_size = λ l. length l;
  munmap = λ base size. true;
}

abbrev queue_of : ℕ → List ℕ
queue_of v = if v == 1 then 5 ∷ 6 ∷ 7 ∷ [] else []

abbrev pub state : Pvcq
state = record {
  vc_mgmt = λ v. record { tqueue = queue_of v; tqsize = pos (length (queue_of v)); rseed = v };
  can_steal = true;
  can_adjust_vcores = true;
  ss_yield = true;
  nr_vcores = pos 2;
  next_queue_id = 1;
  max_spin_count = pos 100;
  next_pid = 8;
  zombie_list = [];
  tcb = λ t. record zeroed { state = runnable };
  calls = [];
}

pub state-IsValid : IsValid state
state-IsValid = record { sized = λ v. refl; queued_runnable = λ t v h. refl }

thread_dequeue-Takes_example : Takes 2 0 state (thread_dequeue platform 0 state)
thread_dequeue-Takes_example =
    thread_dequeue-Takes platform 0 (omega arith) (omega arith) (omega arith) state state-IsValid

thread_dequeue_finds_example : (thread_dequeue platform 0 state).0 ≢ none
thread_dequeue_finds_example =
    thread_dequeue_finds platform 0 (omega arith) 1 state (omega arith) state-IsValid refl
      (omega arith)

abbrev setting : Setting
setting = record {
  vcoreid = 0;
  max_vcores = 2;
  nr_vcores = pos 2;
  tls_desc = 40;
  vcore_tls_descs = λ v. 40 * v;
}

abbrev sizes : Sizes
sizes = record { of_i = pos 0; of_cid = pos 3; of_sid = pos 3; of_j = pos 1 }

abbrev choice : Choice
choice = record { sid = 1; cid = 1 }

next_queue_ids-lt_example :
    (let (id, s') = get_next_queue_id_tls_aware setting (λ i. sizes) sizes choice in
      (id < 2) × IsChoice setting 2 s')
    × (let (id, b') = get_next_queue_id_basic ((λ id. 0) ∷ []) state in
        (id < 2) × (b'.next_queue_id < 2) × (b'.nr_vcores ≡ pos 2))
next_queue_ids-lt_example =
    next_queue_ids-lt setting 2 (λ i. sizes) sizes choice ((λ id. 0) ∷ []) state refl refl
      (omega arith, omega arith) (omega arith) ((λ id h. omega arith), tt)

sched_entry-IsRunning_example :
    (o : Option ℕ) × (s' : Pvcq) × (pth_sched_entry platform ((λ s. s) ∷ []) none 0 state
      ≡ some (o, s'))
    × ((t : ℕ) → o ≡ some t → IsRunning 0 t s')
sched_entry-IsRunning_example =
    sched_entry-IsRunning platform 0 (omega arith) (omega arith) (omega arith) ((λ s. s) ∷ []) state
      ((λ s w. w), tt) state-IsValid

abbrev mmap : ℕ → Option ℕ
mmap size = some 4096

unmapped-alloc_example :
    (alloc platform memory mmap 4096 state >>= λ r. some (unmapped platform memory (r.1.tcb r.0)))
    ≡ some (4096, (mapping platform memory 4096 0).1)
unfolding mapping
unmapped-alloc_example =
    unmapped-alloc platform memory mmap 4096 4096 state [] refl refl (omega arith) (omega arith)
      (omega arith)

-- With parlib's entry to the scheduler as it is documented. Thread 8 joins thread 9, which exits with
-- the value 70; neither is queued.
abbrev wired : Platform
wired = record platform { uthread_runnable = pth_thread_runnable [] }

nowhere : (v : ℕ) → (count 8 (state.vc_mgmt v).tqueue ≡ 0) × (count 9 (state.vc_mgmt v).tqueue ≡ 0)
unfolding count
nowhere v = (ground arith, ground arith)

joined_once_example :
    ((s₁ s₂ : Pvcq) × (exit_cb wired memory 9 (exit_start wired memory 9 70 state) ≡ some s₁)
      × (join_cb wired memory 8 9 s₁ ≡ some s₂)
      × Meet wired memory [] (λ t s. refl) (λ base size. refl) 2 8 9 70 state s₂)
    × ((s₁ s₂ : Pvcq) × (join_cb wired memory 8 9 state ≡ some s₁)
        × (exit_cb wired memory 9 (exit_start wired memory 9 70 s₁) ≡ some s₂)
        × Meet wired memory [] (λ t s. refl) (λ base size. refl) 2 8 9 70 state s₂)
joined_once_example =
    joined_once wired memory [] (λ t s. refl) (λ base size. refl) 2 8 9 70 state (omega arith)
      state-IsValid (λ v. (nowhere v).0) (λ v. (nowhere v).1) (omega arith) refl refl
