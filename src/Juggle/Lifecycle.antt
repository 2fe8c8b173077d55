-- ===== src/Juggle/Lifecycle.antt =====
-- src/juggle/upthread.c: the settings of the scheduler, and how its threads are created, joined, block
-- and exit. None of this touches the alarms but the set-up; each function is that of
-- src/pvcq/upthread.c, which has the same text, on `base`.
use upthread.Base.{ℕ, Bool, none, some, Option, List, ℤ}
use upthread.Tcb.{Syscall, Attr}
use upthread.Pvcq.State.{Pvcq, Platform}
use upthread.Pvcq.State as State
use upthread.Pvcq.Queues as Queues
use upthread.Pvcq.Threads.{Memory}
use upthread.Pvcq.Threads as Threads
use upthread.Pvcq.TlsAware.{Setting, Sizes, Choice}
use upthread.Pvcq.TlsAware as TlsAware
use upthread.Pvcq.Lifecycle.{JoinStart}
use upthread.Pvcq.Lifecycle as Lifecycle
use upthread.Juggle.Scheduler.{Juggle, on_base, with_base}

-- A call that may abort.
abbrev pub try_base : Juggle → Option Pvcq → Option Juggle
try_base s none = none
try_base s (some b) = some (record s { base = b })

abbrev pub try_with_base {ℓ} : {A : Type ℓ} → Juggle → Option (A × Pvcq) → Option (A × Juggle)
try_with_base s none = none
try_with_base s (some (a, b)) = some (a, record s { base = b })

-- `get_next_pid`, `get_next_queue_id_basic`
unfoldable pub get_next_pid : Juggle → ℕ × Juggle
get_next_pid s = with_base s (State.get_next_pid s.base)

unfoldable pub get_next_queue_id_basic : List (ℕ → ℕ) → Juggle → ℕ × Juggle
get_next_queue_id_basic rounds s = with_base s (State.get_next_queue_id_basic rounds s.base)

-- `get_next_queue_id_tls_aware`, which uses no other state.
unfoldable pub get_next_queue_id_tls_aware : Setting → (ℕ → Sizes) → Sizes → Choice → ℕ × Choice
get_next_queue_id_tls_aware c read last s = TlsAware.get_next_queue_id_tls_aware c read last s

-- `upthread_can_vcore_request`, `upthread_can_vcore_steal`, `upthread_short_circuit_yield` and
-- `upthread_set_num_vcores`
unfoldable pub can_vcore_request : Bool → Juggle → Juggle
can_vcore_request can s = on_base (State.can_vcore_request can) s

unfoldable pub can_vcore_steal : Bool → Juggle → Juggle
can_vcore_steal can s = on_base (State.can_vcore_steal can) s

unfoldable pub short_circuit_yield : Bool → Juggle → Juggle
short_circuit_yield ss s = on_base (State.short_circuit_yield ss) s

unfoldable pub set_num_vcores : Platform → ℤ → Juggle → Juggle
set_num_vcores p num s = on_base (State.set_num_vcores p num) s

-- `__pth_thread_enqueue`: the vcore whose queue has the thread now.
unfoldable pub thread_enqueue : List (ℕ → ℕ) → ℕ → Bool → Juggle → ℕ × Juggle
thread_enqueue rounds t athead s = with_base s (Queues.thread_enqueue rounds t athead s.base)

-- `pth_thread_runnable`
unfoldable pub pth_thread_runnable : List (ℕ → ℕ) → ℕ → Juggle → Juggle
pth_thread_runnable rounds t s = on_base (Queues.pth_thread_runnable rounds t) s

-- `pth_thread_has_blocked`; `justice` is `flags == UTH_EXT_BLK_JUSTICE`.
unfoldable pub pth_thread_has_blocked : ℕ → Bool → Juggle → Juggle
pth_thread_has_blocked t justice s = on_base (Threads.pth_thread_has_blocked t justice) s

-- `pth_blockon_syscall`
unfoldable pub pth_blockon_syscall : ℕ → Juggle → ℕ × Juggle
pth_blockon_syscall t s = with_base s (Threads.pth_blockon_syscall t s.base)

-- `upthread_yield` up to the yield: whether it yields.
unfoldable pub yield_start : ℕ → Juggle → Bool
yield_start self s = Threads.yield_start self s.base

-- `upthread_detach`
unfoldable pub upthread_detach : ℕ → Juggle → Juggle
upthread_detach t s = on_base (Threads.upthread_detach t) s

-- `upthread_getattr_np`
unfoldable pub getattr_np : ℕ → Juggle → Attr
getattr_np t s = Lifecycle.getattr_np (s.base.tcb t)

module _ (p : Platform) where
  -- `__pth_yield_cb`
  unfoldable pub yield_cb : ℕ → Juggle → Juggle
  yield_cb t s = on_base (Threads.yield_cb p t) s

module _ (p : Platform) (mem : Memory) where
  -- `__upthread_alloc`
  unfoldable pub alloc : (ℕ → Option ℕ) → ℕ → Juggle → Option (ℕ × Juggle)
  alloc mmap stacksize s = try_with_base s (Threads.alloc p mem mmap stacksize s.base)

  -- `__upthread_free`
  unfoldable pub free : ℕ → Juggle → Option Juggle
  free t s = try_base s (Threads.free p mem t s.base)

  -- `upthread_create`
  unfoldable pub upthread_create :
      (ℕ → Option ℕ) → Option Attr → ℕ → ℕ → Juggle → Option (ℕ × Juggle)
  upthread_create mmap attr start_routine arg s =
      try_with_base s (Lifecycle.upthread_create p mem mmap attr start_routine arg s.base)

  -- `upthread_join` up to the yield, its callback `__pth_join_cb`, and the rest.
  unfoldable pub join_start : ℕ → Juggle → Option (JoinStart × Juggle)
  join_start target s = try_with_base s (Lifecycle.join_start p mem target s.base)

  unfoldable pub join_cb : ℕ → ℕ → Juggle → Option Juggle
  join_cb t target s = try_base s (Lifecycle.join_cb p mem t target s.base)

  unfoldable pub join_finish : ℕ → Juggle → Option (ℕ × Juggle)
  join_finish target s = try_with_base s (Lifecycle.join_finish p mem target s.base)

  -- `upthread_exit` up to the yield, and its callback `__pth_exit_cb`.
  unfoldable pub exit_start : ℕ → ℕ → Juggle → Juggle
  exit_start t ret s = on_base (Lifecycle.exit_start p mem t ret) s

  unfoldable pub exit_cb : ℕ → Juggle → Option Juggle
  exit_cb t s = try_base s (Lifecycle.exit_cb p mem t s.base)

  -- `restart_thread`
  unfoldable pub restart_thread : List (ℕ → ℕ) → ℕ → ℕ → Juggle → Option Juggle
  restart_thread rounds t sysc s = try_base s (Lifecycle.restart_thread p mem rounds t sysc s.base)

  -- `pth_handle_syscall`
  unfoldable pub pth_handle_syscall :
      List (ℕ → ℕ) → Option (Option Syscall) → Juggle → Option Juggle
  pth_handle_syscall rounds ev_msg s =
      try_base s (Lifecycle.pth_handle_syscall p mem rounds ev_msg s.base)

  -- `upthread_lib_init`; a new key of parlib has no value on any vcore.
  unfoldable pub upthread_lib_init :
      (ℕ → Option ℕ) → Option ℤ → ℕ → ℕ → Juggle → Option (ℕ × Juggle)
  upthread_lib_init mmap spin_count stackbottom stacksize s =
      let s₁ = record s { alarms = record s.alarms { dtls = λ v. none } } in
      try_with_base s₁
        (Lifecycle.upthread_lib_init p mem mmap spin_count stackbottom stacksize s₁.base)
