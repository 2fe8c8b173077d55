-- ===== src/Tcb.antt =====
-- src/common/upthread-types.h, upthread-common.h and common.c: the thread control block, its
-- states, and the thread attributes. A pointer to a block is the number of its address, and a
-- pointer that may be NULL an option of it.
use upthread.Base.{ℕ, ◌+◌, ◌-◌, ◌*◌, ◌%◌, ◌^◌, Bool, Option, none}
use upthread.Base.Sums.{update}

-- The `UPTH_…` constants.
pub data ThreadState : Type 0 where
  created runnable running exiting blk_yielding blk_joining blk_sysc blk_mutex blk_paused :
      ThreadState

-- `struct upthread_tcb`, without its link `next`, which the queues stand for. Of the `struct
-- uthread` at its start the code names `sysc` and `tls_desc`.
pub record Tcb : Type 0 where
  pub sysc : Option ℕ
  pub tls_desc : ℕ
  pub state : ThreadState
  pub detached : Bool
  pub joiner : Option ℕ
  pub id : ℕ
  pub stack_offset : ℕ
  pub stacksize : ℕ
  pub stacktop : ℕ
  pub start_routine : ℕ
  pub arg : ℕ
  pub retval : ℕ
  pub preferred_vcq : ℕ

pub data DetachState : Type 0 where
  joinable detached : DetachState

-- `upthread_attr_t`
pub record Attr : Type 0 where
  pub stackaddr : Option ℕ
  pub stacksize : ℕ
  pub detachstate : DetachState

-- What the schedulers use of parlib's `struct syscall`: where it lies, and the thread that waits.
pub record Syscall : Type 0 where
  pub address : ℕ
  pub u_data : Option ℕ

-- UPTHREAD_STACK_PAGES pages; the size of a page is the platform's.
abbrev pub stack_size : ℕ → ℕ
stack_size pgsize = 1024 * pgsize

-- Subtraction from a 64-bit pointer.
abbrev pub ptr_sub : ℕ → ℕ → ℕ
ptr_sub a n = (a + 2 ^ 64 - n) % 2 ^ 64

-- The block at one address is changed, and no other.
abbrev pub modify : (ℕ → Tcb) → ℕ → (Tcb → Tcb) → ℕ → Tcb
modify mem t f = update mem t (f (mem t))

abbrev pub set_state : ThreadState → Tcb → Tcb
set_state st b = record b { state = st }

-- What `memset(upthread, 0, sizeof(…))` leaves. No state has the number 0; each caller stores a
-- state before another thread sees the block, so any will do here.
abbrev pub zeroed : Tcb
zeroed = record {
  sysc = none;
  tls_desc = 0;
  state = created;
  detached = Bool.false;
  joiner = none;
  id = 0;
  stack_offset = 0;
  stacksize = 0;
  stacktop = 0;
  start_routine = 0;
  arg = 0;
  retval = 0;
  preferred_vcq = 0;
}
