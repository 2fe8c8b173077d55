-- ===== src/Barrier/Ops.antt =====
-- src/common/barrier.c: the barrier, and what its functions do to it between two points where another
-- thread can see it. The sections under the lock of a `contextq_t` are one function each.

-- `contextq_t`: `queue` holds the first `len` entries of the array.
use upthread.Base.{
  ℕ, suc, Bool, true, false, not, Option, none, some, List, [], ltb, if◌then◌else◌, length,
  insert_tail,
}
use upthread.Base.Sums.{update}

pub record Contextq : Type 0 where
  pub queue : List ℕ
  pub maxlen : ℕ

-- `struct upthread_barrier`; `blocked` is indexed by a Boolean in the code, too.
pub record Barrier : Type 0 where
  pub size : ℕ
  pub arrived : ℕ
  pub wait : Bool
  pub signals : ℕ → Bool
  pub blocked : Bool → Contextq

-- `upthread_barrier_init`
unfoldable pub barrier_init : ℕ → Barrier
barrier_init n = record {
  size = n;
  arrived = 0;
  wait = false;
  signals = λ _. false;
  blocked = λ _. record { queue = []; maxlen = n };
}

abbrev pub eq_bool : Bool → Bool → Bool
eq_bool true b = b
eq_bool false b = not b

-- A change of one of the two queues.
abbrev pub set_blocked : Bool → Contextq → Barrier → Barrier
set_blocked w q b = record b { blocked = λ v. if eq_bool v w then q else b.blocked v }

-- `__barrier_block`: the thread goes to the end of the queue; `none` if the assertion fails, and the
-- array has no room.
unfoldable pub barrier_block : ℕ → Bool → Barrier → Option Barrier
barrier_block t w b =
    let q = b.blocked w in
    if ltb (length q.queue) q.maxlen
    then some (set_blocked w (record q { queue = insert_tail q.queue t }) b)
    else none

-- `__sync_fetch_and_add(&barrier->arrived, 1)`
unfoldable pub arrive : Barrier → ℕ × Barrier
arrive b = (b.arrived, record b { arrived = suc b.arrived })

-- The last to arrive: `barrier->arrived = 0`, `barrier->wait = !barrier->wait`, a round of the loop
-- that sets the signals, and the section that makes the blocked threads runnable.
unfoldable pub reset_arrived : Barrier → Barrier
reset_arrived b = record b { arrived = 0 }

unfoldable pub toggle_wait : Barrier → Barrier
toggle_wait b = record b { wait = not b.wait }

unfoldable pub signal : Bool → ℕ → Barrier → Barrier
signal w i b = record b { signals = update b.signals i (not w) }

unfoldable pub unblock : Bool → Barrier → List ℕ × Barrier
unblock w b = ((b.blocked w).queue, set_blocked w (record (b.blocked w) { queue = [] }) b)

-- `barrier->signals[id].val == wait`
abbrev pub must_wait : Bool → ℕ → Barrier → Bool
must_wait w id b = eq_bool (b.signals id) w

abbrev pub max_stalls : ℕ
max_stalls = 1000
