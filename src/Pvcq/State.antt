-- ===== src/Pvcq/State.antt =====
-- src/pvcq/upthread.c, lines 18-113: the state of the scheduler, its settings, and the queue that a
-- new thread gets.
use upthread.Base.{
  ℕ, suc, ◌%◌, ◌^◌, Bool, List, [], ◌∷◌, ◌==◌, if◌then◌else◌, ℤ, pos, eq_int, lt_int,
}
use upthread.Base.Sums.{update}
use upthread.Tcb.{Tcb, ThreadState, set_state, modify}

-- `struct vc_mgmt`; its spinlock makes each section on a queue one function.
pub record VcMgmt : Type 0 where
  pub tqueue : List ℕ
  pub tqsize : ℤ
  pub rseed : ℕ

-- Calls out of the file that return nothing to it, newest first in `calls`.
pub data Call : Type 0 where
  vcore_request_specific : ℕ → Call
  vcore_yield : Call
  run_uthread : ℕ → Call
  init_uthread_tf : (thread stackbottom stacksize : ℕ) → Call
  uthread_init : ℕ → Call
  uthread_lib_init : ℕ → Call
  uthread_cleanup : ℕ → Call
  destroy_dtls : ℕ → Call
  munmap : (base size : ℕ) → Call
  odd_state : ℕ → Call
  just_blocked : Call
  join_detached : ℕ → Call

pub record Pvcq : Type 0 where
  pub vc_mgmt : ℕ → VcMgmt
  pub can_steal : Bool
  pub can_adjust_vcores : Bool
  pub ss_yield : Bool
  pub nr_vcores : ℤ
  pub next_queue_id : ℕ
  pub max_spin_count : ℤ
  pub next_pid : ℕ
  pub zombie_list : List ℕ
  pub tcb : ℕ → Tcb
  pub calls : List Call

-- What is not in this repository: the vcores of parlib, `rand_r` with the seed it leaves, the sizes
-- of the platform, and what `uthread_runnable` does with the scheduler.
pub record Platform : Type 0 where
  pub debug : Bool
  pub max_vcores : ℕ
  pub num_vcores : ℕ
  pub rand_r : ℕ → ℕ × ℕ
  pub uthread_runnable : ℕ → Pvcq → Pvcq
  pub pgsize : ℕ
  pub cl_size : ℕ
  pub tcb_size : ℕ

abbrev pub with_vc : ℕ → (VcMgmt → VcMgmt) → Pvcq → Pvcq
with_vc v f s = record s { vc_mgmt = update s.vc_mgmt v (f (s.vc_mgmt v)) }

abbrev pub with_tcb : ℕ → (Tcb → Tcb) → Pvcq → Pvcq
with_tcb t f s = record s { tcb = modify s.tcb t f }

abbrev pub to_state : ThreadState → ℕ → Pvcq → Pvcq
to_state st t s = with_tcb t (set_state st) s

abbrev pub call : Call → Pvcq → Pvcq
call c s = record s { calls = c ∷ s.calls }

-- `get_next_pid`
unfoldable pub get_next_pid : Pvcq → ℕ × Pvcq
get_next_pid s = (s.next_pid, record s { next_pid = suc s.next_pid % 2 ^ 32 })

-- `id + 1 == nr_vcores ? 0 : id + 1`
abbrev pub next_id : ℤ → ℕ → ℕ
next_id nr id = if eq_int (pos (suc id)) nr then 0 else suc id

-- `get_next_queue_id_basic`. The list holds what other vcores do to the counter between the load
-- and the compare-and-swap of each round that they disturb; a round that stores ends the loop.
unfoldable pub get_next_queue_id_basic : List (ℕ → ℕ) → Pvcq → ℕ × Pvcq
get_next_queue_id_basic [] s =
    (s.next_queue_id, record s { next_queue_id = next_id s.nr_vcores s.next_queue_id })
get_next_queue_id_basic (others ∷ rounds) s =
    let id = s.next_queue_id in
    let now = others id in
    let again = get_next_queue_id_basic rounds (record s { next_queue_id = now }) in
    if now == id then (id, record s { next_queue_id = next_id s.nr_vcores id }) else again

-- `upthread_can_vcore_request`, `upthread_can_vcore_steal`, `upthread_short_circuit_yield`
unfoldable pub can_vcore_request : Bool → Pvcq → Pvcq
can_vcore_request can s = record s { can_adjust_vcores = can }

unfoldable pub can_vcore_steal : Bool → Pvcq → Pvcq
can_vcore_steal can s = record s { can_steal = can }

unfoldable pub short_circuit_yield : Bool → Pvcq → Pvcq
short_circuit_yield ss s = record s { ss_yield = ss }

-- `upthread_set_num_vcores`
unfoldable pub set_num_vcores : Platform → ℤ → Pvcq → Pvcq
set_num_vcores p num s =
    let nr = if lt_int num (pos p.max_vcores) then num else pos p.max_vcores in
    record s { nr_vcores = nr; next_queue_id = if lt_int (pos 1) nr then 1 else 0 }
