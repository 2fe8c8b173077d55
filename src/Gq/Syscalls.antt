-- ===== src/Gq/Syscalls.antt =====
-- src/gq/upthread.c, lines 166-176 and 460-494: a thread waits for a system call and comes back.
use upthread.Base.{ℕ, ◌≡◌, refl, Option, none, some, arith, assert, assert-true, ==_refl, same}
use upthread.Tcb.{blk_sysc}
use upthread.Gq.State.{Gq, Platform, with_tcb}
use upthread.Gq.Schedule.{pth_thread_runnable, pth_blockon_syscall}
use upthread.Gq.Threads.{is_blocked, restart_thread, pth_handle_syscall}
use upthread.Gq.Invariant.{IsValid, IsActive, runnable-IsValid}
use upthread.Gq.Totality.{IsRequeued, blockon_syscall_total}

-- What uthread.c of parlib does when a thread waits for a call: the thread notes the call, too.
abbrev pub note : ℕ → ℕ → Gq → Gq
note t sysc s = with_tcb t (λ b. record b { sysc = some sysc }) s

with_sysc-IsValid :
    (t : ℕ) (sysc : Option ℕ) (s : Gq)
    → IsValid s
    → IsValid (with_tcb t (λ b. record b { sysc = sysc }) s)
with_sysc-IsValid t sysc s v = record {
  ready_counted = v.ready_counted;
  active_counted = v.active_counted;
  once = v.once;
  ready_runnable = λ u h. ground (arith, v.ready_runnable u);
}

restart_thread-done :
    (p : Platform) (t sysc : ℕ) (s : Gq)
    → (s.tcb t).state ≡ blk_sysc
    → (s.tcb t).sysc ≡ some sysc
    → restart_thread p t sysc s
      ≡ some (pth_thread_runnable t (with_tcb t (λ b. record b { sysc = none }) s))
unfolding restart_thread
restart_thread-done p t sysc s st noted =
    let e₁ : assert p.debug (is_blocked (s.tcb t).state) ≡ some tt =
      assert-true p.debug _ (ground arith) in
    let e₂ : assert p.debug (same (s.tcb t).sysc (some sysc)) ≡ some tt =
      assert-true p.debug _ (ground (arith, ==_refl sysc)) in
    rw (e₁, e₂) refl

-- In a valid state, an active thread waits for a system call, and the event of the call then passes
-- the assertions of the handler and puts the thread at the end of the ready queue; the thread notes
-- no call any more and the state is valid.
pub syscall_returns :
    (p : Platform) (t sysc : ℕ) (s : Gq)
    → IsActive t s
    → IsValid s
    → (s₁ s₂ : Gq) × (pth_blockon_syscall t s ≡ some (t, s₁))
      × (pth_handle_syscall p
            (some (some (record { address = sysc; u_data = some t })))
            (note t sysc s₁)
          ≡ some s₂)
      × IsValid s₂
      × IsRequeued t s s₂
      × ((s₂.tcb t).sysc ≡ none)
unfolding pth_handle_syscall pth_thread_runnable
syscall_returns p t sysc s active v =
    let (s₁, e, w, idle, same_ready, st) = blockon_syscall_total t s active v in
    let s₂ = with_tcb t (λ b. record b { sysc = none }) (note t sysc s₁) in
    let w₂ = with_sysc-IsValid t none _ (with_sysc-IsValid t (some sysc) s₁ w) in
    (
      s₁,
      pth_thread_runnable t s₂,
      e,
      restart_thread-done p t sysc (note t sysc s₁) (ground arith) (ground arith),
      runnable-IsValid t s₂ idle w₂,
      (ground (arith, same_ready), ground arith),
      ground arith,
    )
