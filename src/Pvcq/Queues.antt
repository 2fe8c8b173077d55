-- ===== src/Pvcq/Queues.antt =====
-- src/pvcq/upthread.c, lines 156-246 and 288-317: threads enter and leave the queues of the vcores.
use upthread.Base.{
  ℕ, zero, suc, ◌+◌, ◌-◌, ◌/◌, ◌%◌, Bool, true, false, not, Option, none, some, List, [], ◌∷◌, ltb,
  ◌==◌, if◌then◌else◌, insert_tail, ℤ, pos, negsuc, incr, decr, nonzero, lt_int, pos_part,
}
use upthread.Tcb.{
  ThreadState, created, runnable, blk_yielding, blk_joining, blk_sysc, blk_mutex, blk_paused,
}
use upthread.Pvcq.State.{
  VcMgmt, Pvcq, Platform, vcore_request_specific, odd_state, with_vc, with_tcb, to_state, call,
  get_next_queue_id_basic,
}

abbrev pub is_created : ThreadState → Bool
is_created created = true
is_created _ = false

-- STAILQ_INSERT_HEAD or STAILQ_INSERT_TAIL, and `tqsize++`
abbrev pub insert : Bool → ℕ → VcMgmt → VcMgmt
insert athead t vc = record vc {
  tqueue = if athead then t ∷ vc.tqueue else insert_tail vc.tqueue t;
  tqsize = incr vc.tqsize;
}

-- `__pth_thread_enqueue`, with the rounds of the queue counter that other vcores disturb: the vcore
-- whose queue has the thread now.
unfoldable pub thread_enqueue : List (ℕ → ℕ) → ℕ → Bool → Pvcq → ℕ × Pvcq
unfolding get_next_queue_id_basic
thread_enqueue rounds t athead s =
    let s₁ = to_state runnable t s in
    let s₂ =
      (if is_created (s.tcb t).state
        then (let (id, s₂) = get_next_queue_id_basic rounds s₁ in
            with_tcb t (λ b. record b { preferred_vcq = id }) s₂)
        else s₁) in
    let v = (s₂.tcb t).preferred_vcq in (v, with_vc v (insert athead t) s₂)

-- The section of `tdequeue`, for the vcore `self` at the queue `q` of vcore `v`.
abbrev pub tdequeue_from : ℕ → ℕ → List ℕ → Pvcq → Option ℕ × Pvcq
tdequeue_from self v [] s = (none, s)
tdequeue_from self v (t ∷ rest) s = (
  some t,
  with_tcb t (λ b. record b { preferred_vcq = self })
      (with_vc v (λ vc. record vc { tqueue = rest; tqsize = decr vc.tqsize }) s),
)

-- `tdequeue` of `__pth_thread_dequeue`
unfoldable pub tdequeue : ℕ → ℕ → Pvcq → Option ℕ × Pvcq
tdequeue self v s =
    if nonzero (s.vc_mgmt v).tqsize then tdequeue_from self v (s.vc_mgmt v).tqueue s else (none, s)

-- The loop of `steal_threads`, with the rounds left: what is stolen goes to the thief's own queue.
unfoldable pub steal_loop : ℕ → ℕ → ℕ → Pvcq → Pvcq
steal_loop zero self v s = s
steal_loop (suc rounds) self v s =
    let (u, s₁) = tdequeue self v s in
    elim u [ none ↦ s₁ | some t ↦ steal_loop rounds self v (thread_enqueue [] t false s₁).1 ]

-- `(tqsize + 1) / 2`, rounded towards 0
abbrev pub num_to_steal : ℤ → ℤ
num_to_steal (pos n) = pos ((n + 1) / 2)
num_to_steal (negsuc n) = if ltb n 2 then pos 0 else negsuc (n / 2 - 1)

-- What `steal_threads` does after its first dequeue.
abbrev pub stole : ℕ → ℕ → ℕ → Option ℕ × Pvcq → Option ℕ × Pvcq
stole num self v (none, s) = (none, s)
stole num self v (some t, s) = (some t, steal_loop (num - 1) self v s)

-- `steal_threads`
unfoldable pub steal_threads : ℕ → ℕ → Pvcq → Option ℕ × Pvcq
steal_threads self v s =
    let num = num_to_steal (s.vc_mgmt v).tqsize in
    if nonzero num then stole (pos_part num) self v (tdequeue self v s) else (none, s)

abbrev pub or_else : Option ℕ × Pvcq → (Pvcq → Option ℕ × Pvcq) → Option ℕ × Pvcq
or_else (none, s) f = f s
or_else (some t, s) f = (some t, s)

-- From the queue that is chosen, or from the other one if that is the thief's.
abbrev pub steal_one_of : ℕ → ℕ → ℕ → Pvcq → Option ℕ × Pvcq
steal_one_of self chosen other s =
    if not (self == chosen) then steal_threads self chosen s else steal_threads self other s

module _ (p : Platform) where
  -- The loop `while (i != vcoreid)`, with enough fuel for a round of all vcores.
  unfoldable pub scan : ℕ → ℕ → ℕ → Pvcq → Option ℕ × Pvcq
  scan zero self i s = (none, s)
  scan (suc fuel) self i s =
      let round = or_else (steal_threads self i s) (scan fuel self ((i + 1) % p.max_vcores)) in
      if i == self then (none, s) else round

  -- The power of two choices: the fuller of two random queues.
  unfoldable pub two_choices : ℕ → Pvcq → Option ℕ × Pvcq
  two_choices self s =
      let (r₀, seed₀) = p.rand_r (s.vc_mgmt self).rseed in
      let (r₁, seed₁) = p.rand_r seed₀ in
      let s₁ = with_vc self (λ vc. record vc { rseed = seed₁ }) s in
      let c₀ = r₀ % p.num_vcores in
      let c₁ = r₁ % p.num_vcores in
      let first = lt_int (s₁.vc_mgmt c₁).tqsize (s₁.vc_mgmt c₀).tqsize in
      if first then steal_one_of self c₀ c₁ s₁ else steal_one_of self c₁ c₀ s₁

  -- `__pth_thread_dequeue` on the vcore `self`
  unfoldable pub thread_dequeue : ℕ → Pvcq → Option ℕ × Pvcq
  thread_dequeue self s = or_else (tdequeue self self s) (λ s₁.
      if s₁.can_steal
      then or_else (two_choices self s₁) (scan p.max_vcores self ((self + 1) % p.max_vcores))
      else (none, s₁))

-- How `pth_thread_runnable` queues a thread of each state; none of the others.
pub data Placement : Type 0 where
  at_head at_tail odd : Placement

abbrev pub placement : ThreadState → Placement
placement blk_sysc = at_head
placement created = at_tail
placement blk_yielding = at_tail
placement blk_joining = at_tail
placement blk_paused = at_tail
placement blk_mutex = at_tail
placement _ = odd

-- The `switch` of `pth_thread_runnable`.
abbrev pub placed : List (ℕ → ℕ) → ℕ → Placement → Pvcq → ℕ × Pvcq
placed rounds t at_head s = thread_enqueue rounds t true s
placed rounds t at_tail s = thread_enqueue rounds t false s
placed rounds t odd s = (0, call (odd_state t) s)

-- `pth_thread_runnable`
unfoldable pub pth_thread_runnable : List (ℕ → ℕ) → ℕ → Pvcq → Pvcq
pth_thread_runnable rounds t s =
    let (qid, s₁) = placed rounds t (placement (s.tcb t).state) s in
    if s₁.can_adjust_vcores then call (vcore_request_specific qid) s₁ else s₁
