-- ===== src/Gq/Handshake.antt =====
-- src/gq/upthread.c, lines 334-421: the race of `upthread_join` and `upthread_exit`. One thread joins
-- a joinable thread that exits, each on a vcore of its own, and every access to the shared block is
-- a step. The two may be interleaved in any way.
use upthread.Base.{
  refl, ℕ, suc, ◌≡◌, ◌≤◌, Bool, true, false, Option, some, none, arith, ◌+◌, ◌⊎◌, inl, inr,
}

-- Where `upthread_join` and `__pth_join_cb` stand.
pub data Joiner : Type 0 where
  calling : Joiner  -- before the test of `join_target->joiner`
  yielding : Joiner  -- it was 0: before the swap of `__pth_join_cb`
  rewaking : Joiner  -- the swap gave the target: before `uthread_runnable(uthread)`
  sleeping : Joiner  -- the swap gave 0: until another thread makes it runnable
  returning : Joiner  -- before `*retval = join_target->retval`
  freeing : (value : ℕ) → Joiner  -- before `free(join_target)`
  joined : (value : ℕ) → Joiner

-- Where `upthread_exit` and `__pth_exit_cb` stand.
pub data Target : Type 0 where
  running : Target  -- before `upthread->retval = ret`
  leaving : Target  -- before the swap of `__pth_exit_cb`
  waking : (joiner : ℕ) → Target  -- the swap gave a joiner: before `uthread_runnable`
  gone : Target

-- The target's block, the two threads, and how often the joiner was made runnable.
pub record Race : Type 0 where
  pub slot : Option ℕ
  pub retval : ℕ
  pub freed : Bool
  pub joiner : Joiner
  pub target : Target
  pub wakes : ℕ

-- What `temp_pth` says to the joiner and to the target.
abbrev after_join_swap : Option ℕ → Joiner
after_join_swap none = sleeping
after_join_swap (some _) = rewaking

abbrev after_exit_swap : Option ℕ → Target
after_exit_swap none = gone
after_exit_swap (some j) = waking j

abbrev after_test : Option ℕ → Joiner
after_test none = yielding
after_test (some _) = returning

-- `j` joins `t`, which exits with `ret`.
module _ (j t ret : ℕ) where
  -- A step reads or writes the block of the target once.
  pub data Step (r : Race) : Race → Type 0 where
    test : r.joiner ≡ calling → Step r (record r { joiner = after_test r.slot })
    swap_in :
        r.joiner ≡ yielding → Step r (record r { slot = some j; joiner = after_join_swap r.slot })
    rewake : r.joiner ≡ rewaking → Step r (record r { joiner = returning; wakes = suc r.wakes })
    read : r.joiner ≡ returning → Step r (record r { joiner = freeing r.retval })
    release : (v : ℕ) → r.joiner ≡ freeing v → Step r (record r { freed = true; joiner = joined v })
    store : r.target ≡ running → Step r (record r { retval = ret; target = leaving })
    swap_out :
        r.target ≡ leaving → Step r (record r { slot = some t; target = after_exit_swap r.slot })
    -- `uthread_runnable(temp_pth)`: the thread named wakes if it is the joiner, and it sleeps.
    wake :
        r.target ≡ waking j
        → r.joiner ≡ sleeping
        → Step r (record r { joiner = returning; target = gone; wakes = suc r.wakes })

  -- `upthread_create` leaves the slot empty; the value is not yet stored.
  pub data Reach : Race → Type 0 where
    start :
        (v : ℕ)
        → Reach (record {
          slot = none;
          retval = v;
          freed = false;
          joiner = calling;
          target = running;
          wakes = 0;
        })
    next : {r r' : Race} → Reach r → Step r r' → Reach r'

  -- What the places of the two threads say about each other.
  abbrev Agree : Joiner → Target → Race → Type 0
  Agree calling running r = (r.slot ≡ none) × (r.wakes ≡ 0)
  Agree calling leaving r = (r.slot ≡ none) × (r.wakes ≡ 0)
  Agree calling gone r = (r.slot ≡ some t) × (r.wakes ≡ 0)
  Agree yielding running r = (r.slot ≡ none) × (r.wakes ≡ 0)
  Agree yielding leaving r = (r.slot ≡ none) × (r.wakes ≡ 0)
  Agree yielding gone r = (r.slot ≡ some t) × (r.wakes ≡ 0)
  Agree rewaking gone r = r.wakes ≡ 0
  Agree sleeping running r = (r.slot ≡ some j) × (r.wakes ≡ 0)
  Agree sleeping leaving r = (r.slot ≡ some j) × (r.wakes ≡ 0)
  Agree sleeping (waking k) r = (k ≡ j) × (r.wakes ≡ 0)
  Agree returning gone r = r.wakes ≤ 1
  Agree (freeing v) gone r = (v ≡ ret) × (r.wakes ≤ 1)
  Agree (joined v) gone r = (v ≡ ret) × (r.wakes ≤ 1)
  Agree _ _ r = ⊥

  abbrev Stored : Target → Race → Type 0
  Stored running r = Unit {0}
  Stored _ r = r.retval ≡ ret

  abbrev Kept : Joiner → Race → Type 0
  Kept (joined v) r = r.freed ≡ true
  Kept _ r = r.freed ≡ false

  pub record IsSound (r : Race) : Type 0 where
    agree : Agree r.joiner r.target r
    stored : Stored r.target r
    kept : Kept r.joiner r

  Step-IsSound : {r r' : Race} → Step r r' → IsSound r → IsSound r'
  Step-IsSound (test e) v = ground arith
  Step-IsSound (swap_in e) v = ground arith
  Step-IsSound (rewake e) v = ground arith
  Step-IsSound (read e) v = ground arith
  Step-IsSound (release _ e) v = ground arith
  Step-IsSound (store e) v = ground arith
  Step-IsSound (swap_out e) v = ground arith
  Step-IsSound (wake e e') v = ground arith

  Reach-IsSound : {r : Race} → Reach r → IsSound r
  Reach-IsSound (start v) = record { agree = (refl, refl); stored = tt; kept = refl }
  Reach-IsSound (next q st) = Step-IsSound st (Reach-IsSound q)

  -- When `upthread_join` returns, its target has exited, and the value is the one the target gave.
  joined_value : {r : Race} (v : ℕ) → Reach r → r.joiner ≡ joined v → (v ≡ ret) × (r.target ≡ gone)
  joined_value v q e = let s = Reach-IsSound q in ground arith

  -- The block is freed only when the exiting thread has made its last access to it.
  pub freed_after_exit : {r : Race} → Reach r → r.freed ≡ true → r.target ≡ gone
  freed_after_exit q e = let s = Reach-IsSound q in ground arith

  -- The joiner is made runnable at most once.
  pub woken_once : {r : Race} → Reach r → r.wakes ≤ 1
  woken_once q = let s = Reach-IsSound q in ground arith

  -- What `upthread_join` and `__pth_join_cb` assert: a slot that is not empty holds the target.
  pub asserts_hold :
      {r : Race} (x : ℕ)
      → Reach r
      → (r.joiner ≡ calling) ⊎ (r.joiner ≡ yielding)
      → r.slot ≡ some x
      → x ≡ t
  asserts_hold x q at e = let s = Reach-IsSound q in ground arith

  -- In every interleaving of a join and the exit of its target: the joiner is made runnable at most
  -- once; what it asserts holds, since before it has swapped a slot that is not empty holds the
  -- target; the block of the target is freed only when the target has made its last access to it; and
  -- a join that returns gives the value that the target exited with, and the target is gone.
  pub race_sound :
      {r : Race}
      → Reach r
      → (r.wakes ≤ 1)
        × ((x : ℕ) → (r.joiner ≡ calling) ⊎ (r.joiner ≡ yielding) → r.slot ≡ some x → x ≡ t)
        × (r.freed ≡ true → r.target ≡ gone)
        × ((v : ℕ) → r.joiner ≡ joined v → (v ≡ ret) × (r.target ≡ gone))
  race_sound q = (
    woken_once q,
    λ x at e. asserts_hold x q at e,
    λ e. freed_after_exit q e,
    λ v e. joined_value v q e,
  )

  -- Until the join is over one of the two threads can go on.
  pub join_no_deadlock :
      {r : Race}
      → Reach r
      → ((r' : Race) × Step r r') ⊎ ((v : ℕ) × (r.joiner ≡ joined v) × (r.target ≡ gone))
  join_no_deadlock {r} q = go r.joiner r.target refl refl (Reach-IsSound q)
    where
      go :
          (a : Joiner) (b : Target)
          → r.joiner ≡ a
          → r.target ≡ b
          → IsSound r
          → ((r' : Race) × Step r r') ⊎ ((v : ℕ) × (r.joiner ≡ joined v) × (r.target ≡ gone))
      go calling b ea eb s = inl (_, test ea)
      go yielding b ea eb s = inl (_, swap_in ea)
      go rewaking b ea eb s = inl (_, rewake ea)
      go returning b ea eb s = inl (_, read ea)
      go (freeing v) b ea eb s = inl (_, release v ea)
      go sleeping running ea eb s = inl (_, store eb)
      go sleeping leaving ea eb s = inl (_, swap_out eb)
      go sleeping (waking k) ea eb s = inl (_, wake (ground arith) ea)
      go sleeping gone ea eb s = absurd (ground arith)
      go (joined v) b ea eb s = inr (v, ea, ground arith)

  abbrev joiner_left : Joiner → ℕ
  joiner_left calling = 5
  joiner_left yielding = 4
  joiner_left rewaking = 3
  joiner_left sleeping = 3
  joiner_left returning = 2
  joiner_left (freeing _) = 1
  joiner_left (joined _) = 0

  abbrev target_left : Target → ℕ
  target_left running = 3
  target_left leaving = 2
  target_left (waking _) = 1
  target_left gone = 0

  -- A bound of the steps that are left.
  abbrev pub left : Race → ℕ
  left r = joiner_left r.joiner + target_left r.target

  -- Every step brings the join nearer to its end.
  pub Step-left : {r r' : Race} → Step r r' → left r' + 1 ≤ left r
  Step-left (test e) = ground arith
  Step-left (swap_in e) = ground arith
  Step-left (rewake e) = ground arith
  Step-left (read e) = ground arith
  Step-left (release _ e) = ground arith
  Step-left (store e) = ground arith
  Step-left (swap_out e) = ground arith
  Step-left (wake e e') = ground arith

  -- The join ends: until it has returned and the target is gone, one of the two threads can take a
  -- step, and every step of either lowers a bound of the steps that are left.
  pub join_ends :
      {r : Race}
      → Reach r
      → (((r' : Race) × Step r r') ⊎ ((v : ℕ) × (r.joiner ≡ joined v) × (r.target ≡ gone)))
        × ((r' : Race) → Step r r' → left r' + 1 ≤ left r)
  join_ends q = (join_no_deadlock q, λ r' st. Step-left st)
