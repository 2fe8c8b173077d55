-- ===== src/Gq/Attributed.antt =====
-- src/gq/upthread.c, lines 201-227 and 284-320, with src/common/common.c: the attributes of a thread.
use upthread.Base.{
  ℕ, ◌+◌, ◌%◌, ◌^◌, ◌<◌, ◌≡◌, refl, true, false, some, arith, ◌==◌, assert-true, ◌>>=◌,
}
use upthread.Tcb.{Attr, DetachState, joinable, detached, ptr_sub}
use upthread.Attributes.{attr_init, attr_setstacksize, attr_setdetachstate, attr_getstack}
use upthread.Gq.State.{Platform}
use upthread.Gq.Threads.{getattr_np, allocate_stack, new_tcb}

abbrev pub wanted : Platform → ℕ → DetachState → Attr
wanted p n d = attr_setdetachstate d (attr_setstacksize n (attr_init p.pgsize))

-- Where mmap gives a stack that ends below 2^64, and for a size that is not 0 and fits a uint32_t,
-- upthread_getattr_np reports of a new thread the size and the detach state that the attributes were
-- set to, and upthread_attr_getstack of these attributes gives the stack that was mapped.
pub getattr-create :
    (p : Platform) (pid n stackbot start_routine arg : ℕ) (d : DetachState)
    → 0 < n
    → n < 2 ^ 32
    → stackbot + n < 2 ^ 64
    → (a : Attr) × ((allocate_stack p
            (some stackbot)
            (new_tcb p pid (some (wanted p n d)) start_routine arg)
          >>= λ r. some (getattr_np r.1))
        ≡ some a)
      × (a.detachstate ≡ d)
      × (attr_getstack a ≡ (some stackbot, n))
unfolding allocate_stack new_tcb getattr_np attr_setdetachstate attr_setstacksize attr_init
    attr_getstack
getattr-create p pid n stackbot start_routine arg joinable some_size small below =
    let e₀ : (n == 0) ≡ false = ground arith in
    let e₁ : n % 2 ^ 32 ≡ n = omega arith in
    let e₂ : ptr_sub (stackbot + n) n ≡ stackbot = omega arith in
    (
      record { stackaddr = some stackbot; stacksize = n; detachstate = joinable },
      rw (e₀, e₁, e₀, assert-true p.debug true refl, e₂) refl,
      refl,
      refl,
    )
getattr-create p pid n stackbot start_routine arg detached some_size small below =
    let e₀ : (n == 0) ≡ false = ground arith in
    let e₁ : n % 2 ^ 32 ≡ n = omega arith in
    let e₂ : ptr_sub (stackbot + n) n ≡ stackbot = omega arith in
    (
      record { stackaddr = some stackbot; stacksize = n; detachstate = detached },
      rw (e₀, e₁, e₀, assert-true p.debug true refl, e₂) refl,
      refl,
      refl,
    )
