-- ===== src/Attributes.antt =====
-- src/common/common.c, lines 3-51: the functions on thread attributes. `stackaddr` has no setter. All
-- of them return 0.
use upthread.Base.{ℕ, Bool, Option, none, ◌==◌}
use upthread.Tcb.{Attr, DetachState, joinable, stack_size}

-- `upthread_attr_init`
unfoldable pub attr_init : ℕ → Attr
attr_init pgsize = record {
  stacksize = stack_size pgsize;
  detachstate = joinable;
  stackaddr = none;
}

-- `upthread_attr_setstacksize`, `upthread_attr_setdetachstate`
unfoldable pub attr_setstacksize : ℕ → Attr → Attr
attr_setstacksize n a = record a { stacksize = n }

unfoldable pub attr_setdetachstate : DetachState → Attr → Attr
attr_setdetachstate d a = record a { detachstate = d }

-- `upthread_attr_getstacksize`, `upthread_attr_getstack`
unfoldable pub attr_getstacksize : Attr → ℕ
attr_getstacksize a = a.stacksize

unfoldable pub attr_getstack : Attr → Option ℕ × ℕ
attr_getstack a = (a.stackaddr, a.stacksize)

-- `upthread_equal`
unfoldable pub upthread_equal : ℕ → ℕ → Bool
upthread_equal thread₁ thread₂ = thread₁ == thread₂
