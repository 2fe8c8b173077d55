-- ===== src/Examples/Contexts.antt =====
-- src/lithe/upthread.c: thread 1 joins thread 2, which exits with the value 7.
use upthread.Base.{suc, ◌+◌, ◌-◌, ◌*◌, ◌/◌, ◌≡◌, refl, true, some, [], ◌∷◌, length, pop_head}
use upthread.Lithe.Contexts.{Lithe, Platform, context_at, join_cb, context_exit, upthread_exit}
use upthread.Lithe.Joining.{Meet, join_meets_exit}

abbrev platform : Platform
platform = record {
  debug = true;
  max_vcores = 2;
  pgsize = 4096;
  cl_size = 64;
  ctx_size = 500;
  round_up = λ n to. (n + (to - 1)) / to * to;
  rand_r = λ seed. (seed, suc seed);
  wfl_remove = λ l. pop_head l;
  wfl_insert = λ t l. t ∷ l;
  wfl_size = λ l. length l;
  munmap = λ base size. true;
}

abbrev state : Lithe
state = record { zombie_list = []; rseed = 1; ctx = λ t. context_at 4096 8192 512; calls = [] }

join_meets_exit_example :
    ((s₁ s₂ : Lithe) × (context_exit platform 2 (upthread_exit 2 7 state) ≡ some s₁)
      × (join_cb platform 1 2 s₁ ≡ some s₂)
      × Meet platform (λ base size. refl) 1 2 7 state s₂)
    × ((s₁ s₂ : Lithe) × (join_cb platform 1 2 state ≡ some s₁)
        × (context_exit platform 2 (upthread_exit 2 7 s₁) ≡ some s₂)
        × Meet platform (λ base size. refl) 1 2 7 state s₂)
join_meets_exit_example = join_meets_exit platform (λ base size. refl) 1 2 7 state refl refl
