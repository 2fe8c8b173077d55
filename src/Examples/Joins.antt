-- ===== src/Examples/Joins.antt =====
-- src/gq/upthread.c: thread 2 exits with the value 7 before thread 1 joins it.
use upthread.Base.{ℕ, ◌+◌, ◌≤◌, ◌≡◌, refl, ◌⊎◌, Bool, true, false, Option, none, some}
use upthread.Gq.Handshake.{
  Joiner, calling, joined, Target, running, gone, Race, Step, test, read, release, store, swap_out,
  Reach, start, next, race_sound, join_ends, left, yielding,
}

abbrev race : Option ℕ → ℕ → Bool → Joiner → Target → Race
race slot retval freed joiner target = record {
  slot = slot;
  retval = retval;
  freed = freed;
  joiner = joiner;
  target = target;
  wakes = 0;
}

abbrev first : Race
first = race none 0 false calling running

abbrev exited : Race
exited = race (some 2) 7 false calling gone

abbrev over : Race
over = race (some 2) 7 true (joined 7) gone

exited-Reach : Reach 1 2 7 exited
exited-Reach = next (next (start 0) (store refl)) (swap_out refl)

over-Reach : Reach 1 2 7 over
over-Reach = next (next (next exited-Reach (test refl)) (read refl)) (release 7 refl)

race_sound_example :
    (over.wakes ≤ 1)
    × ((x : ℕ) → (over.joiner ≡ calling) ⊎ (over.joiner ≡ yielding) → over.slot ≡ some x → x ≡ 2)
    × (over.freed ≡ true → over.target ≡ gone)
    × ((v : ℕ) → over.joiner ≡ joined v → (v ≡ 7) × (over.target ≡ gone))
race_sound_example = race_sound 1 2 7 over-Reach

join_ends_example :
    (((r' : Race) × Step 1 2 7 exited r')
      ⊎ ((v : ℕ) × (exited.joiner ≡ joined v) × (exited.target ≡ gone)))
    × ((r' : Race) → Step 1 2 7 exited r' → left 1 2 7 r' + 1 ≤ left 1 2 7 exited)
join_ends_example = join_ends 1 2 7 exited-Reach
