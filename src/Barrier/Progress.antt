-- ===== src/Barrier/Progress.antt =====
-- src/common/barrier.c: who can go on while a thread is blocked.
use upthread.Base.{
  ℕ, ◌<◌, ◌≡◌, refl, ◌≢◌, inl, inr, true, false, arith, ltb, ==_refl, Bool-cases, Option-cases,
}
use upthread.Base.Sums.{total-missing}
use upthread.Barrier.Invariant.{
  here, Phase, gathering, resets_phase, toggles_phase, signals_phase, member, role_at, PhaseOk, Inv,
}
use upthread.Barrier.Ops.{barrier_block, must_wait}
use upthread.Barrier.System.{
  Step, enter, arrives, resets, toggles, releases, spins, leaves, parks, goes_on, Reach, Pc, idle,
  arriving, resetting, toggling, signalling, spinning, stalling, parked, System,
}
use upthread.Barrier.Arriving.{here_small}
use upthread.Barrier.Safety.{Reach-Inv, block_has_room}

abbrev pub CanStep : ℕ → ℕ → System → Type 0
CanStep n j s = (s' : System) × Step n j s s'

abbrev pub IsParked : Pc → Type 0
IsParked (parked w id k) = Unit {0}
IsParked _ = ⊥

-- Each place but a queue has a step.
can_step :
    {n : ℕ} {s : System}
    → Reach n s
    → (j : ℕ) (p : Pc) → j < n
    → (s.thread j).pc ≡ p
    → ¬ IsParked p
    → CanStep n j s
can_step r j idle lt at h = (_, enter lt at)
can_step r j (arriving w) lt at h = (_, arrives w lt at)
can_step r j (resetting w) lt at h = (_, resets w lt at)
can_step r j (toggling w) lt at h = (_, toggles w lt at)
can_step {s = s} r j (signalling w k) lt at h = elim (Bool-cases (ltb k s.barrier.size)) [
  | inl e ↦ (_, Step.signals w k lt at (ground arith))
  | inr e ↦ (_, releases w k lt at (ground arith))
]
can_step {s = s} r j (spinning w id k) lt at h = elim (Bool-cases (must_wait w id s.barrier)) [
  | inl e ↦ (_, spins w id k lt at e)
  | inr e ↦ (_, leaves w id k lt at e)
]
can_step {s = s} r j (stalling w id k) lt at h = elim (Bool-cases (must_wait w id s.barrier)) [
  | inl e ↦ elim (Option-cases (barrier_block j w s.barrier)) [
    | inl full ↦ absurd (block_has_room r j id k w lt at full)
    | inr (b, room) ↦ (_, parks w id k b lt at e room)
  ]
  | inr e ↦ (_, goes_on w id k lt at e)
]
can_step r j (parked w id k) lt at h = absurd (h tt)

-- While a thread is blocked in the barrier, another thread, which is not, can take a step.
pub barrier_no_deadlock :
    {n : ℕ} {s : System}
    → Reach n s
    → (i : ℕ) → i < n
    → IsParked (s.thread i).pc
    → (j : ℕ) × (j < n) × (¬ IsParked (s.thread j).pc) × CanStep n j s
barrier_no_deadlock {n} {s} r i lt at =
    let (ph, inv) = Reach-Inv (omega arith) r in go ph inv inv.phase
  where
    at_role :
        (ph : Phase) → Inv n ph s → (u : ℕ) → role_at ph u ≢ member → ¬ IsParked (s.thread u).pc
    at_role ph inv u ne = ground (arith, inv.roles u)

    goes :
        (u : ℕ)
        → u < n
        → ¬ IsParked (s.thread u).pc
        → (j : ℕ) × (j < n) × (¬ IsParked (s.thread j).pc) × CanStep n j s
    goes u ut free = (u, ut, free, can_step r u (s.thread u).pc ut refl free)

    go :
        (ph : Phase)
        → Inv n ph s
        → PhaseOk n ph s
        → (j : ℕ) × (j < n) × (¬ IsParked (s.thread j).pc) × CanStep n j s
    go gathering inv (counted, few, signals, current) =
        let (j, lj, none_here) =
          total-missing (here s.opened) (here_small s.opened) n s.thread
            (omega (arith, counted, few)) in
        goes j lj (λ p. ground (arith, current j true, current j false))
    go (resets_phase u) inv (ut, full, signals) =
        goes u ut (at_role (resets_phase u) inv u (ground (arith, ==_refl u)))
    go (toggles_phase u) inv (ut, full, signals, none_here) =
        goes u ut (at_role (toggles_phase u) inv u (ground (arith, ==_refl u)))
    go (signals_phase u k) inv (ut, counted, freed, signals) =
        goes u ut (at_role (signals_phase u k) inv u (ground (arith, ==_refl u)))
