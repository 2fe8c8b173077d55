-- ===== src/Barrier/Invariant.antt =====
-- What the threads of Barrier/System know of the barrier of src/common/barrier.c. `opened` counts the
-- rounds; a thread in a call belongs to the round of as many waits as it has passed.
use upthread.Base.{
  ℕ, zero, suc, ◌≤◌, ◌<◌, ◌≡◌, ◌⊎◌, Bool, true, false, ◌&&◌, ◌||◌, not, Option, none, some, ltb,
  ◌==◌, if◌then◌else◌, bit, length, count,
}
use upthread.Base.Sums.{total}
use upthread.Barrier.Ops.{eq_bool}
use upthread.Barrier.System.{
  Pc, idle, arriving, resetting, toggling, signalling, spinning, stalling, parked, Thread, System,
}

abbrev pub odd : ℕ → Bool
odd zero = false
odd (suc n) = not (odd n)

-- The `id` of a thread that waits for the others.
abbrev pub id_of : Pc → Option ℕ
id_of (spinning w id k) = some id
id_of (stalling w id k) = some id
id_of (parked w id k) = some id
id_of _ = none

-- Arrived in this round, and not gone.
abbrev pub has_arrived : Pc → Bool
has_arrived (resetting w) = true
has_arrived (toggling w) = true
has_arrived (spinning w id k) = true
has_arrived (stalling w id k) = true
has_arrived (parked w id k) = true
has_arrived _ = false

abbrev pub here : ℕ → Thread → ℕ
here r t = bit (has_arrived t.pc && (t.passed == r))

-- Past the round before `r`, or free to leave it, when the signals below `k` are set.
abbrev pub may_leave : ℕ → Pc → Bool
may_leave k (spinning w id n) = ltb id k
may_leave k (stalling w id n) = ltb id k
may_leave k (parked w id n) = ltb id k
may_leave k _ = false

abbrev pub ahead : ℕ → ℕ → Thread → ℕ
ahead k r t = bit ((t.passed == r) || may_leave k t.pc)

abbrev pub parked_pc : Bool → Pc → Bool
parked_pc b (parked w id k) = eq_bool b w
parked_pc b _ = false

abbrev pub parked_in : Bool → Thread → ℕ
parked_in b t = bit (parked_pc b t.pc)

-- What the place of a thread says in the round `r` of `n` threads.
abbrev pub PlaceOk : ℕ → ℕ → Pc → ℕ → Type 0
PlaceOk n r idle p = p ≡ r
PlaceOk n r (arriving w) p = (p ≡ r) × (w ≡ odd p)
PlaceOk n r (resetting w) p = (p ≡ r) × (w ≡ odd p)
PlaceOk n r (toggling w) p = (p ≡ r) × (w ≡ odd p)
PlaceOk n r (signalling w k) p = (suc p ≡ r) × (w ≡ odd p) × (k ≤ n)
PlaceOk n r (spinning w id k) p = ((p ≡ r) ⊎ (suc p ≡ r)) × (w ≡ odd p) × (suc id < n)
PlaceOk n r (stalling w id k) p = ((p ≡ r) ⊎ (suc p ≡ r)) × (w ≡ odd p) × (suc id < n)
PlaceOk n r (parked w id k) p = ((p ≡ r) ⊎ (suc p ≡ r)) × (w ≡ odd p) × (suc id < n)

-- Where the last to arrive stands, if a round has one.
pub data Phase : Type 0 where
  gathering : Phase
  resets_phase : (t : ℕ) → Phase
  toggles_phase : (t : ℕ) → Phase
  signals_phase : (t k : ℕ) → Phase

pub data Role : Type 0 where
  member resetter toggler : Role
  signaller : (k : ℕ) → Role

abbrev pub role : Pc → Role
role (resetting w) = resetter
role (toggling w) = toggler
role (signalling w k) = signaller k
role _ = member

abbrev pub role_at : Phase → ℕ → Role
role_at gathering j = member
role_at (resets_phase t) j = if j == t then resetter else member
role_at (toggles_phase t) j = if j == t then toggler else member
role_at (signals_phase t k) j = if j == t then signaller k else member

-- The counter, the signals and the threads of the round before, in each phase.
abbrev pub PhaseOk : ℕ → Phase → System → Type 0
PhaseOk n gathering s =
    (s.barrier.arrived ≡ total (here s.opened) n s.thread)
    × (s.barrier.arrived < n)
    × ((j : ℕ) → j < n → s.barrier.signals j ≡ odd s.opened)
    × ((i : ℕ) (b : Bool) → parked_pc b (s.thread i).pc ≡ true → (s.thread i).passed ≡ s.opened)
PhaseOk n (resets_phase t) s =
    (t < n)
    × (total (here s.opened) n s.thread ≡ n)
    × ((j : ℕ) → j < n → s.barrier.signals j ≡ odd s.opened)
PhaseOk n (toggles_phase t) s =
    (t < n)
    × (total (here s.opened) n s.thread ≡ n)
    × ((j : ℕ) → j < n → s.barrier.signals j ≡ odd s.opened)
    × (s.barrier.arrived ≡ 0)
PhaseOk n (signals_phase t k) s =
    (t < n)
    × (s.barrier.arrived ≡ total (here s.opened) n s.thread)
    × (total (ahead k s.opened) n s.thread ≤ k)
    × ((j : ℕ)
        → j < n
        → s.barrier.signals j ≡ (if ltb j k then odd s.opened else not (odd s.opened)))

pub record Inv (n : ℕ) (ph : Phase) (s : System) : Type 0 where
  pub sized : s.barrier.size ≡ n
  pub places : (i : ℕ) → i < n → PlaceOk n s.opened (s.thread i).pc (s.thread i).passed
  pub beyond : (i : ℕ) → n ≤ i → ((s.thread i).pc ≡ idle) × ((s.thread i).passed ≡ 0)
  pub roles : (i : ℕ) → role (s.thread i).pc ≡ role_at ph i
  pub waiting : s.barrier.wait ≡ odd s.opened
  pub distinct :
      (i j id : ℕ)
      → id_of (s.thread i).pc ≡ some id
      → id_of (s.thread j).pc ≡ some id
      → (s.thread i).passed ≡ (s.thread j).passed
      → i ≡ j
  pub id_bound :
      (i id : ℕ)
      → id_of (s.thread i).pc ≡ some id
      → (s.thread i).passed ≡ s.opened
      → id < total (here s.opened) n s.thread
  pub queued : (t : ℕ) (b : Bool) → count t (s.barrier.blocked b).queue ≡ parked_in b (s.thread t)
  pub queue_length :
      (b : Bool) → length (s.barrier.blocked b).queue ≡ total (parked_in b) n s.thread
  pub room : (b : Bool) → (s.barrier.blocked b).maxlen ≡ n
  pub phase : PhaseOk n ph s
