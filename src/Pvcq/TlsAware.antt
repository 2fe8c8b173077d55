-- ===== src/Pvcq/TlsAware.antt =====
-- src/pvcq/upthread.c, lines 115-154: `get_next_queue_id_tls_aware`, the other choice of a queue for a
-- new thread, and the numbers that both choices give.
use upthread.Base.{
  ℕ, zero, suc, ◌+◌, ◌/◌, ◌%◌, ◌<◌, ◌≡◌, sym, subst, inl, inr, Bool, true, false, ◌&&◌, not, List,
  arith, ◌==◌, if◌then◌else◌, Bool-cases, ℤ, pos, incr, lt_int,
}
use upthread.Pvcq.State.{Pvcq, get_next_queue_id_basic}
use upthread.Pvcq.Placing.{Bounded, next_queue_id-lt}

-- The static variables of the function: the least queue, and the least one without a collision.
pub record Choice : Type 0 where
  pub sid : ℕ
  pub cid : ℕ

-- The sizes of the queues that a round reads: those of `i`, `cid`, `sid` and `j`. Other vcores may
-- change the queues in between.
pub record Sizes : Type 0 where
  pub of_i : ℤ
  pub of_cid : ℤ
  pub of_sid : ℤ
  pub of_j : ℤ

-- What does not change while the function runs: the caller's vcore, `max_vcores()`, `nr_vcores`, the
-- address `tls_desc` of the thread, and the addresses `vcore_tls_descs`, which are below 2^63 as a
-- `long` is.
pub record Setting : Type 0 where
  pub vcoreid : ℕ
  pub max_vcores : ℕ
  pub nr_vcores : ℤ
  pub tls_desc : ℕ
  pub vcore_tls_descs : ℕ → ℕ

abbrev pub l1cachesize : ℕ
l1cachesize = 32768

if-lt : {x y : ℕ} (n : ℕ) (b : Bool) → x < n → y < n → (if b then x else y) < n
if-lt n true hx hy = hx
if-lt n false hx hy = hy

less_of_two-lt :
    {i j best : ℕ} (n : ℕ) (a b : Bool)
    → i < n
    → j < n
    → best < n
    → (if a then i else if b then j else best) < n
less_of_two-lt n a b hi hj hb = if-lt n a hi (if-lt n b hj hb)

module _ (c : Setting) where
  abbrev pub hvc : ℕ
  hvc = c.max_vcores / 2

  -- `i != vcoreid ? tqsize(i) : tqsize(i) + 1`
  abbrev pub with_self : ℕ → ℤ → ℤ
  with_self i n = if i == c.vcoreid then incr n else n

  -- `utls != pvtls`, and the same for `svtls`
  abbrev pub is_apart : ℕ → Bool
  is_apart i = not (c.tls_desc % l1cachesize == c.vcore_tls_descs i % l1cachesize)

  -- `if (tqsizei < best) best = i; else if (tqsizej < best) best = j;`
  abbrev pub less_of_two : ℕ → ℕ → ℤ → ℤ → ℤ → ℕ → ℕ
  less_of_two i j ni nj nbest best =
      if lt_int ni nbest then i else if lt_int nj nbest then j else best

  abbrev pub less_of : ℕ → ℤ → ℤ → ℕ → ℕ
  less_of i ni nbest best = if lt_int ni nbest then i else best

  -- A round where `j` is a queue, and one where it is not.
  abbrev pub round_two : ℕ → Sizes → Choice → Choice
  round_two i z s =
      let j = i + hvc in
      let ni = with_self i z.of_i in
      let nj = with_self j z.of_j in
      record {
        cid =
            if is_apart i && is_apart j
            then less_of_two i j ni nj (with_self s.cid z.of_cid) s.cid
            else s.cid;
        sid = less_of_two i j ni nj (with_self s.sid z.of_sid) s.sid;
      }

  abbrev pub round_one : ℕ → Sizes → Choice → Choice
  round_one i z s =
      let ni = with_self i z.of_i in
      record {
        cid = if is_apart i then less_of i ni (with_self s.cid z.of_cid) s.cid else s.cid;
        sid = less_of i ni (with_self s.sid z.of_sid) s.sid;
      }

  abbrev pub round : ℕ → Sizes → Choice → Choice
  round i z s = if lt_int (pos (i + hvc)) c.nr_vcores then round_two i z s else round_one i z s

  -- The loop, with the rounds left before `i` is `hvc`.
  unfoldable pub rounds : ℕ → (ℕ → Sizes) → ℕ → Choice → Choice
  rounds zero read i s = s
  rounds (suc fuel) read i s =
      let more = rounds fuel read (suc i) (round i (read i) s) in
      if lt_int (pos i) c.nr_vcores then more else s

  -- `get_next_queue_id_tls_aware`, with what each round and the last test read.
  unfoldable pub get_next_queue_id_tls_aware : (ℕ → Sizes) → Sizes → Choice → ℕ × Choice
  unfolding rounds
  get_next_queue_id_tls_aware read last s =
      let s' = rounds hvc read 0 s in
      (if lt_int last.of_sid last.of_cid then s'.sid else s'.cid, s')

  queue_number : (n i : ℕ) → c.nr_vcores ≡ pos n → lt_int (pos i) c.nr_vcores ≡ true → i < n
  queue_number n i e h = ground arith

  -- Both static variables are numbers of queues.
  abbrev pub IsChoice : ℕ → Choice → Type 0
  IsChoice n s = (s.sid < n) × (s.cid < n)

  round_two-IsChoice :
      (n i : ℕ) (z : Sizes) (s : Choice)
      → i < n
      → i + hvc < n
      → IsChoice n s
      → IsChoice n (round_two i z s)
  round_two-IsChoice n i z s hi hj (hs, hc) =
      (less_of_two-lt n _ _ hi hj hs, if-lt n _ (less_of_two-lt n _ _ hi hj hc) hc)

  round_one-IsChoice :
      (n i : ℕ) (z : Sizes) (s : Choice) → i < n → IsChoice n s → IsChoice n (round_one i z s)
  round_one-IsChoice n i z s hi (hs, hc) = (if-lt n _ hi hs, if-lt n _ (if-lt n _ hi hc) hc)

  round-IsChoice :
      (n i : ℕ) (z : Sizes) (s : Choice)
      → c.nr_vcores ≡ pos n
      → i < n
      → IsChoice n s
      → IsChoice n (round i z s)
  round-IsChoice n i z s e hi h = elim (Bool-cases (lt_int (pos (i + hvc)) c.nr_vcores)) [
    | inl two ↦
        subst (λ x. IsChoice n (if x then round_two i z s else round_one i z s)) (sym two)
          (round_two-IsChoice n i z s hi (queue_number n _ e two) h)
    | inr one ↦
        subst (λ x. IsChoice n (if x then round_two i z s else round_one i z s)) (sym one)
          (round_one-IsChoice n i z s hi h)
  ]

  rounds-IsChoice :
      (n fuel : ℕ) (read : ℕ → Sizes) (i : ℕ) (s : Choice)
      → c.nr_vcores ≡ pos n
      → IsChoice n s
      → IsChoice n (rounds fuel read i s)
  unfolding rounds
  rounds-IsChoice n zero read i s e h = h
  rounds-IsChoice n (suc fuel) read i s e h = elim (Bool-cases (lt_int (pos i) c.nr_vcores)) [
    | inl more ↦
        rw (more, rounds)
          (rounds-IsChoice n fuel read (suc i) (round i (read i) s) e
            (round-IsChoice n i (read i) s e (queue_number n i e more) h))
    | inr over ↦ rw (over, rounds) h
  ]

  -- Where there are `n` queues, both choices of a queue for a new thread give one of them and leave
  -- their variables there, if these were there before and the other vcores keep the counter of
  -- `get_next_queue_id_basic` there; whatever the sizes of the queues and the addresses are.
  pub next_queue_ids-lt :
      (n : ℕ) (read : ℕ → Sizes) (last : Sizes) (s : Choice)
      → (others : List (ℕ → ℕ)) (b : Pvcq) → c.nr_vcores ≡ pos n
      → b.nr_vcores ≡ pos n
      → IsChoice n s
      → b.next_queue_id < n
      → Bounded n others
      → (let (id, s') = get_next_queue_id_tls_aware read last s in (id < n) × IsChoice n s')
        × (let (id, b') = get_next_queue_id_basic others b in
            (id < n) × (b'.next_queue_id < n) × (b'.nr_vcores ≡ pos n))
  unfolding get_next_queue_id_tls_aware
  next_queue_ids-lt n read last s others b e eb h hb keep =
      let k = rounds-IsChoice n hvc read 0 s e h in
      ((ground (arith, k.0, k.1), k), next_queue_id-lt n others b eb hb keep)
