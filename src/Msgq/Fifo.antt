-- ===== src/Msgq/Fifo.antt =====
-- The message queue of lib/ftm_msgq.c: its semaphore counts its messages, in every order of calls.
use catchb.Base.{
  ℕ, ◌+◌, ◌-◌, ◌^◌, ◌<◌, ◌≡◌, refl, false, some, none, List, [], ◌∷◌, ◌++◌, arith, length, ◌==◌,
  length-append,
}
use catchb.Run.{Run, done, blocked}
use catchb.Ret.{ok, timeout, not_enough_memory}
use catchb.FtmList.Shows.{Shows, IsFresh}
use catchb.FtmList.Insert.{append-null}
use catchb.Queue
use catchb.Queue.Fifo.{push-Shows, pop-Finds}
use catchb.Msgq.{Msgq, push, pop, timed_pop, take, hand_out, announce}

-- The queue holds these messages and the semaphore counts them.
pub record Holds (m : Msgq) (ys : List ℕ) : Type 0 where
  pub shows : Shows m.queue ys
  pub counts : m.lock ≡ length ys

-- A run that returns `r` and leaves a queue of these messages; nothing was freed.
abbrev pub Leaves {ℓ} : {A : Type ℓ} → Run (A × Msgq) → Msgq → A → List ℕ → Type ℓ
Leaves run m r ys = (m' : Msgq) × (run ≡ done (r, m')) × Holds m' ys × (m'.freed ≡ m.freed)

-- `push` puts the message behind the others and posts the semaphore.
pub push-Holds :
    (m : Msgq) (e msg : ℕ) (ys : List ℕ)
    → Holds m ys
    → IsFresh m.queue e
    → length ys + 1 < 2 ^ 32
    → Leaves (push (some e) m msg) m ok (ys ++ msg ∷ [])
unfolding push announce
push-Holds m e msg ys h fresh small =
    let (q, e', s) = push-Shows m.queue e msg ys h.shows fresh small in
    (
      record m { queue = q; lock = m.lock + 1 },
      rw e',
      record { shows = s; counts = omega (arith, h.counts, length-append ys (msg ∷ [])) },
      refl,
    )

-- Without memory `push` leaves the messages and the semaphore as they are.
pub push-null :
    (m : Msgq) (msg : ℕ) (ys : List ℕ)
    → Holds m ys
    → Leaves (push none m msg) m not_enough_memory ys
unfolding push announce Queue.push
push-null m msg ys h =
    let (q, e', s) = append-null m.queue msg ys h.shows in
    (record m { queue = q }, rw e', record { shows = s; counts = h.counts }, refl)

take-Holds :
    (m : Msgq) (y : ℕ) (ys : List ℕ)
    → Shows m.queue (y ∷ ys)
    → m.lock ≡ length ys
    → Leaves (take m) m (ok, some y) ys
unfolding take hand_out
take-Holds m y ys s c =
    let (q, e', s') = pop-Finds m.queue (y ∷ ys) s in
    (record m { queue = q }, rw e', record { shows = s'; counts = c }, refl)

-- On a message queue that holds messages which its semaphore counts, pop and timedPop alike
-- return OK and the oldest message, and leave the others, the semaphore counting them; nothing
-- is freed.
pub pops-Holds :
    (m : Msgq) (y : ℕ) (ys : List ℕ)
    → Holds m (y ∷ ys)
    → Leaves (pop m) m (ok, some y) ys × Leaves (timed_pop m) m (ok, some y) ys
unfolding pop timed_pop
pops-Holds m y ys h =
    let m' = record m { lock = m.lock - 1 } in
    let (m'', e, k, f) = take-Holds m' y ys h.shows (omega (arith, h.counts)) in
    let some_left : (m.lock == 0) ≡ false = ground (arith, h.counts) in
    ((m'', rw some_left e, k, f), (m'', rw some_left e, k, f))

-- On an empty message queue pop blocks, and timedPop, if nobody posts in time, returns TIMEOUT
-- and changes nothing.
pub pops_empty :
    (m : Msgq) → Holds m [] → (pop m ≡ blocked) × (timed_pop m ≡ done ((timeout, none), m))
unfolding pop timed_pop
pops_empty m h = (ground (arith, h.counts), ground (arith, h.counts))
