-- ===== src/Msgq/Trace.antt =====
-- The message queue of lib/ftm_msgq.c under any sequence of calls by its threads.
use mathlib.Core.List.{append_assoc, append-nil}
use mathlib.Core.Path.{subst}
use catchb.Base.{
  ℕ, ◌+◌, ◌^◌, ◌<◌, ◌≡◌, refl, sym, ap, ◌∙◌, Option, some, none, List, [], ◌∷◌, ◌++◌, arith, length,
  length-map,
}
use catchb.Run.{Run, done, done-injective}
use catchb.Ret.{Ret, ok}
use catchb.FtmList.Shows.{IsFresh}
use catchb.Msgq.{Msgq, push, pop, timed_pop, listed}
use catchb.Msgq.Fifo.{Holds, push-Holds, push-null, pops-Holds, pops_empty}

-- What a `push` with this result put into the queue.
abbrev accepted : Ret → ℕ → List ℕ
accepted ok msg = msg ∷ []
accepted _ msg = []

-- `malloc` gives no entry, or a fresh one.
abbrev MayReturn : Msgq → Option ℕ → Type 0
MayReturn m none = Unit {0}
MayReturn m (some e) = IsFresh m.queue e

-- The calls that ended, one after another: the messages that went in and those that came out.
pub data Calls (m : Msgq) : List ℕ → List ℕ → Msgq → Type 0 where
  start : Calls m [] [] m
  pushed :
      {ins outs : List ℕ} {m1 m2 : Msgq} {r : Ret} (entry : Option ℕ) (msg : ℕ)
      → Calls m ins outs m1
      → MayReturn m1 entry
      → m1.queue.count + 1 < 2 ^ 32
      → push entry m1 msg ≡ done (r, m2)
      → Calls m (ins ++ accepted r msg) outs m2
  popped :
      {ins outs : List ℕ} {m1 m2 : Msgq} {r : Ret} {v : Option ℕ}
      → Calls m ins outs m1
      → pop m1 ≡ done ((r, v), m2)
      → Calls m ins (outs ++ listed v) m2
  timed :
      {ins outs : List ℕ} {m1 m2 : Msgq} {r : Ret} {v : Option ℕ}
      → Calls m ins outs m1
      → timed_pop m1 ≡ done ((r, v), m2)
      → Calls m ins (outs ++ listed v) m2

-- What is still in the queue after the calls.
abbrev pub Waits : List ℕ → List ℕ → Msgq → Type 0
Waits ins outs m = (ys : List ℕ) × Holds m ys × (ins ≡ outs ++ ys)

size : (m : Msgq) (ys : List ℕ) → Holds m ys → m.queue.count ≡ length ys
size m ys h =
    let s = h.shows in
    omega (arith, s.is_list.counted, length-map m.queue.item s.entries, ap length s.items)

-- A claim on the result of a run holds of whatever the run returned.
returned {ℓ} :
    {A : Type ℓ} (P : A → Type 0) (run : Run A) {a b : A} → run ≡ done a → run ≡ done b → P a → P b
returned P run e e' p = subst P (done-injective (sym e ∙ e')) p

after_push :
    (m1 m2 : Msgq) (ins outs : List ℕ) (entry : Option ℕ) (msg : ℕ) (r : Ret)
    → Waits ins outs m1
    → MayReturn m1 entry
    → m1.queue.count + 1 < 2 ^ 32
    → push entry m1 msg ≡ done (r, m2)
    → Waits (ins ++ accepted r msg) outs m2
after_push m1 m2 ins outs none msg r (ys, h, e) fresh small run =
    let (m', e', k, _) = push-null m1 msg ys h in
    returned (λ (s, m). Waits (ins ++ accepted s msg) outs m) (push none m1 msg) e' run
      (ys, k, append-nil ins ∙ e)
after_push m1 m2 ins outs (some x) msg r (ys, h, e) fresh small run =
    let (m', e', k, _) = push-Holds m1 x msg ys h fresh (omega (arith, size m1 ys h)) in
    returned (λ (s, m). Waits (ins ++ accepted s msg) outs m) (push (some x) m1 msg) e' run
      (ys ++ msg ∷ [], k, rw e (append_assoc outs ys (msg ∷ [])))

after_pop :
    (m1 m2 : Msgq) (ins outs : List ℕ) (r : Ret) (v : Option ℕ)
    → Waits ins outs m1
    → pop m1 ≡ done ((r, v), m2)
    → Waits ins (outs ++ listed v) m2
after_pop m1 m2 ins outs r v ([], h, e) run = let stuck = (pops_empty m1 h).0 in cc
after_pop m1 m2 ins outs r v (y ∷ ys, h, e) run =
    let ((m', e', k, _), _) = pops-Holds m1 y ys h in
    returned (λ (f, m). Waits ins (outs ++ listed f.1) m) (pop m1) e' run
      (ys, k, e ∙ sym (append_assoc outs (y ∷ []) ys))

after_timed_pop :
    (m1 m2 : Msgq) (ins outs : List ℕ) (r : Ret) (v : Option ℕ)
    → Waits ins outs m1
    → timed_pop m1 ≡ done ((r, v), m2)
    → Waits ins (outs ++ listed v) m2
after_timed_pop m1 m2 ins outs r v ([], h, e) run =
    returned (λ (f, m). Waits ins (outs ++ listed f.1) m) (timed_pop m1) (pops_empty m1 h).1 run
      ([], h, rw append-nil e)
after_timed_pop m1 m2 ins outs r v (y ∷ ys, h, e) run =
    let (_, (m', e', k, _)) = pops-Holds m1 y ys h in
    returned (λ (f, m). Waits ins (outs ++ listed f.1) m) (timed_pop m1) e' run
      (ys, k, e ∙ sym (append_assoc outs (y ∷ []) ys))

-- After any sequence of ended calls of push, pop and timedPop on a message queue that was
-- empty, in which malloc gave no entry or a fresh one and the count had room, calls that failed
-- or timed out included, the messages that went in are those that came out, in order, followed
-- by those that the queue still holds and its semaphore counts.
pub calls-Waits :
    (m m' : Msgq) (ins outs : List ℕ) → Holds m [] → Calls m ins outs m' → Waits ins outs m'
calls-Waits m m' ins outs h start = ([], h, refl)
calls-Waits m m' ins outs h (pushed entry msg c fresh small run) =
    after_push _ m' _ outs entry msg _ (calls-Waits m _ _ outs h c) fresh small run
calls-Waits m m' ins outs h (popped c run) =
    after_pop _ m' ins _ _ _ (calls-Waits m _ ins _ h c) run
calls-Waits m m' ins outs h (timed c run) =
    after_timed_pop _ m' ins _ _ _ (calls-Waits m _ ins _ h c) run
