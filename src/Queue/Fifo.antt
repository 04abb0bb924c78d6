-- ===== src/Queue/Fifo.antt =====
-- The queue of lib/ftm_queue.c against sequences of items: first in, first out.
use catchb.Base.{
  ℕ, ◌+◌, ◌^◌, ◌<◌, ◌≡◌, true, some, none, List, [], ◌∷◌, ◌++◌, arith, length, ◌==◌, ap, length-map,
}
use catchb.Ret.{ok, object_not_found}
use catchb.FtmList.Access.{Found, remove}
use catchb.FtmList.Shows.{Shows, IsFresh}
use catchb.FtmList.Insert.{Returns, append-Shows}
use catchb.FtmList.Remove.{remove-Shows}
use catchb.FtmList.Read.{Finds, get_at-Finds}
use catchb.Queue.{Queue, push, pop, count, take_found}

-- `push` puts the item behind the others.
pub push-Shows :
    (q : Queue) (e v : ℕ) (ys : List ℕ)
    → Shows q ys
    → IsFresh q e
    → length ys + 1 < 2 ^ 32
    → Returns (push (some e) q v) ok (ys ++ v ∷ [])
unfolding push
push-Shows q e v ys s fresh small = append-Shows q e v ys s fresh small

-- What `pop` hands out and what it leaves.
abbrev popped : List ℕ → Found × List ℕ
popped [] = ((object_not_found, none), [])
popped (v ∷ vs) = ((ok, some v), vs)

removes_first : (q : Queue) (v : ℕ) (vs : List ℕ) → Shows q (v ∷ vs) → Returns (remove q v) ok vs
removes_first q v vs s =
    let same : (v == v) ≡ true = ground arith in
    let (q', e, k) = remove-Shows q v (v ∷ vs) s in (q', ground (arith, e), ground (arith, k))

-- On a well-formed queue that nobody has locked, pop returns OK and the oldest item and leaves
-- the others, or returns OBJECT_NOT_FOUND if the queue is empty; the queue stays well-formed
-- and unlocked.
pub pop-Finds :
    (q : Queue) (ys : List ℕ) → Shows q ys → let (r, zs) = popped ys in Finds (pop q) r zs
unfolding pop take_found
pop-Finds q [] s = let (q', e, s') = get_at-Finds q 0 [] s in (q', rw e, s')
pop-Finds q (v ∷ vs) s =
    let (q', e, s') = get_at-Finds q 0 (v ∷ vs) s in
    let (q'', e', s'') = removes_first q' v vs s' in (q'', rw e (rw e'), s'')

-- `count` is the length.
count-Shows : (q : Queue) (ys : List ℕ) → Shows q ys → count q ≡ (ok, length ys)
unfolding count
count-Shows q ys s =
    ap (λ n. (ok, n))
      (omega (arith, s.is_list.counted, length-map q.item s.entries, ap length s.items))
