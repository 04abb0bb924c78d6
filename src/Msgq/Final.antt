-- ===== src/Msgq/Final.antt =====
-- The start and the end of a message queue of lib/ftm_msgq.c.
use mathlib.Core.List.{append_assoc, append-nil}
use catchb.Base.{
  ℕ, zero, suc, ◌+◌, ◌<◌, ◌≡◌, refl, sym, ap, ◌∙◌, false, List, [], ◌∷◌, ◌++◌, arith, length,
  length-map,
}
use catchb.Run.{done}
use catchb.Ret.{ok}
use catchb.FtmList.Shows.{IsList, Shows}
use catchb.FtmList.Final.{init-Shows, final_frees}
use catchb.Queue
use catchb.Queue.{Queue}
use catchb.Queue.Fifo.{pop-Finds}
use catchb.Msgq.{Msgq, init, final, drain, zeroed}
use catchb.Msgq.Fifo.{Holds}

-- `init` gives an empty queue whose semaphore counts no message, if the list's semaphore can be set up.
init-Holds : let (r, m) = init false in (r ≡ ok) × Holds m []
unfolding init Queue.init
init-Holds = (refl, record { shows = (init-Shows zeroed).1; counts = refl })

drain_all :
    (n : ℕ) (m : Msgq) (ys : List ℕ)
    → Shows m.queue ys
    → length ys < n
    → (m' : Msgq) × (drain n m ≡ done m') × Shows m'.queue [] × (m'.freed ≡ m.freed ++ ys)
unfolding drain
drain_all zero m ys s enough = elim enough [ ]
drain_all (suc n) m [] s enough =
    let (q, e, s') = pop-Finds m.queue [] s in
    (record m { queue = q }, rw e, s', sym (append-nil m.freed))
drain_all (suc n) m (y ∷ ys) s enough =
    let (q, e, s') = pop-Finds m.queue (y ∷ ys) s in
    let (m', e', s'', f) =
      drain_all n (record m { queue = q; freed = m.freed ++ y ∷ [] }) ys s' (omega arith) in
    (m', rw e e', s'', f ∙ append_assoc m.freed (y ∷ []) ys)

-- On a message queue that holds messages which its semaphore counts, final comes to an end,
-- returns OK, frees the messages that are still there, each once and in order, and leaves a
-- well-formed empty list.
final_frees_messages :
    (m : Msgq) (ys : List ℕ)
    → Holds m ys
    → (m' : Msgq) × (final m ≡ done (ok, m')) × IsList m'.queue [] × (m'.freed ≡ m.freed ++ ys)
unfolding final Queue.final
final_frees_messages m ys h =
    let s = h.shows in
    let (m', e, s', f) =
      drain_all (m.queue.count + 1) m ys s
        (omega (arith, s.is_list.counted, length-map m.queue.item s.entries, ap length s.items)) in
    let (q, e', k, _) = final_frees m'.queue s'.entries s'.is_list in
    (record m' { queue = q }, rw e (rw e'), k, f)
