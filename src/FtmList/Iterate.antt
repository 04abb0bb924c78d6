-- ===== src/FtmList/Iterate.antt =====
-- The iterator of lib/ftm_list.c, and the loop `while (iteratorNext(...) == OK)` of its callers.
use mathlib.Core.List.{append-nil, append_assoc}
use catchb.Base.{
  ℕ, zero, suc, ◌<◌, ◌≡◌, refl, sym, Bool, true, false, none, some, List, [], ◌∷◌, ◌++◌, map, arith,
  length, ap, ◌∙◌, ◌==◌, ◌||◌,
}
use catchb.Run.{Run, done, out_of_fuel, ◌>>=◌}
use catchb.Ret.{ok, object_not_found}
use catchb.FtmList.{FtmList, head, post}
use catchb.FtmList.Access.{found, iterator_start, iterator_next}
use catchb.FtmList.Links.{before, first, next-before, has-append}
use catchb.FtmList.Walk.{AllLive}
use catchb.FtmList.Shows.{IsList, Shows, AllLive-append, IsList-other, taken, wait-taken}
use catchb.FtmList.Read.{live-before}

-- The iterator has handed out the items `ys`, and `zs` are to come.
pub record Iterates (l : FtmList) (ys zs : List ℕ) : Type 0 where
  pub us : List ℕ
  pub vs : List ℕ
  pub is_list : IsList l (us ++ vs)
  pub past : map l.item us ≡ ys
  pub ahead : map l.item vs ≡ zs
  pub open_lock : l.lock ≡ 1
  pub started : l.iterator ≡ true
  pub at : l.iter ≡ before head us

map_append : (f : ℕ → ℕ) (us vs : List ℕ) → map f (us ++ vs) ≡ map f us ++ map f vs
map_append f [] vs = refl
map_append f (x ∷ us) vs = ap (◌∷◌ (f x)) (map_append f us vs)

-- A loop that stops half-way leaves the list whole.
pub Iterates-Shows : (l : FtmList) (ys zs : List ℕ) → Iterates l ys zs → Shows l (ys ++ zs)
Iterates-Shows l ys zs t = record {
  entries = t.us ++ t.vs;
  is_list = t.is_list;
  items =
      map_append l.item t.us t.vs ∙ ap (λ k. k ++ map l.item t.vs) t.past ∙ ap (◌++◌ ys) t.ahead;
  open_lock = t.open_lock;
}

pub iterator_start-Iterates :
    (l : FtmList) (ys : List ℕ)
    → Shows l ys
    → (l' : FtmList) × (iterator_start l ≡ done (ok, l')) × Iterates l' [] ys
unfolding iterator_start
iterator_start-Iterates l ys s = (
  post (record (taken l) { iterator = true; iter = head }),
  rw (wait-taken l s.open_lock),
  record {
    us = [];
    vs = s.entries;
    is_list = IsList-other true head 1 s.is_list;
    past = refl;
    ahead = s.items;
    open_lock = omega arith;
    started = refl;
    at = refl;
  },
)

-- The entry that the iterator stands on may be read.
readable :
    (live : ℕ → Bool) (us : List ℕ)
    → AllLive live us
    → (before head us == head || live (before head us)) ≡ true
readable live [] a = refl
readable live (u ∷ us) a = ground (arith, live-before live u us a.0 a.1)

before-append : (a u : ℕ) (us : List ℕ) → before a (us ++ u ∷ []) ≡ u
before-append a u [] = refl
before-append a u (x ∷ us) = before-append x u us

step :
    (l : FtmList) (us vs : List ℕ)
    → IsList l (us ++ vs)
    → l.lock ≡ 1
    → l.iterator ≡ true
    → l.iter ≡ before head us
    → iterator_next l
      ≡ done (found (taken l) (first vs head), post (record (taken l) { iter = first vs head }))
unfolding iterator_next
step l us vs h free started e =
    let live = AllLive-append l.live us vs h.alive in
    let next : l.next (before head us) ≡ first vs head =
      next-before l.next l.prev head head us vs h.chain in
    ground (arith, wait-taken l free, readable l.live us live.0, next)

-- `iteratorNext` hands out the next item and says when there is none.
pub iterator_next-Iterates :
    (l : FtmList) (ys : List ℕ) (z : ℕ) (zs : List ℕ)
    → Iterates l ys (z ∷ zs)
    → (l' : FtmList) × (iterator_next l ≡ done ((ok, some z), l')) × Iterates l' (ys ++ z ∷ []) zs
iterator_next-Iterates l ys z zs t = go t.vs t.is_list t.ahead
  where
    go :
        (vs : List ℕ)
        → IsList l (t.us ++ vs)
        → map l.item vs ≡ z ∷ zs
        → (l' : FtmList) × (iterator_next l ≡ done ((ok, some z), l'))
          × Iterates l' (ys ++ z ∷ []) zs
    go [] h e = cc
    go (v ∷ vs) h e =
        let h' : IsList l ((t.us ++ v ∷ []) ++ vs) = rw append_assoc h in
        let other : (v == head) ≡ false = ground (arith, has-append head t.us (v ∷ vs)) in
        (
          post (record (taken l) { iter = v }),
          step l t.us (v ∷ vs) h t.open_lock t.started t.at ∙ ground (arith, other, e),
          record {
            us = t.us ++ v ∷ [];
            vs = vs;
            is_list = IsList-other l.iterator v 1 h';
            past = ground (arith, map_append l.item t.us (v ∷ []), t.past, e);
            ahead = cc e;
            open_lock = omega arith;
            started = t.started;
            at = sym (before-append head v t.us);
          },
        )

-- At the end it goes back to the head, and the list is whole.
pub iterator_next_end :
    (l : FtmList) (ys : List ℕ)
    → Iterates l ys []
    → (l' : FtmList) × (iterator_next l ≡ done ((object_not_found, none), l')) × Shows l' ys
iterator_next_end l ys t = go t.vs t.is_list t.ahead
  where
    go :
        (vs : List ℕ)
        → IsList l (t.us ++ vs)
        → map l.item vs ≡ []
        → (l' : FtmList) × (iterator_next l ≡ done ((object_not_found, none), l')) × Shows l' ys
    go (v ∷ vs) h e = cc
    go [] h e =
        let h' : IsList l t.us = rw append-nil at h in
        (
          post (record (taken l) { iter = head }),
          step l t.us [] h t.open_lock t.started t.at,
          record {
            entries = t.us;
            is_list = IsList-other l.iterator head 1 h';
            items = t.past;
            open_lock = omega arith;
          },
        )

-- What a caller's loop sees, in order.
collect : ℕ → FtmList → Run (List ℕ × FtmList)
collect zero l = out_of_fuel
collect (suc n) l = do
  (r, l') ← iterator_next l
  elim r.1 [ none ↦ done ([], l') | some v ↦ do (vs, l'') ← collect n l'; done (v ∷ vs, l'') ]

collect-Iterates :
    (n : ℕ) (l : FtmList) (ys zs : List ℕ)
    → Iterates l ys zs
    → length zs < n
    → (l' : FtmList) × (collect n l ≡ done (zs, l')) × Shows l' (ys ++ zs)
unfolding collect
collect-Iterates zero l ys zs t h = elim h [ ]
collect-Iterates (suc n) l ys [] t h =
    let (l', e, k) = iterator_next_end l ys t in (l', rw e, rw append-nil k)
collect-Iterates (suc n) l ys (z ∷ zs) t h =
    let (l', e, k) = iterator_next-Iterates l ys z zs t in
    let (l'', e', k') = collect-Iterates n l' (ys ++ z ∷ []) zs k (omega arith) in
    (l'', rw (e, e'), rw append_assoc at k')

-- On a well-formed list that nobody has locked, a loop of iteratorNext after iteratorStart sees
-- every item once, in order, ends within one round more than there are items, and leaves the
-- list with the same items, well-formed and unlocked.
iterate_all :
    (n : ℕ) (l : FtmList) (ys : List ℕ)
    → Shows l ys
    → length ys < n
    → (l' l'' : FtmList) × (iterator_start l ≡ done (ok, l'))
      × (collect n l' ≡ done (ys, l''))
      × Shows l'' ys
iterate_all n l ys s h =
    let (l', e, t) = iterator_start-Iterates l ys s in
    let (l'', e', k) = collect-Iterates n l' [] ys t h in (l', l'', e, e', k)
