-- ===== src/Statistics/Split.antt =====
-- The statistics list of lib/ftm_catchb.c split at a position: look-up and removal there.
use mathlib.Core.List.{append_assoc}
use catchb.Base.{ℕ, ◌≡◌, refl, ap, ◌∙◌, true, false, List, [], ◌∷◌, ◌++◌, map, length, drop, take}
use catchb.Run.{done}
use catchb.Ret.{ok}
use catchb.FtmList.{FtmList, update}
use catchb.FtmList.Access.{get_at, remove_at}
use catchb.FtmList.Links.{AllDistinct}
use catchb.FtmList.Walk.{AllLive}
use catchb.FtmList.Shows.{Shows, AllLive-update, AllLive-append, AllLive-join}
use catchb.FtmList.Remove.{remove_at-Shows, not-mem_apart, AllDistinct-remove}
use catchb.FtmList.Read.{first_of, get_at-Finds}
use catchb.Statistics.{Stat, Statistics, free, read_stat}
use catchb.Statistics.Holds.{HoldsAt, take-length, drop-length, AllLive-last}

-- The list is split at a position: the blocks before it and the others.
pub record Split (s : Statistics) (ps qs : List ℕ) : Type 0 where
  pub shows : Shows s.list (ps ++ qs)
  pub alive : AllLive s.live (ps ++ qs)
  pub distinct : AllDistinct (ps ++ qs)

pub Split-HoldsAt :
    (s : Statistics) (ps qs : List ℕ) → Split s ps qs → HoldsAt s (map s.stat ps) (map s.stat qs)
Split-HoldsAt s ps qs h = record {
  earlier = ps;
  later = qs;
  shows = h.shows;
  alive = h.alive;
  distinct = h.distinct;
  earlier_records = refl;
  later_records = refl;
}

pub HoldsAt-Split :
    (s : Statistics) (us vs : List Stat) (h : HoldsAt s us vs) → Split s h.earlier h.later
HoldsAt-Split s us vs h = record { shows = h.shows; alive = h.alive; distinct = h.distinct }

module _ (s : Statistics) (ps : List ℕ) where
  pub get_at-Split :
      (qs : List ℕ)
      → Split s ps qs
      → (l : FtmList) × (get_at s.list (length ps) ≡ done (first_of qs, l))
        × Split (record s { list = l }) ps qs
  get_at-Split qs h =
      let (l, e, k) = get_at-Finds s.list (length ps) (ps ++ qs) h.shows in
      (
        l,
        e ∙ ap (λ d. done (first_of d, l)) (drop-length ps qs),
        record { shows = k; alive = h.alive; distinct = h.distinct },
      )

  pub remove_at-Split :
      (q : ℕ) (qs : List ℕ)
      → Split s ps (q ∷ qs)
      → (l : FtmList) × (remove_at s.list (length ps) ≡ done (ok, l))
        × (free (record s { list = l }) q
            ≡ done (record s { list = l; live = update s.live q false }))
        × Split (record s { list = l; live = update s.live q false }) ps qs
  unfolding free
  remove_at-Split q qs h =
      let (l, e, k) = remove_at-Shows s.list (length ps) (ps ++ q ∷ qs) h.shows in
      let before : take (length ps) (ps ++ q ∷ qs) ≡ ps = take-length ps (q ∷ qs) in
      let after : drop (length ps) (ps ++ q ∷ qs) ≡ q ∷ qs = drop-length ps (q ∷ qs) in
      let in_use : s.live q ≡ true = AllLive-last s.live ps q qs h.alive in
      let (left, right) = AllLive-append s.live ps (q ∷ qs) h.alive in
      (
        l,
        rw (before, after) at e,
        rw in_use,
        record {
          shows = rw (before, after) at k;
          alive =
              AllLive-update s.live q false (ps ++ qs) (not-mem_apart q ps qs h.distinct)
                (AllLive-join s.live ps qs left right.1);
          distinct = AllDistinct-remove q ps qs h.distinct;
        },
      )

pub read_stat-live :
    (s : Statistics) (ps : List ℕ) (q : ℕ) (qs : List ℕ)
    → Split s ps (q ∷ qs)
    → read_stat s q ≡ done (s.stat q)
unfolding read_stat
read_stat-live s ps q qs h =
    let in_use : s.live q ≡ true = AllLive-last s.live ps q qs h.alive in rw in_use

-- The position one further on.
pub Split-next :
    (s : Statistics) (ps : List ℕ) (q : ℕ) (qs : List ℕ)
    → Split s ps (q ∷ qs)
    → Split s (ps ++ q ∷ []) qs
Split-next s ps q qs h = record {
  shows = rw (append_assoc ps (q ∷ []) qs) h.shows;
  alive = rw (append_assoc ps (q ∷ []) qs) h.alive;
  distinct = rw (append_assoc ps (q ∷ []) qs) h.distinct;
}
