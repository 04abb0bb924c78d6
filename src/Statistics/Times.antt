-- ===== src/Statistics/Times.antt =====
-- `FTM_CATCHB_delStatistics2` of lib/ftm_catchb.c against sequences of records.
use mathlib.Core.List.{append_assoc}
use catchb.Base.{
  ℕ, zero, suc, ◌+◌, ◌≤◌, ◌≡◌, refl, ◌∙◌, true, false, ◌||◌, if◌then◌else◌, Bool, Bool-cases, inl,
  inr, List, [], ◌∷◌, ◌++◌, map, arith, length, length-append, ltb, leb,
}
use catchb.Run.{done}
use catchb.Ret.{ok}
use catchb.FtmList.{update}
use catchb.FtmList.Access
use catchb.FtmList.Access.{get_at, remove_at}
use catchb.Statistics.{Stat, Statistics, read_stat, del_times, del_statistics2}
use catchb.Statistics.Holds.{Holds, HoldsAt-Holds, count-Shows, map-append}
use catchb.Statistics.Split.{
  Split, Split-HoldsAt, Split-next, get_at-Split, remove_at-Split, read_stat-live,
}

-- What the loop over the times leaves of a sequence of records.
abbrev remaining : (first last : ℕ) → List Stat → List Stat
remaining first last [] = []
remaining first last (v ∷ vs) =
    if ltb v.sec first
    then v ∷ remaining first last vs
    else (if leb last v.sec then v ∷ vs else remaining first last vs)

-- The records outside a time.
abbrev outside : (first last : ℕ) → List Stat → List Stat
outside first last [] = []
outside first last (v ∷ vs) =
    if ltb v.sec first || leb last v.sec then v ∷ outside first last vs else outside first last vs

-- No record is earlier than one before it.
abbrev AllFrom : ℕ → List Stat → Type 0
AllFrom t [] = Unit {0}
AllFrom t (v ∷ vs) = (t ≤ v.sec) × AllFrom v.sec vs

outside_late :
    (first last t : ℕ) (vs : List Stat) → last ≤ t → AllFrom t vs → outside first last vs ≡ vs
outside_late first last t [] h k = refl
outside_late first last t (v ∷ vs) h (a, k) =
    ground (arith, outside_late first last v.sec vs (omega arith) k)

remaining-outside :
    (first last t : ℕ) (vs : List Stat)
    → AllFrom t vs
    → remaining first last vs ≡ outside first last vs
remaining-outside first last t [] k = refl
remaining-outside first last t (v ∷ vs) (a, k) =
    ground (arith, remaining-outside first last v.sec vs k, outside_late first last v.sec vs)

when_true {ℓ} : {A : Type ℓ} (b : Bool) (x y : A) → b ≡ true → (elim b [ true ↦ x | false ↦ y ]) ≡ x
when_true true x y e = refl
when_true false x y e = cc

when_false {ℓ} :
    {A : Type ℓ} (b : Bool) (x y : A) → b ≡ false → (elim b [ true ↦ x | false ↦ y ]) ≡ y
when_false true x y e = cc
when_false false x y e = refl

del_times-Holds :
    (n first last : ℕ) (s : Statistics) (ps qs : List ℕ)
    → Split s ps qs
    → length qs ≤ n
    → (s' : Statistics) × (del_times n (length ps) first last s ≡ done s')
      × Holds s' (map s.stat ps ++ remaining first last (map s.stat qs))
unfolding del_times
del_times-Holds zero first last s ps [] h few =
    (s, refl, HoldsAt-Holds s _ _ (Split-HoldsAt s ps [] h))
del_times-Holds zero first last s ps (q ∷ qs) h few = elim few [ ]
del_times-Holds (suc n) first last s ps [] h few =
    let (l, e, k) = get_at-Split s ps [] h in
    let s1 = record s { list = l } in (s1, rw e, HoldsAt-Holds s1 _ _ (Split-HoldsAt s1 ps [] k))
del_times-Holds (suc n) first last s ps (q ∷ qs) h few =
    let (l, e, k) = get_at-Split s ps (q ∷ qs) h in
    let s1 = record s { list = l } in
    let readable : read_stat s q ≡ done (s.stat q) = read_stat-live s ps q qs h in
    elim (Bool-cases (ltb (s.stat q).sec first)) [
      | inl early ↦
          let (s', run, holds) =
            del_times-Holds n first last s1 (ps ++ q ∷ []) qs (Split-next s1 ps q qs k)
              (omega arith) in
          let further : length (ps ++ q ∷ []) ≡ length ps + 1 =
            omega (arith, length-append ps (q ∷ [])) in
          (
            s',
            rw (e, readable) (when_true (ltb (s.stat q).sec first) _ _ early ∙ rw further at run),
            rw early (
                rw (map-append s.stat ps (q ∷ []), append_assoc (map s.stat ps) (s.stat q ∷ [])) at
                  holds),
          )
      | inr not_early ↦ elim (Bool-cases (leb last (s.stat q).sec)) [
        | inl late ↦ (
          s1,
          rw (e, readable)
              (when_false (ltb (s.stat q).sec first) _ _ not_early
                ∙ when_true (leb last (s.stat q).sec) _ _ late),
          rw (not_early, late) (HoldsAt-Holds s1 _ _ (Split-HoldsAt s1 ps (q ∷ qs) k)),
        )
        | inr between ↦
            let (l', e', f, k') = remove_at-Split s1 ps q qs k in
            let s2 = record s { list = l'; live = update s.live q false } in
            let (s', run, holds) = del_times-Holds n first last s2 ps qs k' (omega arith) in
            (
              s',
              rw (e, readable)
                  (when_false (ltb (s.stat q).sec first) _ _ not_early
                    ∙ when_false (leb last (s.stat q).sec) _ _ between
                    ∙ rw (e', f) run),
              rw (not_early, between) holds,
            )
      ]
    ]

-- On a statistics list of live blocks whose records are in the order of time, delStatistics2
-- comes to an end, returns OK and leaves exactly the records before the first time and those
-- from the last time on.
pub del_statistics2-Holds :
    (s : Statistics) (first last : ℕ) (vs : List Stat)
    → Holds s vs
    → AllFrom 0 vs
    → (s' : Statistics) × (del_statistics2 first last s ≡ done (ok, s'))
      × Holds s' (outside first last vs)
unfolding del_statistics2
del_statistics2-Holds s first last vs h sorted =
    let size = count-Shows s.list h.blocks h.shows in
    let split : Split s [] h.blocks = record {
      shows = h.shows;
      alive = h.alive;
      distinct = h.distinct;
    } in
    let (s', run, holds) =
      del_times-Holds (Access.count s.list).1 first last s [] h.blocks split
        (omega (arith, size)) in
    (s', rw run, rw (← remaining-outside first last 0 vs sorted, ← h.records) holds)
