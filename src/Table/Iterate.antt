-- ===== src/Table/Iterate.antt =====
-- The iterator of lib/ftm_list.c over a list of pointers to blocks.
use mathlib.Core.List.{append-nil, append_assoc}
use catchb.Base.{ℕ, ◌≡◌, refl, ap, ◌∙◌, true, none, some, List, [], ◌∷◌, ◌++◌, map}
use catchb.Run.{done}
use catchb.Ret.{ok, object_not_found}
use catchb.FtmList.Links.{AllDistinct}
use catchb.FtmList.Walk.{AllLive}
use catchb.FtmList.Shows.{AllLive-append}
use catchb.FtmList.Iterate.{
  Iterates, iterator_start-Iterates, iterator_next-Iterates, iterator_next_end, Iterates-Shows,
}
use catchb.Table.{Table, load, start, next}
use catchb.Table.Holds.{Holds, map-append}

-- The values `us` were handed out and `ws` are to come.
pub record Iterating {A : Type 0} (t : Table A) (us ws : List A) : Type 0 where
  pub past : List ℕ
  pub ahead : List ℕ
  pub iterates : Iterates t.list past ahead
  pub alive : AllLive t.live (past ++ ahead)
  pub distinct : AllDistinct (past ++ ahead)
  pub past_values : map t.block past ≡ us
  pub ahead_values : map t.block ahead ≡ ws

module _ {A : Type 0} where
  pub Iterating-Holds : (t : Table A) (us ws : List A) → Iterating t us ws → Holds t (us ++ ws)
  Iterating-Holds t us ws h = record {
    blocks = h.past ++ h.ahead;
    shows = Iterates-Shows t.list h.past h.ahead h.iterates;
    alive = h.alive;
    distinct = h.distinct;
    values =
        map-append t.block h.past h.ahead
        ∙ ap (λ k. k ++ map t.block h.ahead) h.past_values
        ∙ ap (◌++◌ us) h.ahead_values;
  }

  pub start-Iterating :
      (t : Table A) (vs : List A)
      → Holds t vs
      → (t' : Table A) × (start t ≡ done t') × Iterating t' [] vs
  unfolding start
  start-Iterating t vs h =
      let (l, run, k) = iterator_start-Iterates t.list h.blocks h.shows in
      (
        record t { list = l },
        rw run,
        record {
          past = [];
          ahead = h.blocks;
          iterates = k;
          alive = h.alive;
          distinct = h.distinct;
          past_values = refl;
          ahead_values = h.values;
        },
      )

  -- The next value can be read through its pointer.
  pub next-Iterating :
      (t : Table A) (us : List A) (v : A) (ws : List A)
      → Iterating t us (v ∷ ws)
      → (t' : Table A) × (p : ℕ) × (next t ≡ done ((ok, some p), t'))
        × (load t' p ≡ done v)
        × Iterating t' (us ++ v ∷ []) ws
  unfolding next load
  next-Iterating t us v ws h = go h.ahead h.iterates h.alive h.distinct h.ahead_values
    where
      go :
          (qs : List ℕ)
          → Iterates t.list h.past qs
          → AllLive t.live (h.past ++ qs)
          → AllDistinct (h.past ++ qs)
          → map t.block qs ≡ v ∷ ws
          → (t' : Table A) × (p : ℕ) × (next t ≡ done ((ok, some p), t'))
            × (load t' p ≡ done v)
            × Iterating t' (us ++ v ∷ []) ws
      go [] i a d e = cc
      go (q ∷ qs) i a d e =
          let (l, run, k) = iterator_next-Iterates t.list h.past q qs i in
          let value : t.block q ≡ v = cc e in
          let live : t.live q ≡ true = (AllLive-append t.live h.past (q ∷ qs) a).1.0 in
          (
            record t { list = l },
            q,
            rw run,
            rw live (ap done value),
            record {
              past = h.past ++ q ∷ [];
              ahead = qs;
              iterates = k;
              alive = rw append_assoc a;
              distinct = rw append_assoc d;
              past_values =
                  map-append t.block h.past (q ∷ [])
                  ∙ ap (λ xs. xs ++ t.block q ∷ []) h.past_values
                  ∙ ap (λ x. us ++ x ∷ []) value;
              ahead_values = cc e;
            },
          )

  pub next_end :
      (t : Table A) (us : List A)
      → Iterating t us []
      → (t' : Table A) × (next t ≡ done ((object_not_found, none), t')) × Holds t' us
  unfolding next
  next_end t us h = go h.ahead h.iterates h.alive h.distinct h.ahead_values
    where
      go :
          (qs : List ℕ)
          → Iterates t.list h.past qs
          → AllLive t.live (h.past ++ qs)
          → AllDistinct (h.past ++ qs)
          → map t.block qs ≡ []
          → (t' : Table A) × (next t ≡ done ((object_not_found, none), t')) × Holds t' us
      go (q ∷ qs) i a d e = cc
      go [] i a d e =
          let (l, run, k) = iterator_next_end t.list h.past i in
          (
            record t { list = l },
            rw run,
            record {
              blocks = h.past;
              shows = k;
              alive = rw append-nil at a;
              distinct = rw append-nil at d;
              values = h.past_values;
            },
          )
