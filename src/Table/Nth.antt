-- ===== src/Table/Nth.antt =====
-- Reading a list of pointers by position, as the callers of `FTM_LIST_getAt` do.
use catchb.Base.{
  map-drop, ℕ, ◌≡◌, refl, sym, ap, ◌∙◌, true, none, some, List, [], ◌∷◌, ◌++◌, map, take, drop,
  take-append-drop, length,
}
use catchb.Run.{done}
use catchb.Ret.{ok, object_not_found}
use catchb.FtmList.{FtmList}
use catchb.FtmList.Shows.{Shows, AllLive-append}
use catchb.FtmList.Walk.{AllLive}
use catchb.FtmList.Read.{get_at-Finds}
use catchb.Table.{Table, load, nth}
use catchb.Table.Holds.{Holds}

module _ {A : Type 0} where
  drop-append : (us ws : List A) → drop (length us) (us ++ ws) ≡ ws
  drop-append [] ws = refl
  drop-append (u ∷ us) ws = drop-append us ws

  -- What stands behind the first values.
  behind :
      (t : Table A) (us ws : List A) (h : Holds t (us ++ ws))
      → map t.block (drop (length us) h.blocks) ≡ ws
  behind t us ws h =
      sym (map-drop t.block (length us) h.blocks)
      ∙ ap (drop (length us)) h.values
      ∙ drop-append us ws

  relisted :
      (t : Table A) (l : FtmList) (vs : List A) (h : Holds t vs)
      → Shows l h.blocks
      → Holds (record t { list = l }) vs
  relisted t l vs h k = record {
    blocks = h.blocks;
    shows = k;
    alive = h.alive;
    distinct = h.distinct;
    values = h.values;
  }

  pub nth-Holds :
      (t : Table A) (us : List A) (v : A) (ws : List A)
      → Holds t (us ++ v ∷ ws)
      → (t' : Table A) × (p : ℕ) × (nth (length us) t ≡ done ((ok, some p), t'))
        × (load t' p ≡ done v)
        × Holds t' (us ++ v ∷ ws)
  unfolding nth load
  nth-Holds t us v ws h = go (drop (length us) h.blocks) refl (behind t us (v ∷ ws) h)
    where
      go :
          (ps : List ℕ)
          → drop (length us) h.blocks ≡ ps
          → map t.block ps ≡ v ∷ ws
          → (t' : Table A) × (p : ℕ) × (nth (length us) t ≡ done ((ok, some p), t'))
            × (load t' p ≡ done v)
            × Holds t' (us ++ v ∷ ws)
      go [] cut e = cc
      go (p ∷ ps) cut e =
          let (l, run, k) = get_at-Finds t.list (length us) h.blocks h.shows in
          let whole : take (length us) h.blocks ++ p ∷ ps ≡ h.blocks =
            rw (← cut) (take-append-drop (length us) h.blocks) in
          let alive : AllLive t.live (take (length us) h.blocks ++ p ∷ ps) = rw whole h.alive in
          let live : t.live p ≡ true =
            (AllLive-append t.live (take (length us) h.blocks) (p ∷ ps) alive).1.0 in
          let value : t.block p ≡ v = cc e in
          (
            record t { list = l },
            p,
            rw run (rw cut refl),
            rw live (ap done value),
            relisted t l (us ++ v ∷ ws) h k,
          )

  pub nth_end :
      (t : Table A) (us : List A)
      → Holds t (us ++ [])
      → (t' : Table A) × (nth (length us) t ≡ done ((object_not_found, none), t'))
        × Holds t' (us ++ [])
  unfolding nth
  nth_end t us h = go (drop (length us) h.blocks) refl (behind t us [] h)
    where
      go :
          (ps : List ℕ)
          → drop (length us) h.blocks ≡ ps
          → map t.block ps ≡ []
          → (t' : Table A) × (nth (length us) t ≡ done ((object_not_found, none), t'))
            × Holds t' (us ++ [])
      go (p ∷ ps) cut e = cc
      go [] cut e =
          let (l, run, k) = get_at-Finds t.list (length us) h.blocks h.shows in
          (record t { list = l }, rw run (rw cut refl), relisted t l (us ++ []) h k)
