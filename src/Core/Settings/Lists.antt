-- ===== src/Core/Settings/Lists.antt =====
-- The lists of cameras that lib/ftm_catchb.c copies to its callers.
use mathlib.Core.List.{append_assoc}
use catchb.Base.{
  ℕ, zero, suc, ◌+◌, ◌≡◌, refl, List, [], ◌∷◌, ◌++◌, map, take, length, length-append, arith,
}
use catchb.Run.{done}
use catchb.Table.{Table}
use catchb.Table.Holds.{Holds}
use catchb.Table.Nth.{nth-Holds, nth_end}
use catchb.Cctv.{Cctv}
use catchb.Core.{Core}
use catchb.Core.Settings.{first_cctvs, get_cctv_list, get_cctv_id_list}

first_cctvs-take :
    (n : ℕ) (t : Table Cctv) (us ws : List Cctv)
    → Holds t (us ++ ws)
    → (t' : Table Cctv) × (first_cctvs n (length us) t ≡ done (take n ws, t')) × Holds t' (us ++ ws)
unfolding first_cctvs
first_cctvs-take zero t us ws h = (t, refl, h)
first_cctvs-take (suc n) t us [] h = let (t', run, k) = nth_end t us h in (t', rw run refl, k)
first_cctvs-take (suc n) t us (c ∷ ws) h =
    let (t', p, run, reads, k) = nth-Holds t us c ws h in
    let split : Holds t' ((us ++ c ∷ []) ++ ws) = rw append_assoc k in
    let (t'', rest, k') = first_cctvs-take n t' (us ++ c ∷ []) ws split in
    let further : length (us ++ c ∷ []) ≡ length us + 1 =
      omega (arith, length-append us (c ∷ [])) in
    (t'', rw run (rw reads (rw (rw further at rest) refl)), rw append_assoc at k')

-- The first cameras and their ids, in order.
get_cctv_id_list-take :
    (s : Core) (max : ℕ) (vs : List Cctv)
    → Holds s.cctvs vs
    → (t : Table Cctv) × (get_cctv_list s max ≡ done (take max vs, record s { cctvs = t }))
      × (get_cctv_id_list s max ≡ done (map (λ c. c.id) (take max vs), record s { cctvs = t }))
      × Holds t vs
unfolding get_cctv_id_list get_cctv_list
get_cctv_id_list-take s max vs h =
    let (t, run, k) = first_cctvs-take max s.cctvs [] vs h in (t, rw run refl, rw run refl, k)
