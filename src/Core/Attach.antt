-- ===== src/Core/Attach.antt =====
-- What the steps that the handlers of lib/ftm_catchb.c share do to the cameras and the watched ids.
use catchb.Base.{ℕ, ◌≡◌, List}
use catchb.Run.{done}
use catchb.Table.{Table}
use catchb.Table.Holds.{HoldsAt}
use catchb.Table.Change.{store-HoldsAt, load-at}
use catchb.Cctv.{Cctv}
use catchb.Core.{Core, change}

-- A write through the pointer to a camera changes this camera alone.
pub change-HoldsAt :
    (s : Core) (p : ℕ) (f : Cctv → Cctv) (us : List Cctv) (v : Cctv) (ws : List Cctv)
    → HoldsAt s.cctvs us p v ws
    → (t : Table Cctv) × (change s p f ≡ done (v, record s { cctvs = t })) × HoldsAt t us p (f v) ws
unfolding change
change-HoldsAt s p f us v ws h =
    let (t, run, k, _) = store-HoldsAt s.cctvs us p v (f v) ws h in
    (t, rw (load-at s.cctvs us p v ws h) (rw run), k)
