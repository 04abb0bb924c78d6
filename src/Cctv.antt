-- ===== src/Cctv.antt =====
-- lib/ftm_cctv.c and lib/ftm_cctv.h: a camera is what is configured of it. Its lock, its timer and
-- the ports that answered belong to the analysis.
use catchb.Base.{ℕ, Bool, true, false, Option, none, some, Text}
use catchb.Run.{Run}
use catchb.Ret.{ok, error, not_enough_memory}
use catchb.FtmList.Access.{Found}
use catchb.Table.{Table, fresh, release}

pub data CctvStat : Type 0 where
  unregistered unused normal abnormal : CctvStat

-- `FTM_CCTV_CONFIG`
pub record Cctv : Type 0 where
  pub id : Text
  pub ip : Text
  pub switch_id : Text
  pub comment : Text
  pub time : ℕ
  pub hash : Text
  pub stat : CctvStat

-- `FTM_CCTV_create` with a configuration; `lock_fails` is what `FTM_LOCK_init` says. A camera that
-- gets no lock is freed again.
unfoldable pub create :
    (memory : Option ℕ) → (lock_fails : Bool) → Table Cctv → Cctv → Found × Table Cctv
create none lock_fails t c = ((not_enough_memory, none), t)
create (some p) true t c = ((error, none), t)
create (some p) false t c = ((ok, some p), fresh t p c)

-- `FTM_CCTV_destroy`
unfoldable pub destroy : Table Cctv → (p : ℕ) → Run (Table Cctv)
unfolding release
destroy t p = release t p
