-- ===== src/Core/Status.antt =====
-- `FTM_CATCHB_onSetCCTVStat` of lib/ftm_catchb.c: a camera's new status, what the switch is told
-- about it, the alarm and the log.
pub mod Reports
pub mod Life
pub mod Verdicts
use catchb.Base.{ℕ, Bool, true, false, Option, none, some, List, [], ◌∷◌, ◌++◌, Text}
use catchb.Run.{Run, done, fault, ◌>>=◌}
use catchb.Ret.{Ret, ok}
use catchb.FtmList.Access.{Found}
use catchb.Table.{Table, load}
use catchb.Cctv.{Cctv, CctvStat, unregistered, unused, normal, abnormal}
use catchb.Detector.{Control, control}
use catchb.Core.{
  Core, Call, LogType, normal_log, error_log, db_add_log, send_alarm, set_control, ask, get_cctv,
  change,
}

-- Whether the switch is told, and then whether the camera may pass.
pub control_for : (now before : CctvStat) → Option Bool
control_for normal abnormal = some true
control_for normal unused = some true
control_for abnormal normal = some false
control_for abnormal unused = some false
control_for unregistered normal = some true
control_for unregistered abnormal = some false
control_for now before = none

abbrev pub log_type : CctvStat → LogType
log_type normal = normal_log
log_type _ = error_log

-- UNREGISTERED clears the fingerprint.
abbrev pub kept_hash : CctvStat → Text → Text
kept_hash unregistered hash = []
kept_hash _ hash = hash

-- The message's fingerprint, or else the camera's.
abbrev pub shown_hash : (msg_hash hash : Text) → Text
shown_hash [] hash = hash
shown_hash (d ∷ ds) hash = d ∷ ds

pub tell : Core → Cctv → Option Bool → Core
unfolding ask
tell s c none = s
tell s c (some allows) = (ask (set_control (control c.switch_id c.ip allows)) s).1

unfoldable pub stat_found :
    (now : CctvStat) → (time : ℕ) → (id msg_hash : Text) → Found × Core → Run (Ret × Core)
stat_found now time id msg_hash ((ok, some p), s) = do
  c ← load s.cctvs p
  (_, s1) ←
      change (tell s c (control_for now c.stat)) p (λ d. record d { hash = kept_hash now d.hash })
  let hash = shown_hash msg_hash (kept_hash now c.hash)
  let s2 = (ask (send_alarm (log_type now) id c.ip time now hash c.stat) s1).1
  (_, s3) ← change s2 p (λ d. record d { stat = now })
  done (ask (db_add_log (log_type now) time c.id c.ip now hash) s3)
stat_found now time id msg_hash ((ok, none), s) = fault
stat_found now time id msg_hash ((r, p), s) = done (r, s)

unfoldable pub on_set_cctv_stat :
    Core → (id : Text) → (now : CctvStat) → (time : ℕ) → (msg_hash : Text) → Run (Ret × Core)
unfolding get_cctv stat_found
on_set_cctv_stat s id now time msg_hash = do f ← get_cctv s id; stat_found now time id msg_hash f

-- `resetCCTV` sends the status UNREGISTERED with no fingerprint.
unfoldable reset_cctv : (now : ℕ) → (id : Text) → Text × CctvStat × ℕ × Text
reset_cctv now id = (id, unregistered, now, [])
