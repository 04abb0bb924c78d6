-- ===== src/Detector.antt =====
-- lib/ftm_detector.c: the messages that tell a switch to block or to free a camera. `pList` is never
-- filled in the source.
pub mod Steps
pub mod Blocked
mod Tests
use catchb.Base.{
  ℕ, Bool, true, false, Option, none, some, List, [], ◌∷◌, ◌++◌, Text, take, if◌then◌else◌,
}
use catchb.Run.{Run, done, ◌>>=◌}
use catchb.Ret.{Ret, ok, object_not_found, not_enough_memory}
use catchb.FtmList.Access.{Found}
use catchb.Switch.{Switch, Policy, deny, allow, get_ac, add_ac, delete_ac, ip_len}

-- `FTM_ID_LEN`
abbrev pub id_len : ℕ
id_len = 64

-- `FTM_MSG_SWITCH_CONTROL`
pub record Control : Type 0 where
  pub switch_id : Text
  pub target_ip : Text
  pub policy : Policy

unfoldable pub control : (switch_id target_ip : Text) → (allows : Bool) → Control
control id ip allows = record {
  switch_id = take id_len id;
  target_ip = take ip_len ip;
  policy = if allows then allow else deny;
}

-- What `FTM_DETECTOR_onSetControl` does once it has the switch. The result of deleting is not looked
-- at.
pub on_found :
    (memory entry : Option ℕ)
    → (answer : Ret) → (ip : Text) → Policy
    → Found × Switch
    → Run (Ret × Switch)
unfolding add_ac delete_ac
on_found memory entry answer ip deny ((object_not_found, p), s) =
    add_ac memory entry answer s ip deny
on_found memory entry answer ip allow ((object_not_found, p), s) = done (ok, s)
on_found memory entry answer ip deny (f, s) = done (ok, s)
on_found memory entry answer ip allow (f, s) = do (r, s') ← delete_ac answer s ip; done (ok, s')

pub apply_control :
    (memory entry : Option ℕ) → (answer : Ret) → Switch → (ip : Text) → Policy → Run (Ret × Switch)
unfolding get_ac on_found
apply_control memory entry answer s ip policy = do
  f ← get_ac s ip
  on_found memory entry answer ip policy f
