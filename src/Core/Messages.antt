-- ===== src/Core/Messages.antt =====
-- The messages of the cameras that `FTM_CATCHB_process` of lib/ftm_catchb.c hands to their handlers;
-- the three messages of the switches are not among them.
pub mod Kept
pub mod Whole
use catchb.Base.{ℕ, Text}
use catchb.Run.{Run}
use catchb.Ret.{Ret}
use catchb.Cctv.{Cctv, CctvStat}
use catchb.Core.{
  Core, Memory, on_create_cctv, on_delete_cctv, on_found_cctv_in_db, on_removed_cctv_in_db,
}
use catchb.Core.Check.{Stored, on_check_new_cctv}
use catchb.Core.Settings.{on_set_cctv_hash, on_cctv_register, on_set_cctv_properties}
use catchb.Core.Status.{on_set_cctv_stat}

-- What the database has when the cameras are checked stands with the message, which has no fields.
pub data Message : Type 0 where
  create_cctv : Cctv → Message
  delete_cctv : (id : Text) → Message
  check_new_cctv : Stored → Message
  found_new_cctv_in_db : Cctv → Message
  removed_cctv_in_db : (id : Text) → Message
  cctv_hash_updated : (id hash : Text) → Message
  cctv_set_stat : (id : Text) → CctvStat → (time : ℕ) → (hash : Text) → Message
  cctv_set_properties : (id : Text) → Cctv → (flags : ℕ) → Message
  cctv_register : (id hash : Text) → Message

unfoldable pub on_message : Memory → (now : ℕ) → Core → Message → Run (Ret × Core)
unfolding on_create_cctv on_delete_cctv on_found_cctv_in_db on_removed_cctv_in_db on_check_new_cctv
on_message m now s (create_cctv c) = on_create_cctv m now s c
on_message m now s (delete_cctv id) = on_delete_cctv s id
on_message m now s (check_new_cctv d) = on_check_new_cctv d s
on_message m now s (found_new_cctv_in_db c) = on_found_cctv_in_db m s c
on_message m now s (removed_cctv_in_db id) = on_removed_cctv_in_db s id
on_message m now s (cctv_hash_updated id hash) = on_set_cctv_hash m s id hash
on_message m now s (cctv_set_stat id stat time hash) = on_set_cctv_stat s id stat time hash
on_message m now s (cctv_set_properties id from flags) = on_set_cctv_properties s id from flags
on_message m now s (cctv_register id hash) = on_cctv_register s id hash
