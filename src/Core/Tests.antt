-- ===== src/Core/Tests.antt =====
-- Runs of the camera handlers of lib/ftm_catchb.c.
use catchb.Base.{
  ℕ, ◌≡◌, refl, true, false, none, some, List, [], ◌∷◌, ◌++◌, arith, Text, same, same_case,
}
use catchb.Run.{done, ◌>>=◌}
use catchb.Ret.{Ret, ok, error, object_not_found}
use catchb.FtmList.Shows.{Shows}
use catchb.Table.Holds.{Holds}
use catchb.Table.Samples.{
  no_blocks, no_blocks-Holds, no_blocks-MayAllocate, one_block, one_block-Holds,
}
use catchb.Cctv.{Cctv, CctvStat, unregistered, unused, normal, abnormal}
use catchb.Core.{
  Core, Memory, db_get_cctv_count, db_get_cctv_list, db_add_cctv, db_delete_cctv, on_create_cctv,
  on_delete_cctv,
}
use catchb.Core.Check.{Stored, on_check_new_cctv}
use catchb.Core.Check.Pushes.{Says, last_said, gone, come, on_check_new_cctv-pushes}
use catchb.Core.Create.{Handled, all_memory, create_new, create_dangles}
use catchb.Core.Delete.{delete-create}
use catchb.Core.Messages.{create_cctv, on_message}
use catchb.Core.Messages.Kept.{IsWhole, KeepsWhole}
use catchb.Core.Messages.Whole.{on_message-KeepsWhole}
use catchb.Core.Status.{on_set_cctv_stat}
use catchb.Core.Status.Reports.{calls_after, camera_after, on_set_cctv_stat-reported}
use catchb.Core.Status.Life.{run_stats, blocks}
use catchb.Core.Status.Verdicts.{abnormal_blocked, reset_stays_blocked}

abbrev camera_id : Text
camera_id = b'c' ∷ b'1' ∷ []

abbrev address : Text
address = b'9' ∷ []

abbrev switch : Text
switch = b's' ∷ []

abbrev camera : CctvStat → Cctv
camera stat = record {
  id = camera_id;
  ip = address;
  switch_id = switch;
  comment = [];
  time = 5;
  hash = [];
  stat = stat;
}

-- No cameras; the calls out are answered by `r`.
abbrev idle : Ret → Core
idle r = record {
  cctvs = no_blocks (camera unused);
  watched = no_blocks [];
  calls = [];
  answer = λ cs. r;
}

-- One camera that is watched.
abbrev busy : CctvStat → Core
busy stat = record {
  cctvs = one_block (camera stat);
  watched = one_block camera_id;
  calls = [];
  answer = λ cs. ok;
}

create_new_example :
    Handled
      (idle ok)
      (on_create_cctv (all_memory 20 2 20 2) 7 (idle ok) (camera normal))
      ok
      (camera normal ∷ [])
      (camera_id ∷ [])
      (db_add_cctv (camera normal) ∷ [])
create_new_example =
    create_new (idle ok) (camera normal) 7 [] [] (no_blocks-Holds (camera unused))
      (no_blocks-Holds []) 20 2 (no_blocks-MayAllocate (camera unused)) (omega arith) refl 20 2
      (no_blocks-MayAllocate []) (omega arith) refl

-- No memory for the copy of the id.
abbrev little_memory : Memory
little_memory = record (all_memory 20 2 20 2) { id = none }

create_dangles_example :
    (s' : Core) × (on_create_cctv little_memory 7 (idle ok) (camera normal)
      ≡ done (object_not_found, s'))
    × (before : List ℕ) × (after : List ℕ) × Shows s'.cctvs.list (before ++ 20 ∷ after)
    × (s'.cctvs.live 20 ≡ false)
create_dangles_example =
    create_dangles (idle ok) (camera normal) 7 [] [] (no_blocks-Holds (camera unused))
      (no_blocks-Holds []) 20 2 (no_blocks-MayAllocate (camera unused)) (omega arith) refl
      little_memory refl refl refl refl refl refl

delete-create_example :
    Handled
      (idle ok)
      (on_create_cctv (all_memory 20 2 20 2) 7 (idle ok) (camera normal) >>= λ r.
        on_delete_cctv (r.1) camera_id)
      ok
      []
      []
      (db_add_cctv (camera normal) ∷ db_delete_cctv camera_id ∷ [])
delete-create_example =
    delete-create (idle ok) (camera normal) 7 20 2 20 2 [] [] (no_blocks-Holds (camera unused))
      (no_blocks-Holds []) (no_blocks-MayAllocate (camera unused)) (no_blocks-MayAllocate [])
      (omega arith) (omega arith) (omega arith) refl refl refl

on_set_cctv_stat-reported_example :
    (s' : Core) × (on_set_cctv_stat (busy normal) camera_id abnormal 9 [] ≡ done (ok, s'))
    × Holds s'.cctvs (camera_after abnormal (camera normal) ∷ [])
    × (s'.calls ≡ calls_after abnormal 9 camera_id [] (camera normal))
    × (s'.watched ≡ one_block camera_id)
    × (s'.answer ≡ (λ cs. ok))
unfolding same
on_set_cctv_stat-reported_example =
    on_set_cctv_stat-reported (busy normal) camera_id abnormal 9 [] (camera normal ∷ [])
      (camera normal) (one_block-Holds (camera normal)) refl

abnormal_blocked_example :
    (s' : Core) × (run_stats (busy normal) camera_id ((abnormal, 9, []) ∷ []) ≡ done s')
    × (blocks switch address false s'.calls ≡ true)
unfolding same same_case blocks
abnormal_blocked_example =
    abnormal_blocked (busy normal) camera_id (camera normal ∷ []) (camera normal)
      (one_block-Holds (camera normal)) refl ((abnormal, 9, []) ∷ []) refl tt

reset_stays_blocked_example :
    (s' : Core) × (run_stats
        (busy abnormal)
        camera_id
        ((unregistered, 8, []) ∷ (normal, 9, []) ∷ [])
      ≡ done s')
    × (blocks switch address false s'.calls ≡ true)
unfolding same same_case blocks
reset_stays_blocked_example =
    reset_stays_blocked (busy abnormal) camera_id (camera abnormal ∷ []) (camera abnormal)
      (one_block-Holds (camera abnormal)) refl 8 [] ((normal, 9, []) ∷ []) refl (refl, tt)

abbrev idle-IsWhole : IsWhole (idle error)
idle-IsWhole = record {
  cameras = [];
  cameras_held = no_blocks-Holds (camera unused);
  ids = [];
  ids_held = no_blocks-Holds [];
}

on_message-KeepsWhole_example :
    KeepsWhole (on_message (all_memory 20 2 20 2) 7 (idle error) (create_cctv (camera normal)))
on_message-KeepsWhole_example =
    on_message-KeepsWhole (idle error) idle-IsWhole 7 20 2 20 2
      (no_blocks-MayAllocate (camera unused)) (no_blocks-MayAllocate []) (omega arith) (omega arith)
      (create_cctv (camera normal))

abbrev unknown_id : Text
unknown_id = b'c' ∷ b'2' ∷ []

-- The database has one camera, which is not in the list.
abbrev stored : Stored
stored = record {
  count = 1;
  array = some 40;
  rows = record (camera normal) { id = unknown_id } ∷ [];
}

on_check_new_cctv-pushes_example :
    Says
      (busy normal)
      (on_check_new_cctv stored (busy normal))
      (last_said (camera normal ∷ []) ok stored.rows)
      (camera normal ∷ [])
      (db_get_cctv_count ∷ db_get_cctv_list 1 ∷ gone stored.rows (camera normal ∷ [])
        ++ come (camera normal ∷ []) stored.rows)
on_check_new_cctv-pushes_example =
    on_check_new_cctv-pushes (busy normal) stored 40 (camera normal ∷ [])
      (one_block-Holds (camera normal)) (omega arith) refl refl refl
