-- ===== src/Core/Messages/Kept.antt =====
-- Whole lists of lib/ftm_catchb.c, and runs of its handlers that keep them.
use catchb.Base.{◌≡◌, ◌⊎◌, none, some, List, Text, Option-cases}
use catchb.Run.{Run, done, ◌>>=◌}
use catchb.Ret.{Ret, object_not_found}
use catchb.FtmList.Access.{Found}
use catchb.Table.Split.{first?}
use catchb.Table.Holds.{Holds}
use catchb.Table.Search.{find-NotFound}
use catchb.Cctv.{Cctv}
use catchb.Core.{Core, Call, has_id, get_cctv}
use catchb.Core.Create.{Handled}

-- The cameras and the watched ids are lists of live blocks, each once.
pub record IsWhole (s : Core) : Type 0 where
  pub cameras : List Cctv
  pub cameras_held : Holds s.cctvs cameras
  pub ids : List Text
  pub ids_held : Holds s.watched ids

-- The run ends, and the lists are whole.
pub record KeepsWhole (run : Run (Ret × Core)) : Type 0 where
  pub result : Ret
  pub after : Core
  pub runs : run ≡ done (result, after)
  pub whole : IsWhole after

pub Handled-KeepsWhole :
    (s : Core) (run : Run (Ret × Core)) {r : Ret} {vs : List Cctv} {ids : List Text}
    {calls : List Call}
    → Handled s run r vs ids calls
    → KeepsWhole run
Handled-KeepsWhole s run {r} {vs} {ids} h = record {
  result = r;
  after = h.after;
  runs = h.runs;
  whole = record { cameras = vs; cameras_held = h.cameras; ids = ids; ids_held = h.watches };
}

-- A handler that only passes on that there is no camera.
pub unknown-KeepsWhole :
    (s : Core) (id : Text) (w : IsWhole s) (rest : Found × Core → Run (Ret × Core))
    → ((t : Core) → rest ((object_not_found, none), t) ≡ done (object_not_found, t))
    → first? (has_id id) w.cameras ≡ none
    → KeepsWhole (get_cctv s id >>= rest)
unfolding get_cctv
unknown-KeepsWhole s id w rest passes nowhere =
    let f = find-NotFound (has_id id) s.cctvs w.cameras w.cameras_held nowhere in
    record {
      result = object_not_found;
      after = record s { cctvs = f.after };
      runs = rw f.runs (passes (record s { cctvs = f.after }));
      whole = record {
        cameras = w.cameras;
        cameras_held = f.holds;
        ids = w.ids;
        ids_held = w.ids_held;
      };
    }

-- The first camera with an id, or that there is none.
pub known? :
    (s : Core) (id : Text) (w : IsWhole s)
    → (first? (has_id id) w.cameras ≡ none) ⊎ ((v : Cctv) × (first? (has_id id) w.cameras ≡ some v))
known? s id w = Option-cases (first? (has_id id) w.cameras)
