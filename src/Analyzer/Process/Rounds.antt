-- ===== src/Analyzer/Process/Rounds.antt =====
-- Rounds of `FTM_ANALYZER_process` of lib/ftm_analyzer.c, one after the other, while the first id has no
-- camera in the core.
use catchb.Base.{◌≡◌, refl, none, List, [], ◌∷◌, map, Text, arith, ◌==◌, false}
use catchb.Run.{Run, done, ◌>>=◌}
use catchb.Ret.{Ret, object_not_found}
use catchb.Table.Split.{first?}
use catchb.Table.Holds.{Holds, HoldsAt-Holds, count-Holds}
use catchb.Table.Search.{find-NotFound}
use catchb.Table.Rotate.{nth-First}
use catchb.Cctv.{Cctv}
use catchb.Core.{Core, has_id, get_cctv}
use catchb.Analyzer.Process.{Analyzer, World, id_found, camera_found, process}

-- The thread only logs the results.
pub rounds : List World → Analyzer → Run (List Ret × Analyzer)
unfolding process
rounds [] a = done ([], a)
rounds (w ∷ ws) a = do (r, b) ← process w a; (rs, c) ← rounds ws b; done (r ∷ rs, c)

-- What rounds leave that found no camera.
pub record Idle (a : Analyzer) (run : Run (List Ret × Analyzer)) (rs : List Ret) (ids : List Text)
    (vs : List Cctv) : Type 0 where
  pub after : Analyzer
  pub runs : run ≡ done (rs, after)
  pub watched : Holds after.core.watched ids
  pub cameras : Holds after.core.cctvs vs
  pub sent : after.sent ≡ a.sent
  pub calls : after.core.calls ≡ a.core.calls
  pub timers : after.timers ≡ a.timers

-- If the core has no camera of the first id, every round returns OBJECT_NOT_FOUND, sends
-- nothing and leaves the ids as they are, in their order, so that no other camera is ever
-- looked at.
pub rounds_stuck :
    (id : Text) (ids : List Text) (vs : List Cctv) (ws : List World) (a : Analyzer)
    → Holds a.core.watched (id ∷ ids)
    → Holds a.core.cctvs vs
    → first? (has_id id) vs ≡ none
    → Idle a (rounds ws a) (map (λ _. object_not_found) ws) (id ∷ ids) vs
unfolding rounds process id_found camera_found get_cctv
rounds_stuck id ids vs [] a watched cameras gone = record {
  after = a;
  runs = refl;
  watched = watched;
  cameras = cameras;
  sent = refl;
  calls = refl;
  timers = refl;
}
rounds_stuck id ids vs (w ∷ ws) a watched cameras gone =
    let one = nth-First a.core.watched id ids watched in
    let f = find-NotFound (has_id id) a.core.cctvs vs cameras gone in
    let c : Core = record (a.core) { watched = one.after; cctvs = f.after } in
    let full : (a.core.watched.list.count == 0) ≡ false =
      rw ((count-Holds a.core.watched (id ∷ ids) watched).0) (ground arith) in
    let more =
      rounds_stuck id ids vs ws (record a { core = c })
        (HoldsAt-Holds one.after [] one.at id ids one.holds) f.holds gone in
    record {
      after = more.after;
      runs = rw full (rw one.runs (rw one.loads (rw f.runs (rw more.runs refl))));
      watched = more.watched;
      cameras = more.cameras;
      sent = more.sent;
      calls = more.calls;
      timers = more.timers;
    }
