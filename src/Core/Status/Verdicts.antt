-- ===== src/Core/Status/Verdicts.antt =====
-- Which cameras lib/ftm_catchb.c has blocked after a run of statuses.
use catchb.Base.{ℕ, ◌≡◌, refl, ap, ◌∙◌, true, false, some, List, ◌∷◌, map, Text}
use catchb.Run.{done}
use catchb.Table.Split.{first?}
use catchb.Table.Holds.{Holds}
use catchb.Cctv.{Cctv, CctvStat, unregistered, normal, abnormal}
use catchb.Core.{Core, has_id}
use catchb.Core.Status.{control_for}
use catchb.Core.Status.Life.{
  run_stats, blocks, blocked_after, run_stats-tracks, verdict, IsSettled, NoneReset,
  settled_verdict, AllAre, unregistered_stays,
}

module _ (s : Core) (id : Text) (vs : List Cctv) (v : Cctv) (h : Holds s.cctvs vs)
    (first : first? (has_id id) vs ≡ some v) where
  -- For a camera in the list that is ABNORMAL and blocked, NORMAL and not blocked, or UNUSED,
  -- every run of statuses without UNREGISTERED comes to an end, whatever the database and the
  -- notifier answer, and the last control that the core sent for its address on its switch
  -- blocks it exactly if the last verdict, ABNORMAL or NORMAL, was ABNORMAL, or if it was
  -- blocked before and the run has no verdict.
  pub abnormal_blocked :
      (msgs : List (CctvStat × ℕ × Text))
      → IsSettled v.stat (blocks v.switch_id v.ip false s.calls)
      → NoneReset (map (λ m. m.0) msgs)
      → (s' : Core) × (run_stats s id msgs ≡ done s')
        × (blocks v.switch_id v.ip false s'.calls
            ≡ verdict (blocks v.switch_id v.ip false s.calls) (map (λ m. m.0) msgs))
  abnormal_blocked msgs settled kept =
      let (s', run, tracks) = run_stats-tracks id msgs s vs v h first in
      (
        s',
        run,
        tracks
            ∙ settled_verdict (map (λ m. m.0) msgs) (blocks v.switch_id v.ip false s.calls) v.stat
                settled kept,
      )

  -- If an ABNORMAL camera is reset and every status after that is NORMAL, the last control that
  -- the core sent for its address on its switch blocks it.
  pub reset_stays_blocked :
      (time : ℕ) (hash : Text) (msgs : List (CctvStat × ℕ × Text))
      → v.stat ≡ abnormal
      → AllAre normal (map (λ m. m.0) msgs)
      → (s' : Core) × (run_stats s id ((unregistered, time, hash) ∷ msgs) ≡ done s')
        × (blocks v.switch_id v.ip false s'.calls ≡ true)
  unfolding control_for
  reset_stays_blocked time hash msgs was all =
      let (s', run, tracks) =
        run_stats-tracks id ((unregistered, time, hash) ∷ msgs) s vs v h first in
      (
        s',
        run,
        rw was at tracks ∙ unregistered_stays normal (map (λ m. m.0) msgs) true refl refl all,
      )

  -- If an UNREGISTERED camera is not blocked and every status is ABNORMAL, the core sends no
  -- control that blocks it.
  new_camera_not_blocked :
      (msgs : List (CctvStat × ℕ × Text))
      → v.stat ≡ unregistered
      → blocks v.switch_id v.ip false s.calls ≡ false
      → AllAre abnormal (map (λ m. m.0) msgs)
      → (s' : Core) × (run_stats s id msgs ≡ done s')
        × (blocks v.switch_id v.ip false s'.calls ≡ false)
  unfolding control_for
  new_camera_not_blocked msgs was free all =
      let (s', run, tracks) = run_stats-tracks id msgs s vs v h first in
      (
        s',
        run,
        (tracks
              ∙ ap
                  (λ k.
                    blocked_after (blocks v.switch_id v.ip false s.calls) k (map (λ m. m.0) msgs))
                  was)
            ∙ unregistered_stays abnormal (map (λ m. m.0) msgs)
                (blocks v.switch_id v.ip false s.calls) refl refl all
            ∙ free,
      )
