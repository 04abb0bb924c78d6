-- ===== src/Core/Status/Life.antt =====
-- What the switch is told over a run of statuses of one camera, by lib/ftm_catchb.c.
use catchb.Base.{
  ℕ, ◌≡◌, refl, ap, ◌∙◌, Bool, true, false, not, ◌&&◌, Option, none, some, List, [], ◌∷◌, ◌++◌, map,
  if◌then◌else◌, Text, same, same_refl, take,
}
use catchb.Run.{Run, done, ◌>>=◌}
use catchb.Table.Split.{first?, set_first, first?-hit, first?-set_first}
use catchb.Table.Holds.{Holds}
use catchb.Switch.{ip_len}
use catchb.Detector.{control, id_len}
use catchb.Detector.Blocked.{is_deny}
use catchb.Cctv.{Cctv, CctvStat, unregistered, unused, normal, abnormal}
use catchb.Core.{
  Core, Call, db_add_cctv, db_delete_cctv, db_update_hash, db_set_properties, db_add_log,
  db_get_cctv_count, db_get_cctv_list, push_removed, push_found, send_alarm, set_control, has_id,
}
use catchb.Core.Status.{control_for, on_set_cctv_stat}
use catchb.Core.Status.Reports.{on_set_cctv_stat-runs, reported, told, with_stat}

-- The messages of one camera, oldest first. The thread does not look at the results.
unfoldable pub run_stats : Core → (id : Text) → List (CctvStat × ℕ × Text) → Run Core
run_stats s id [] = done s
run_stats s id ((now, time, hash) ∷ rest) = do
  (r, s') ← on_set_cctv_stat s id now time hash
  run_stats s' id rest

-- Whether the last control for an address on a switch was to block it; `b` is how it was before.
unfoldable pub blocks : (switch_id ip : Text) → Bool → List Call → Bool
blocks sw ip b [] = b
blocks sw ip b (set_control c ∷ cs) =
    blocks sw ip
      (if same c.switch_id (take id_len sw) && same c.target_ip (take ip_len ip)
        then is_deny c.policy
        else b)
      cs
blocks sw ip b (c ∷ cs) = blocks sw ip b cs

blocks-append :
    (sw ip : Text) (xs : List Call) (b : Bool) (ys : List Call)
    → blocks sw ip b (xs ++ ys) ≡ blocks sw ip (blocks sw ip b xs) ys
unfolding blocks
blocks-append sw ip [] b ys = refl
blocks-append sw ip (set_control c ∷ xs) b ys =
    blocks-append sw ip xs
      (if same c.switch_id (take id_len sw) && same c.target_ip (take ip_len ip)
        then is_deny c.policy
        else b)
      ys
blocks-append sw ip (db_add_cctv c ∷ xs) b ys = blocks-append sw ip xs b ys
blocks-append sw ip (db_delete_cctv id ∷ xs) b ys = blocks-append sw ip xs b ys
blocks-append sw ip (db_update_hash id h ∷ xs) b ys = blocks-append sw ip xs b ys
blocks-append sw ip (db_set_properties id c f ∷ xs) b ys = blocks-append sw ip xs b ys
blocks-append sw ip (db_add_log t n id i s h ∷ xs) b ys = blocks-append sw ip xs b ys
blocks-append sw ip (db_get_cctv_count ∷ xs) b ys = blocks-append sw ip xs b ys
blocks-append sw ip (db_get_cctv_list m ∷ xs) b ys = blocks-append sw ip xs b ys
blocks-append sw ip (push_removed id ∷ xs) b ys = blocks-append sw ip xs b ys
blocks-append sw ip (push_found c ∷ xs) b ys = blocks-append sw ip xs b ys
blocks-append sw ip (send_alarm t id i n s h o ∷ xs) b ys = blocks-append sw ip xs b ys

abbrev after_control : Bool → Option Bool → Bool
after_control b none = b
after_control b (some allows) = not allows

blocks-told :
    (c : Cctv) (b : Bool) (o : Option Bool)
    → blocks c.switch_id c.ip b (told c o) ≡ after_control b o
unfolding blocks control
blocks-told c b none = refl
blocks-told c b (some true) =
    rw (same_refl (take id_len c.switch_id), same_refl (take ip_len c.ip)) refl
blocks-told c b (some false) =
    rw (same_refl (take id_len c.switch_id), same_refl (take ip_len c.ip)) refl

blocks-reported :
    (now : CctvStat) (time : ℕ) (id hash : Text) (c : Cctv) (b : Bool)
    → blocks c.switch_id c.ip b (reported now time id hash c)
      ≡ after_control b (control_for now c.stat)
unfolding blocks
blocks-reported now time id hash c b =
    blocks-append c.switch_id c.ip (told c (control_for now c.stat)) b _
    ∙ blocks-told c b (control_for now c.stat)

-- How the camera is after a run of statuses.
abbrev pub blocked_after : Bool → (before : CctvStat) → List CctvStat → Bool
blocked_after b before [] = b
blocked_after b before (now ∷ rest) =
    blocked_after (after_control b (control_for now before)) now rest

module _ (id : Text) where
  -- The run follows the statuses, whatever the database and the notifier answer.
  pub run_stats-tracks :
      (stats : List (CctvStat × ℕ × Text)) (s : Core) (vs : List Cctv) (v : Cctv)
      → Holds s.cctvs vs
      → first? (has_id id) vs ≡ some v
      → (s' : Core) × (run_stats s id stats ≡ done s')
        × (blocks v.switch_id v.ip false s'.calls
            ≡ blocked_after (blocks v.switch_id v.ip false s.calls) v.stat (map (λ m. m.0) stats))
  unfolding run_stats
  run_stats-tracks [] s vs v h first = (s, refl, refl)
  run_stats-tracks ((now, time, hash) ∷ rest) s vs v h first =
      let (s1, run, k, calls, _, _) = on_set_cctv_stat-runs s id now time hash vs v h first in
      let w = with_stat now v in
      let again : first? (has_id id) (set_first (has_id id) w vs) ≡ some w =
        first?-set_first (has_id id) vs v w first (first?-hit (has_id id) vs v first) in
      let (s', runs, tracks) = run_stats-tracks rest s1 (set_first (has_id id) w vs) w k again in
      let step : blocks v.switch_id v.ip false s1.calls
          ≡ after_control (blocks v.switch_id v.ip false s.calls) (control_for now v.stat) =
        ap (blocks v.switch_id v.ip false) calls
        ∙ blocks-append v.switch_id v.ip s.calls false (reported now time id hash v)
        ∙ blocks-reported now time id hash v (blocks v.switch_id v.ip false s.calls) in
      (s', rw run runs, tracks ∙ ap (λ b. blocked_after b now (map (λ m. m.0) rest)) step)

-- The last verdict on the fingerprint, and the one before if the statuses give none.
abbrev pub verdict : Bool → List CctvStat → Bool
verdict b [] = b
verdict b (abnormal ∷ rest) = verdict true rest
verdict b (normal ∷ rest) = verdict false rest
verdict b (unused ∷ rest) = verdict b rest
verdict b (unregistered ∷ rest) = verdict b rest

-- A camera that was never reset is blocked if it is ABNORMAL and free if it is NORMAL.
abbrev pub IsSettled : CctvStat → Bool → Type 0
IsSettled normal b = b ≡ false
IsSettled abnormal b = b ≡ true
IsSettled unused b = Unit {0}
IsSettled unregistered b = ⊥

abbrev pub NoneReset : List CctvStat → Type 0
NoneReset [] = Unit {0}
NoneReset (unregistered ∷ rest) = ⊥
NoneReset (now ∷ rest) = NoneReset rest

pub settled_verdict :
    (stats : List CctvStat) (b : Bool) (before : CctvStat)
    → IsSettled before b
    → NoneReset stats
    → blocked_after b before stats ≡ verdict b stats
unfolding control_for
settled_verdict [] b before h n = refl
settled_verdict (unregistered ∷ rest) b before h n = elim n [ ]
settled_verdict (now ∷ rest) b unregistered h n = elim h [ ]
settled_verdict (unused ∷ rest) b unused h n = settled_verdict rest b unused tt n
settled_verdict (unused ∷ rest) b normal h n = settled_verdict rest b unused tt n
settled_verdict (unused ∷ rest) b abnormal h n = settled_verdict rest b unused tt n
settled_verdict (normal ∷ rest) b unused h n = settled_verdict rest false normal refl n
settled_verdict (normal ∷ rest) b normal h n =
    settled_verdict rest b normal h n ∙ ap (λ c. verdict c rest) h
settled_verdict (normal ∷ rest) b abnormal h n = settled_verdict rest false normal refl n
settled_verdict (abnormal ∷ rest) b unused h n = settled_verdict rest true abnormal refl n
settled_verdict (abnormal ∷ rest) b normal h n = settled_verdict rest true abnormal refl n
settled_verdict (abnormal ∷ rest) b abnormal h n =
    settled_verdict rest b abnormal h n ∙ ap (λ c. verdict c rest) h

abbrev pub AllAre : CctvStat → List CctvStat → Type 0
AllAre k [] = Unit {0}
AllAre k (now ∷ rest) = (now ≡ k) × AllAre k rest

-- Neither the first ABNORMAL nor the first NORMAL after UNREGISTERED tells the switch anything.
pub unregistered_stays :
    (k : CctvStat) (stats : List CctvStat) (b : Bool)
    → control_for k unregistered ≡ none
    → control_for k k ≡ none
    → AllAre k stats
    → blocked_after b unregistered stats ≡ b
unregistered_stays k [] b first again all = refl
unregistered_stays k (now ∷ rest) b first again all = rw (all.0) (rw first (same_stays rest all.1))
  where
    same_stays : (stats : List CctvStat) → AllAre k stats → blocked_after b k stats ≡ b
    same_stays [] h = refl
    same_stays (now ∷ rest) h = rw (h.0) (rw again (same_stays rest h.1))
