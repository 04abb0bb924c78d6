-- ===== src/Core/Status/Reports.antt =====
-- What a new status does, for `FTM_CATCHB_onSetCCTVStat` of lib/ftm_catchb.c.
use mathlib.Core.List.{append-nil, append_assoc}
use mathlib.Core.Path.{subst}
use catchb.Base.{
  ℕ, ◌≡◌, refl, ap, ◌∙◌, map, true, false, Bool, Option, none, some, List, [], ◌∷◌, ◌++◌, Text,
}
use catchb.Run.{done}
use catchb.Table.Split.{first?, set_first}
use catchb.Table.Holds.{Holds, HoldsAt-Holds}
use catchb.Table.Change.{load-at}
use catchb.Table.Search.{find-FoundAt}
use catchb.Cctv.{Cctv, CctvStat, unregistered, unused, normal, abnormal}
use catchb.Detector.{control}
use catchb.Core.{
  LogType, normal_log, error_log, Core, has_id, Call, db_add_log, send_alarm, set_control, ask,
  get_cctv,
}
use catchb.Core.Attach.{change-HoldsAt}
use catchb.Core.Status.{
  control_for, kept_hash, shown_hash, log_type, tell, stat_found, on_set_cctv_stat,
}

abbrev pub told : Cctv → Option Bool → List Call
told c none = []
told c (some allows) = set_control (control c.switch_id c.ip allows) ∷ []

tell_lem :
    (s : Core) (c : Cctv) (o : Option Bool) → tell s c o ≡ record s { calls = s.calls ++ told c o }
unfolding tell ask
tell_lem s c none = rw append-nil refl
tell_lem s c (some b) = refl

abbrev pub with_stat : CctvStat → Cctv → Cctv
with_stat now c = record c { hash = kept_hash now c.hash; stat = now }

-- The calls that one status makes.
abbrev pub reported : CctvStat → (time : ℕ) → (id msg_hash : Text) → Cctv → List Call
reported now time id msg_hash c =
    let hash = shown_hash msg_hash (kept_hash now c.hash) in
    told c (control_for now c.stat)
    ++ (send_alarm (log_type now) id c.ip time now hash c.stat
        ∷ db_add_log (log_type now) time c.id c.ip now hash
        ∷ [])

-- What the handler returns and leaves, in its own terms.
pub on_set_cctv_stat-runs :
    (s : Core) (id : Text) (now : CctvStat) (time : ℕ) (msg_hash : Text) (vs : List Cctv) (v : Cctv)
    → Holds s.cctvs vs
    → first? (has_id id) vs ≡ some v
    → (s' : Core) × (on_set_cctv_stat s id now time msg_hash ≡ done (s.answer s'.calls, s'))
      × Holds s'.cctvs (set_first (has_id id) (with_stat now v) vs)
      × (s'.calls ≡ s.calls ++ reported now time id msg_hash v)
      × (s'.watched ≡ s.watched)
      × (s'.answer ≡ s.answer)
unfolding on_set_cctv_stat get_cctv stat_found ask
on_set_cctv_stat-runs s id now time msg_hash vs v h first =
    let f = find-FoundAt (has_id id) s.cctvs vs v h first in
    let s1 : Core = record s { cctvs = f.after } in
    let s2 : Core = record s1 { calls = s.calls ++ told v (control_for now v.stat) } in
    let (t, cleared, k) =
      change-HoldsAt s2 f.at (λ d. record d { hash = kept_hash now d.hash }) f.us v f.ws f.holds in
    let hash = shown_hash msg_hash (kept_hash now v.hash) in
    let s3 =
      (ask (send_alarm (log_type now) id v.ip time now hash v.stat) (record s2 { cctvs = t })).1 in
    let (t', set, k') =
      change-HoldsAt s3 f.at (λ d. record d { stat = now }) f.us
        (record v { hash = kept_hash now v.hash }) f.ws k in
    (
      (ask (db_add_log (log_type now) time v.id v.ip now hash) (record s3 { cctvs = t' })).1,
      rw f.runs (
          rw (load-at f.after f.us f.at v f.ws f.holds)
            (rw (tell_lem s1 v (control_for now v.stat)) (rw cleared (rw set)))),
      rw (f.sets (with_stat now v)) (HoldsAt-Holds t' f.us f.at (with_stat now v) f.ws k'),
      simp append_assoc,
      refl,
      refl,
    )

-- What the switch is told when a camera goes from one status to another: a camera that becomes
-- NORMAL may pass again, one that becomes ABNORMAL may not, and one that becomes UNREGISTERED is
-- told again what holds.
pub verdict : (before now : CctvStat) → List Bool
verdict normal abnormal = false ∷ []
verdict normal unregistered = true ∷ []
verdict abnormal normal = true ∷ []
verdict abnormal unregistered = false ∷ []
verdict unused normal = true ∷ []
verdict unused abnormal = false ∷ []
verdict before now = []

-- The fingerprint that a camera has afterwards.
pub hash_after : CctvStat → Text → Text
hash_after unregistered hash = []
hash_after unused hash = hash
hash_after normal hash = hash
hash_after abnormal hash = hash

-- How the alarm and the log are marked.
pub mark : CctvStat → LogType
mark unregistered = error_log
mark unused = error_log
mark normal = normal_log
mark abnormal = error_log

-- The camera with its new status.
abbrev pub camera_after : CctvStat → Cctv → Cctv
camera_after now c = record c { hash = hash_after now c.hash; stat = now }

-- The fingerprint that is reported: the message's, or else the camera's.
pub reported_hash : (msg_hash : Text) → CctvStat → Cctv → Text
unfolding hash_after
reported_hash [] now c = hash_after now c.hash
reported_hash (x ∷ xs) now c = x ∷ xs

-- The calls in order: the controls, the alarm, the log.
abbrev pub calls_after : (now : CctvStat) → (time : ℕ) → (id msg_hash : Text) → Cctv → List Call
calls_after now time id msg_hash c =
    let hash = reported_hash msg_hash now c in
    map (λ b. set_control (control c.switch_id c.ip b)) (verdict c.stat now)
    ++ (send_alarm (mark now) id c.ip time now hash c.stat
        ∷ db_add_log (mark now) time c.id c.ip now hash
        ∷ [])

told-verdict :
    (now before : CctvStat) (c : Cctv)
    → told c (control_for now before)
      ≡ map (λ b. set_control (control c.switch_id c.ip b)) (verdict before now)
unfolding control_for verdict
told-verdict normal normal c = refl
told-verdict normal abnormal c = refl
told-verdict normal unused c = refl
told-verdict normal unregistered c = refl
told-verdict abnormal normal c = refl
told-verdict abnormal abnormal c = refl
told-verdict abnormal unused c = refl
told-verdict abnormal unregistered c = refl
told-verdict unused normal c = refl
told-verdict unused abnormal c = refl
told-verdict unused unused c = refl
told-verdict unused unregistered c = refl
told-verdict unregistered normal c = refl
told-verdict unregistered abnormal c = refl
told-verdict unregistered unused c = refl
told-verdict unregistered unregistered c = refl

kept_hash-after : (now : CctvStat) (hash : Text) → kept_hash now hash ≡ hash_after now hash
unfolding hash_after
kept_hash-after normal hash = refl
kept_hash-after abnormal hash = refl
kept_hash-after unused hash = refl
kept_hash-after unregistered hash = refl

log_type-mark : (now : CctvStat) → log_type now ≡ mark now
unfolding mark
log_type-mark normal = refl
log_type-mark abnormal = refl
log_type-mark unused = refl
log_type-mark unregistered = refl

shown_hash-reported :
    (msg_hash : Text) (now : CctvStat) (c : Cctv)
    → shown_hash msg_hash (kept_hash now c.hash) ≡ reported_hash msg_hash now c
unfolding reported_hash
shown_hash-reported [] now c = kept_hash-after now c.hash
shown_hash-reported (x ∷ xs) now c = refl

-- For a camera in the list onSetCCTVStat comes to an end, returns what the database says of the
-- log, changes this camera alone to the new status, its fingerprint cleared by UNREGISTERED,
-- and makes in this order the control that its old and new status ask for, the alarm and the
-- log, with the message's fingerprint or else the camera's.
pub on_set_cctv_stat-reported :
    (s : Core) (id : Text) (now : CctvStat) (time : ℕ) (msg_hash : Text) (vs : List Cctv) (v : Cctv)
    → Holds s.cctvs vs
    → first? (has_id id) vs ≡ some v
    → (s' : Core) × (on_set_cctv_stat s id now time msg_hash ≡ done (s.answer s'.calls, s'))
      × Holds s'.cctvs (set_first (has_id id) (camera_after now v) vs)
      × (s'.calls ≡ s.calls ++ calls_after now time id msg_hash v)
      × (s'.watched ≡ s.watched)
      × (s'.answer ≡ s.answer)
on_set_cctv_stat-reported s id now time msg_hash vs v h first =
    let (s', run, k, calls, watched, answer) =
      on_set_cctv_stat-runs s id now time msg_hash vs v h first in
    (
      s',
      run,
      subst (λ x. Holds s'.cctvs (set_first (has_id id) (record v { hash = x; stat = now }) vs))
          (kept_hash-after now v.hash) k,
      calls
          ∙ ap (λ x. s.calls ++ x)
              (rw (told-verdict now v.stat v)
                (rw (log_type-mark now) (rw (shown_hash-reported msg_hash now v) refl))),
      watched,
      answer,
    )
