-- ===== src/Analyzer/Process/Verdict.antt =====
-- What one round of `FTM_ANALYZER_process` of lib/ftm_analyzer.c finds of the camera whose turn it is.
use mathlib.Core.List.{append-nil}
use catchb.Base.{
  ℕ, zero, suc, ◌+◌, ◌^◌, ◌<◌, ◌≤◌, ◌≡◌, refl, sym, ap, ◌∙◌, Bool, true, false, some, List, [], ◌∷◌,
  ◌++◌, Text, inl, inr, arith, length, ◌==◌, Bool-cases, if◌then◌else◌,
}
use catchb.Run.{done, fault}
use catchb.Ret.{ok}
use catchb.FtmList.{update}
use catchb.FtmList.Shows.{IsFresh}
use catchb.Table.Split.{first?}
use catchb.Table.Holds.{Holds, HoldsAt-Holds, count-Holds}
use catchb.Table.Change.{load-at, live-at}
use catchb.Table.Search.{find-FoundAt}
use catchb.Table.Rotate.{nth-First, Turned, take_off-Turned}
use catchb.Score.{Score}
use catchb.Timer.{is_expired, add_ms}
use catchb.Cctv.{Cctv, CctvStat, unregistered, unused, normal, abnormal}
use catchb.Core.{Core, has_id, get_cctv}
use catchb.Core.Messages.{Message}
use catchb.Analyzer.{calc_score}
use catchb.Analyzer.Print.{scanned, fingerprint}
use catchb.Analyzer.Process.{
  Config, Analyzer, World, scan, port_room, no_score, send, stat_message, register_message,
  no_response, verdict_of, compared, responded, turn, analysed, camera_found, id_found, process,
}

scan-scanned :
    (room : ℕ) (f : ℕ → Bool) (ps : List ℕ)
    → length ps ≤ room
    → scan room f ps ≡ done (scanned f ps)
unfolding scan
scan-scanned room f [] h = refl
scan-scanned zero f (p ∷ ps) h = elim h [ ]
scan-scanned (suc room) f (p ∷ ps) h = rw (scan-scanned room f ps (omega (arith, h))) refl

scan_long : (room : ℕ) (f : ℕ → Bool) (ps : List ℕ) → room < length ps → scan room f ps ≡ fault
unfolding scan
scan_long room f [] h = elim h [ ]
scan_long zero f (p ∷ ps) h = refl
scan_long (suc room) f (p ∷ ps) h = rw (scan_long room f ps (omega (arith, h))) refl

-- The fingerprint that a round takes of a camera.
abbrev pub taken : World → Config → Cctv → Score → Text
taken w g v s = fingerprint w.digest v.ip w.mac (scanned w.is_open g.ports) s.value

-- What a round says of a camera.
abbrev pub said : World → Config → Cctv → Score → List Message
said w g v s =
    if w.replies == 0
    then (elim (v.stat) [ unregistered ↦ [] | _ ↦ stat_message v unused w.secs [] ∷ [] ])
    else (elim (v.hash) [
      | [] ↦ register_message v (taken w g v s) ∷ []
      | d ∷ ds ↦
          stat_message v (verdict_of w g (d ∷ ds) (taken w g v s)) w.secs (taken w g v s) ∷ []
    ])

-- The analyzer before the timer is set and the id moves.
pub record Spoken (w : World) (p q : ℕ) (v : Cctv) (s : Score) (a : Analyzer) : Type 0 where
  pub after : Analyzer
  pub runs : analysed true w q p v a ≡ turn w q p after
  pub core : after.core ≡ a.core
  pub sent : after.sent ≡ a.sent ++ said w a.config v s

silent :
    (w : World) (p q : ℕ) (v : Cctv) (s : Score) (a : Analyzer)
    → (w.replies == 0) ≡ true
    → Spoken w p q v s a
unfolding analysed no_response send
silent w p q v s a none_came = go v.stat refl
  where
    lost : Message
    lost = stat_message v unused w.secs []

    tells :
        no_response w v a ≡ record a { sent = a.sent ++ lost ∷ [] }
        → said w a.config v s ≡ lost ∷ []
        → Spoken w p q v s a
    tells e k = record {
      after = record a { sent = a.sent ++ lost ∷ [] };
      runs = rw none_came (rw e refl);
      core = refl;
      sent = rw k refl;
    }

    go : (k : CctvStat) → v.stat ≡ k → Spoken w p q v s a
    go unregistered e = record {
      after = a;
      runs = rw none_came (rw e refl);
      core = refl;
      sent = rw none_came (rw e (rw append-nil refl));
    }
    go unused e = tells (rw e refl) (rw none_came (rw e refl))
    go normal e = tells (rw e refl) (rw none_came (rw e refl))
    go abnormal e = tells (rw e refl) (rw none_came (rw e refl))

heard :
    (w : World) (p q : ℕ) (v : Cctv) (s : Score) (a : Analyzer)
    → (w.replies == 0) ≡ false
    → length a.config.ports ≤ port_room
    → calc_score w.fuel w.packets no_score ≡ done s
    → Spoken w p q v s a
unfolding analysed responded compared send
heard w p q v s a some_came few scored = go v.hash refl
  where
    scanning : scan port_room w.is_open a.config.ports ≡ done (scanned w.is_open a.config.ports)
    scanning = scan-scanned port_room w.is_open a.config.ports few

    seen : Analyzer
    seen = record a { ports = update a.ports p (scanned w.is_open a.config.ports) }

    go : (h : Text) → v.hash ≡ h → Spoken w p q v s a
    go [] e = record {
      after = compared w v (taken w a.config v s) seen;
      runs = rw some_came (rw scanning (rw scored refl));
      core = rw e refl;
      sent = rw some_came (rw e refl);
    }
    go (d ∷ ds) e = record {
      after = compared w v (taken w a.config v s) seen;
      runs = rw some_came (rw scanning (rw scored refl));
      core = rw e refl;
      sent = rw some_came (rw e refl);
    }

-- A round that can be made: the camera of the first id is there and due, the captured packets can be
-- scored, the ports have room and there is memory for the entry.
pub record Can (w : World) (a : Analyzer) (id : Text) (ids : List Text) (vs : List Cctv) (v : Cctv)
    (s : Score) (e : ℕ) : Type 0 where
  pub watched : Holds a.core.watched (id ∷ ids)
  pub cameras : Holds a.core.cctvs vs
  pub first : first? (has_id id) vs ≡ some v
  pub due :
      (p : ℕ)
      → a.core.cctvs.live p ≡ true
      → a.core.cctvs.block p ≡ v
      → is_expired (a.timers p) w.now ≡ true
  pub few : length a.config.ports ≤ port_room
  pub scored : calc_score w.fuel w.packets no_score ≡ done s
  pub entry : w.entry ≡ some e
  pub unused : IsFresh a.core.watched.list e
  pub small : length ids + 1 < 2 ^ 32

-- What a round leaves.
pub record Round (w : World) (a : Analyzer) (ids : List Text) (vs : List Cctv) (ms : List Message)
    : Type 0 where
  pub after : Analyzer
  pub runs : process w a ≡ done (ok, after)
  pub watched : Holds after.core.watched ids
  pub cameras : Holds after.core.cctvs vs
  pub sent : after.sent ≡ a.sent ++ ms
  pub calls : after.core.calls ≡ a.core.calls
  pub answer : after.core.answer ≡ a.core.answer

turn-Turned :
    (w : World) (q p e : ℕ) (b : Analyzer) (c : Core) {ids : List Text}
    → b.core ≡ c
    → w.entry ≡ some e
    → (t : Turned c.watched q e ids)
    → turn w q p b
      ≡ done (
        ok,
        record b {
          core = record c { watched = t.after };
          timers = update b.timers p (add_ms (b.timers p) w.later b.config.interval);
        },
      )
unfolding turn
turn-Turned w q p e b c same entry t = rw same (rw entry (rw t.takes (rw t.adds refl)))

spoken :
    (w : World) (p q : ℕ) (v : Cctv) (s : Score) (a : Analyzer)
    → length a.config.ports ≤ port_room
    → calc_score w.fuel w.packets no_score ≡ done s
    → Spoken w p q v s a
spoken w p q v s a few scored = elim (Bool-cases (w.replies == 0)) [
  | inl none_came ↦ silent w p q v s a none_came
  | inr some_came ↦ heard w p q v s a some_came few scored
]

-- In a round that can be made the analyzer returns OK, sends the core what it found of the
-- camera of the first id, nothing for an UNREGISTERED camera that does not answer, UNUSED for
-- another that does not, the fingerprint for one that answers and has none, and else NORMAL or
-- ABNORMAL, and moves the id to the end.
pub process-Round :
    (w : World) (a : Analyzer) (id : Text) (ids : List Text) (vs : List Cctv) (v : Cctv) (s : Score)
    (e : ℕ)
    → Can w a id ids vs v s e
    → Round w a (ids ++ id ∷ []) vs (said w a.config v s)
unfolding process id_found camera_found get_cctv
process-Round w a id ids vs v s e h =
    let one = nth-First a.core.watched id ids h.watched in
    let f = find-FoundAt (has_id id) a.core.cctvs vs v h.cameras h.first in
    let c : Core = record (a.core) { watched = one.after; cctvs = f.after } in
    let b : Analyzer = record a { core = c } in
    let full : (a.core.watched.list.count == 0) ≡ false =
      rw ((count-Holds a.core.watched (id ∷ ids) h.watched).0) (ground arith) in
    let live = live-at f.after f.us f.at v f.ws f.holds in
    let due =
      h.due f.at (ap (λ m. m f.at) (sym f.same.live) ∙ live)
        (ap (λ m. m f.at) (sym f.same.block) ∙ f.holds.value) in
    let spoke = spoken w f.at one.at v s b h.few h.scored in
    let t =
      take_off-Turned one.after [] one.at e id ids one.holds (one.entries e h.unused) h.small in
    record {
      after = record (spoke.after) {
        core = record c { watched = t.after };
        timers =
            update spoke.after.timers f.at
              (add_ms (spoke.after.timers f.at) w.later spoke.after.config.interval);
      };
      runs = rw full (
          rw one.runs (
            rw one.loads (
              rw f.runs (
                rw (load-at f.after f.us f.at v f.ws f.holds) (
                  rw due (
                    spoke.runs
                    ∙ turn-Turned w one.at f.at e spoke.after c spoke.core h.entry t))))));
      watched = t.holds;
      cameras = rw f.whole (HoldsAt-Holds f.after f.us f.at v f.ws f.holds);
      sent = spoke.sent;
      calls = refl;
      answer = refl;
    }
