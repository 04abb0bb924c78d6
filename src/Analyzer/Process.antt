-- ===== src/Analyzer/Process.antt =====
-- `FTM_ANALYZER_process` of lib/ftm_analyzer.c: one round of the analyzer, which looks at the camera
-- whose id stands first and sends what it found to the core. The lock of the ids and that of
-- the camera are free when a round starts; memory for the messages is there, and the core's
-- queue takes them. A write behind `pPortList` is a fault;
-- `pOptions` has room for the filter that the ports make.
pub mod Rounds
pub mod Verdict
pub mod Blocks
use catchb.Base.{
  ℕ, zero, suc, ◌+◌, ◌-◌, ◌%◌, ◌^◌, Bool, true, false, not, ◌&&◌, Option, none, some, List, [], ◌∷◌,
  ◌++◌, Text, same, take, ltb, ◌==◌, if◌then◌else◌,
}
use catchb.Run.{Run, done, fault, ◌>>=◌}
use catchb.Ret.{Ret, ok}
use catchb.FtmList.{update}
use catchb.FtmList.Access.{Found}
use catchb.Table.{Table, add, take_off, load, nth}
use catchb.Score.{Packet, Score}
use catchb.Timer.{Timeval, Timer, is_expired, add_ms}
use catchb.Cctv.{Cctv, CctvStat, unregistered, unused, normal, abnormal}
use catchb.Analyzer.{calc_score}
use catchb.Analyzer.Watch.{id_len}
use catchb.Analyzer.Print.{fingerprint}
use catchb.Core.{Core, hash_len, get_cctv}
use catchb.Core.Messages.{Message, cctv_set_stat, cctv_register}

-- `FTM_ANALYZER_CONFIG`
pub record Config : Type 0 where
  pub ports : List ℕ
  pub interval : ℕ
  pub test : Bool
  pub error_rate : ℕ

-- `sent` are the messages to the core, oldest first; the timers and the ports of the cameras go by
-- the camera's address.
pub record Analyzer : Type 0 where
  pub config : Config
  pub core : Core
  pub timers : ℕ → Timer
  pub ports : ℕ → List (ℕ × Bool)
  pub sent : List Message

-- What a round meets: the clock when it tests the timer, when it dates the status and when it sets the
-- timer; what ping, arp, the ports and the capture say; `rand`, SHA1 and `malloc`; `fuel` is
-- that of the walks over the TCP options.
pub record World : Type 0 where
  pub now : Timeval
  pub secs : ℕ
  pub later : Timeval
  pub replies : ℕ
  pub mac : Text
  pub is_open : ℕ → Bool
  pub packets : List Packet
  pub fuel : ℕ
  pub random : ℕ
  pub digest : Text → Option (List ℕ)
  pub entry : Option ℕ

-- The length of `pPortList` of a camera.
abbrev pub port_room : ℕ
port_room = 16

-- The loop over the ports of the configuration.
pub scan : (room : ℕ) → (is_open : ℕ → Bool) → (ports : List ℕ) → Run (List (ℕ × Bool))
scan room is_open [] = done []
scan zero is_open (p ∷ ps) = fault
scan (suc room) is_open (p ∷ ps) = do rest ← scan room is_open ps; done ((p, is_open p) ∷ rest)

-- `memset`
abbrev pub no_score : Score
no_score = record {
  value = 0;
  os_matrix = record {
    ttl = false;
    df = false;
    tcp_mss = false;
    window_scale = false;
    window_size = false;
    syn_packet_size = false;
    options_order = false;
    ip_id = false;
  };
}

send : Message → Analyzer → Analyzer
send m a = record a { sent = a.sent ++ m ∷ [] }

-- `FTM_CATCHB_setCCTVStat` and `FTM_CATCHB_registerCCTV` cut the texts.
abbrev pub stat_message : Cctv → CctvStat → (secs : ℕ) → (hash : Text) → Message
stat_message c stat secs hash =
    cctv_set_stat (take id_len c.id) stat secs (take (hash_len + 1) hash)

abbrev pub register_message : Cctv → (hash : Text) → Message
register_message c hash = cctv_register (take id_len c.id) (take hash_len hash)

-- The camera did not answer.
pub no_response : World → Cctv → Analyzer → Analyzer
unfolding send
no_response w c a = elim (c.stat) [
  | unregistered ↦ a
  | _ ↦ send (stat_message c unused w.secs []) a
]

-- The test mode takes some fingerprints for wrong.
abbrev test_fails : World → Config → Bool
test_fails w g = g.test && ltb (w.random % 100) g.error_rate

abbrev tested : World → Config → Config
tested w g =
    if test_fails w g then record g { error_rate = (100 + 2 ^ 32 - g.error_rate) % 2 ^ 32 } else g

-- What the fingerprint says of a camera that has one.
abbrev pub verdict_of : World → Config → (known hash : Text) → CctvStat
verdict_of w g known hash = if not (test_fails w g) && same known hash then normal else abnormal

-- A first fingerprint is registered, another is compared.
pub compared : World → Cctv → (hash : Text) → Analyzer → Analyzer
unfolding send
compared w c hash a = elim (c.hash) [
  | [] ↦ send (register_message c hash) a
  | d ∷ ds ↦
      send (stat_message c (verdict_of w a.config (d ∷ ds) hash) w.secs hash)
        (record a { config = tested w a.config })
]

pub responded : World → (p : ℕ) → Cctv → Analyzer → Run Analyzer
unfolding scan calc_score compared fingerprint
responded w p c a = do
  ports ← scan port_room w.is_open a.config.ports
  s ← calc_score w.fuel w.packets no_score
  done (
      compared w c (fingerprint w.digest c.ip w.mac ports s.value)
        (record a { ports = update a.ports p ports }))

-- The timer goes on and the id moves to the end; `remove` and `append` are not looked at.
pub turn : World → (q p : ℕ) → Analyzer → Run (Ret × Analyzer)
unfolding add_ms take_off add
turn w q p a = do
  (_, t) ← take_off a.core.watched q
  (_, t') ← add w.entry t q
  done (
    ok,
    record a {
      core = record (a.core) { watched = t' };
      timers = update a.timers p (add_ms (a.timers p) w.later a.config.interval);
    },
  )

pub analysed : (due : Bool) → World → (q p : ℕ) → Cctv → Analyzer → Run (Ret × Analyzer)
unfolding no_response responded turn
analysed false w q p c a = done (ok, a)
analysed true w q p c a =
    if w.replies == 0
    then turn w q p (no_response w c a)
    else (do a' ← responded w p c a; turn w q p a')

camera_found : World → (q : ℕ) → Found → Analyzer → Run (Ret × Analyzer)
unfolding load is_expired analysed
camera_found w q (ok, some p) a = do
  c ← load a.core.cctvs p
  analysed (is_expired (a.timers p) w.now) w q p c a
camera_found w q (ok, none) a = fault
camera_found w q (r, p) a = done (r, a)

id_found : World → Found → Analyzer → Run (Ret × Analyzer)
unfolding load get_cctv camera_found
id_found w (ok, some q) a = do
  id ← load a.core.watched q
  (f, s) ← get_cctv a.core id
  camera_found w q f (record a { core = s })
id_found w (ok, none) a = fault
id_found w (r, q) a = done (r, a)

pub process : World → Analyzer → Run (Ret × Analyzer)
unfolding nth id_found
process w a = if a.core.watched.list.count == 0 then done (ok, a) else (do
  (f, t) ← nth 0 a.core.watched
  id_found w f (record a { core = record (a.core) { watched = t } }))
