-- ===== src/Analyzer/Tests.antt =====
-- Captures of lib/ftm_analyzer.c.
use catchb.Base.{
  ℕ, ◌≤◌, ◌≡◌, ◌↔◌, refl, true, false, some, [], ◌∷◌, Text, codes, same, arith, ◌==◌, if◌then◌else◌,
}
use catchb.Run.{done}
use catchb.Ret.{Ret, ok, object_not_found}
use catchb.Hash.{hash_sha1}
use catchb.Table.{Table}
use catchb.Table.Samples.{no_blocks, no_blocks-Holds, one_block, one_block-Holds}
use catchb.Timer.{Timeval, Timer, is_expired}
use catchb.Score.{Packet, Score}
use catchb.Score.Caps.{IsCapped}
use catchb.Score.Tests.{usual, usual-Progresses, plain, plain-Progresses, unscored}
use catchb.Cctv.{Cctv, CctvStat, normal}
use catchb.Core.{Core}
use catchb.Core.Create.{all_memory}
use catchb.Core.Messages.{Message, on_message}
use catchb.Core.Status.Life.{blocks}
use catchb.Analyzer.{calc_score, score_all, order, order_from}
use catchb.Analyzer.Scores.{calc_score-bounded}
use catchb.Analyzer.Print.{
  scanned, decimal, tenths, port_text, more_ports, ports_text, hash_data, fingerprint,
}
use catchb.Analyzer.Print.Same.{hash_data-same}
use catchb.Analyzer.Process.{Analyzer, World, no_score, process}
use catchb.Analyzer.Process.Verdict.{Can, Round, process-Round, said}
use catchb.Analyzer.Process.Blocks.{process-blocks}
use catchb.Analyzer.Process.Rounds.{rounds, rounds_stuck, Idle}

-- A packet of a protocol.
abbrev of_protocol : ℕ → Packet
of_protocol n k = if k == 23 then n else 0

abbrev udp : Packet
udp = of_protocol 17

abbrev icmp : Packet
icmp = of_protocol 1

calc_score-bounded_example :
    (t : Score) × (calc_score 20 (usual ∷ plain ∷ []) unscored ≡ done t)
    × IsCapped t
    × (t.value ≤ 1001686)
calc_score-bounded_example =
    calc_score-bounded (usual ∷ plain ∷ []) unscored
      ((usual-Progresses, omega arith), ((plain-Progresses, omega arith), tt)) (omega arith)

abbrev id_a : Text
id_a = codes "cam"

-- Its fingerprint is "x".
abbrev camera : CctvStat → Cctv
camera stat = record {
  id = id_a;
  ip = codes "10.0.0.9";
  switch_id = codes "s";
  comment = [];
  time = 5;
  hash = codes "x";
  stat = stat;
}

abbrev core : Table Cctv → Core
core t = record { cctvs = t; watched = one_block id_a; calls = []; answer = λ cs. ok }

abbrev at_zero : Timeval
at_zero = record { sec = 0; usec = 0 }

abbrev idle_timer : Timer
idle_timer = record { timeout = at_zero; base = at_zero; expired = at_zero }

abbrev analyzer : Core → Analyzer
analyzer c = record {
  config = record { ports = 80 ∷ 554 ∷ []; interval = 1000; test = false; error_rate = 0 };
  core = c;
  timers = λ p. idle_timer;
  ports = λ p. [];
  sent = [];
}

-- The camera answers; nothing is captured of it.
abbrev world : World
world = record {
  now = record { sec = 9; usec = 0 };
  secs = 9;
  later = record { sec = 12; usec = 0 };
  replies = 3;
  mac = codes "00:11";
  is_open = λ p. p == 80;
  packets = [];
  fuel = 20;
  random = 0;
  digest = λ t. some (1 ∷ 2 ∷ 3 ∷ 4 ∷ 5 ∷ []);
  entry = some 2;
}

abbrev watching : Analyzer
watching = analyzer (core (one_block (camera normal)))

watching-Can : Can world watching id_a [] (camera normal ∷ []) (camera normal) no_score 2
unfolding same calc_score score_all order order_from is_expired
watching-Can = record {
  watched = one_block-Holds id_a;
  cameras = one_block-Holds (camera normal);
  first = refl;
  due = λ p live value. refl;
  few = omega arith;
  scored = refl;
  entry = refl;
  unused = record { not_head = omega arith; unused = refl };
  small = omega arith;
}

process-Round_example :
    Round world watching
      (id_a ∷ [])
      (camera normal ∷ [])
      (said world watching.config (camera normal) no_score)
process-Round_example =
    process-Round world watching id_a [] (camera normal ∷ []) (camera normal) no_score 2
      watching-Can

process-blocks_example :
    (b : Analyzer) × (process world watching ≡ done (ok, b))
    × (x : Message) × (b.sent ≡ x ∷ [])
    × (r : Ret) × (c : Core) × (on_message (all_memory 20 2 20 2) 7 b.core x ≡ done (r, c))
    × (blocks (codes "s") (codes "10.0.0.9") false c.calls ≡ true)
unfolding same blocks fingerprint hash_sha1
process-blocks_example =
    process-blocks world watching id_a [] (camera normal ∷ []) (camera normal) no_score 2
      watching-Can b'x' [] (all_memory 20 2 20 2) 7 refl refl refl (omega arith) refl

-- The core has no camera.
abbrev without_camera : Analyzer
without_camera = analyzer (core (no_blocks (camera normal)))

rounds_stuck_example :
    Idle without_camera
      (rounds (world ∷ world ∷ []) without_camera)
      (object_not_found ∷ object_not_found ∷ [])
      (id_a ∷ [])
      []
rounds_stuck_example =
    rounds_stuck id_a [] [] (world ∷ world ∷ []) without_camera (one_block-Holds id_a)
      (no_blocks-Holds (camera normal)) refl

hash_data-same_example :
    (hash_data (codes "10.0.0.9") (codes "00:11") (scanned (λ p. p == 80) (80 ∷ 554 ∷ [])) 15
      ≡ hash_data (codes "10.0.0.9") (codes "00:11") (scanned (λ p. true) (80 ∷ 554 ∷ [])) 15)
    ↔ ((scanned (λ p. p == 80) (80 ∷ 554 ∷ []) ≡ scanned (λ p. true) (80 ∷ 554 ∷ []))
        × (◌≡◌ {A = ℕ} 15 15))
hash_data-same_example =
    hash_data-same (λ p. p == 80) (λ p. true) (codes "10.0.0.9") (codes "00:11") (80 ∷ 554 ∷ []) 15
      15 (omega arith) (omega arith)

-- The text of a fingerprint.
hash_data_test :
    hash_data (codes "10.0.0.9") (codes "00:11") ((80, true) ∷ (554, false) ∷ []) 105
    ≡ codes "[ip : 10.0.0.9, mac : 00:11] [port :80 - open, 554 - close][score : 10.5]"
unfolding hash_data ports_text more_ports port_text decimal tenths
hash_data_test = refl
