-- ===== src/Score/Tests.antt =====
-- Runs of lib/ftm_score.c on SYN packets without options, with NOPs and with an option of length 0.
use catchb.Base.{
  ℕ, ◌-◌, ◌<◌, ◌≡◌, true, List, [], ◌∷◌, none, some, get_elem?, ltb, refl, false, arith, ◌==◌,
  if◌then◌else◌,
}
use catchb.Run.{Run, done, fault, blocked, out_of_fuel, IsDone}
use catchb.Score.{Packet, Score}
use catchb.Score.Options.{kind, walks, next, scan_options, option_letters}
use catchb.Score.Tcp.{process_tcp}
use catchb.Score.Walk.{
  Reached, first, after, Progresses, walks-lt, process_tcp_hangs, process_tcp-IsDone,
}
use catchb.Score.Once.{first_syn_decides}

-- A SYN packet with a header of 4 * `words` bytes; the two bytes behind the fixed part, and all others.
abbrev packet : (words b0 b1 rest : ℕ) → Packet
packet words b0 b1 rest k =
    if k == 14
    then 69
    else (if k == 23
        then 6
        else (if k == 46
            then words
            else (if k == 47 then 2 else (if k == 54 then b0 else (if k == 55 then b1 else rest)))))

abbrev pub plain : Packet
plain = packet 80 0 0 0

-- A SYN packet with the options 02 04 05 b4, 01, 03 03 08, 01, 01, 04 02 and a byte 0.
abbrev usual_options : List ℕ
usual_options = 2 ∷ 4 ∷ 5 ∷ 180 ∷ 1 ∷ 3 ∷ 3 ∷ 8 ∷ 1 ∷ 1 ∷ 4 ∷ 2 ∷ 0 ∷ []

abbrev pub usual : Packet
usual k =
    if ltb k 54
    then packet 128 0 0 0 k
    else elim (get_elem? usual_options (k - 54)) [ none ↦ 0 | some b ↦ b ]

abbrev stuck : Packet
stuck = packet 96 2 0 0

abbrev pub unscored : Score
unscored = record {
  value = 0;
  os_matrix = record {
    ttl = false;
    df = false;
    tcp_mss = false;
    window_scale = false;
    window_size = false;
    syn_packet_size = false;
    options_order = false;
    ip_id = false;
  };
}

-- The bytes at which its options start, and their end.
data Start : ℕ → Type 0 where
  at_segment : Start 0
  at_nop : Start 4
  at_scale : Start 5
  at_second : Start 8
  at_third : Start 9
  at_sack : Start 10
  at_end : Start 12

usual-next : (i : ℕ) → Start i → walks usual i ≡ true → Start (next usual i) × (i < next usual i)
unfolding walks next kind
usual-next i at_segment h = (at_nop, omega arith)
usual-next i at_nop h = (at_scale, omega arith)
usual-next i at_scale h = (at_second, omega arith)
usual-next i at_second h = (at_third, omega arith)
usual-next i at_third h = (at_sack, omega arith)
usual-next i at_sack h = (at_end, omega arith)
usual-next i at_end h = cc

usual-Start : (i : ℕ) → Reached usual i → Start i
usual-Start i first = at_segment
usual-Start i (after j at h) = (usual-next j (usual-Start j at) h).0

pub usual-Progresses : Progresses usual
usual-Progresses i at h = (usual-next i (usual-Start i at) h).1

pub plain-Progresses : Progresses plain
plain-Progresses i at h = ground (arith, walks-lt plain i h)

-- The score that a run ends with, 0 points for one that does not.
abbrev outcome : Run Score → Score
outcome (done s) = s
outcome fault = unscored
outcome blocked = unscored
outcome out_of_fuel = unscored

abbrev scored : Score
unfolding process_tcp
scored = outcome (process_tcp 1 plain unscored)

process_tcp_hangs_example : process_tcp 1000 stuck unscored ≡ out_of_fuel
unfolding kind
process_tcp_hangs_example =
    process_tcp_hangs 1000 stuck unscored refl refl
      (record { inside = omega arith; handled = cc; sized = cc; empty = refl })

process_tcp-IsDone_example : IsDone (process_tcp 20 usual unscored)
process_tcp-IsDone_example =
    process_tcp-IsDone usual usual-Progresses 20 unscored (omega arith) (omega arith)

-- Another SYN packet, of which the window and the identification differ.
abbrev later : Packet
later = packet 80 9 9 9

abbrev again : Score
unfolding process_tcp
again = outcome (process_tcp 1 later scored)

first_syn_decides_example : again ≡ scored
unfolding process_tcp scan_options walks option_letters scored again
first_syn_decides_example =
    first_syn_decides 1 1 plain later unscored scored again refl refl refl refl
