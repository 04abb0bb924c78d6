-- ===== src/Analyzer/Scores.antt =====
-- The score of a capture, as `FTM_ANALIZER_PCAP_calcScore` of lib/ftm_analyzer.c computes it.
use mathlib.Core.List.{Permᴰ}
use catchb.Base.{ℕ, ◌≤◌, ◌≡◌, refl, arith, List, [], ◌∷◌}
use catchb.Run.{done, IsDone, bind-IsDone, bind-eq-done, done-injective}
use catchb.Score.{Packet, Score, process_ip}
use catchb.Score.Options.{tcp_opt_len}
use catchb.Score.Tcp.{process_tcp}
use catchb.Score.Walk.{Progresses, process_tcp-IsDone}
use catchb.Score.Caps.{IsCapped, cap-le, process_ip-IsCapped, process_tcp-IsCapped}
use catchb.Analyzer.{score_all, calc_score, order}
use catchb.Analyzer.Order.{order-perm}

-- Every option of each packet moves the walks ahead, and its options take at most 19 bytes.
abbrev AllWalkable : List Packet → Type 0
AllWalkable [] = Unit {0}
AllWalkable (p ∷ ps) = (Progresses p × (tcp_opt_len p ≤ 19)) × AllWalkable ps

AllWalkable-perm : {ps qs : List Packet} → Permᴰ ps qs → AllWalkable ps → AllWalkable qs
AllWalkable-perm Permᴰ.nil h = h
AllWalkable-perm (Permᴰ.cons e d) (h, k) = (rw (← e) h, AllWalkable-perm d k)
AllWalkable-perm (Permᴰ.swap e f) (h, (k, l)) = (rw (← f) k, (rw (← e) h, l))
AllWalkable-perm (Permᴰ.trans d e) h = AllWalkable-perm e (AllWalkable-perm d h)

score_all-IsDone : (ps : List Packet) (s : Score) → AllWalkable ps → IsDone (score_all 20 ps s)
unfolding score_all
score_all-IsDone [] s h = (s, refl)
score_all-IsDone (p ∷ ps) s ((ahead, short), h) =
    bind-IsDone (process_tcp 20 p (process_ip p s)) (λ t. score_all 20 ps t)
      (process_tcp-IsDone p ahead 20 (process_ip p s) short (omega arith))
      (λ t. score_all-IsDone ps t h)

score_all-IsCapped :
    (n : ℕ) (ps : List Packet) (s t : Score) → score_all n ps s ≡ done t → IsCapped s → IsCapped t
unfolding score_all
score_all-IsCapped n [] s t e h = rw (← done-injective e) h
score_all-IsCapped n (p ∷ ps) s t e h =
    let (u, first, last) =
      bind-eq-done (process_tcp n p (process_ip p s)) (λ u. score_all n ps u) e in
    score_all-IsCapped n ps u t last
      (process_tcp-IsCapped n p (process_ip p s) u first (process_ip-IsCapped p s h))

-- If in each captured packet every TCP option that the walk comes to moves it ahead and the
-- options take at most 19 bytes, scoring a capture from a score within its caps ends without
-- overflow, with 20 rounds for each walk, and the score stays within the caps of what is scored
-- and is at most 100168.6, however many packets there are.
pub calc_score-bounded :
    (ps : List Packet) (s : Score)
    → AllWalkable ps
    → IsCapped s
    → (t : Score) × (calc_score 20 ps s ≡ done t) × IsCapped t × (t.value ≤ 1001686)
unfolding calc_score
calc_score-bounded ps s walkable h =
    let (t, e) = score_all-IsDone (order ps) s (AllWalkable-perm (order-perm ps) walkable) in
    let capped = score_all-IsCapped 20 (order ps) s t e h in
    (t, e, capped, omega (arith, capped, cap-le t.os_matrix))
