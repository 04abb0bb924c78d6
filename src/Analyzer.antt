-- ===== src/Analyzer.antt =====
-- The part of lib/ftm_analyzer.c that scores the captured packets, `FTM_ANALIZER_PCAP_calcScore`. The
-- captured packets are a list in the order of `ppCapturePackets`.
pub mod Watch
pub mod Order
pub mod Scores
pub mod Print
pub mod Process
mod Tests
use catchb.Base.{ℕ, zero, suc, Bool, List, [], ◌∷◌, length, ltb, if◌then◌else◌}
use catchb.Run.{Run, done, ◌>>=◌}
use catchb.Score.{Packet, Score, protocol, process_ip}
use catchb.Score.Tcp.{process_tcp}

-- The inner loop for the place of `first`. `header` is `pIPHdr1`, which is read before the loop and stays
-- with its packet when the packets change places.
sift : (header : Packet) → (first : Packet) → List Packet → Packet × List Packet
sift header first [] = (first, [])
sift header first (p ∷ ps) =
    let (f, l) = if ltb (protocol p) (protocol header) then (p, first) else (first, p) in
    let (f', ps') = sift header f ps in (f', l ∷ ps')

-- The outer loop over the places, as many as there are packets.
order_from : (places : ℕ) → List Packet → List Packet
unfolding sift
order_from zero ps = ps
order_from (suc n) [] = []
order_from (suc n) (p ∷ ps) = let (f, ps') = sift p p ps in f ∷ order_from n ps'

pub order : List Packet → List Packet
unfolding order_from
order ps = order_from (length ps) ps

-- The second loop; `fuel` is that of the walks over the TCP options.
score_all : (fuel : ℕ) → List Packet → Score → Run Score
unfolding process_ip process_tcp
score_all fuel [] s = done s
score_all fuel (p ∷ ps) s = do s' ← process_tcp fuel p (process_ip p s); score_all fuel ps s'

pub calc_score : (fuel : ℕ) → List Packet → Score → Run Score
unfolding order score_all
calc_score fuel ps s = score_all fuel (order ps) s
