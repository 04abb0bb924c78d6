-- ===== src/Score/Caps.antt =====
-- The score is bounded, however many packets are processed (lib/ftm_score.c).
use catchb.Base.{
  ℕ, ◌+◌, ◌*◌, ◌≤◌, ◌≡◌, Bool, false, inl, inr, Option, none, some, List, [], arith, Bool-cases,
  ◌==◌, if◌then◌else◌,
}
use catchb.Run.{done, bind-eq-done}
use catchb.Score.{Packet, Score, OsMatrix, protocol, id, tot_len, process_ip}
use catchb.Score.Options.{Options, no_options, scan_options, option_letters, syn, window}
use catchb.Score.Window.{
  points, mss_points, window_scale_points, low_window_points, middle_window_points,
  high_window_points, window_points, syn_size_points, options_points, ip_id_points,
}
use catchb.Score.Tcp.{
  add_mss, add_window_scale, add_window_size, add_syn_size, add_options, add_ip_id, before_options,
  score_options_order, score_syn, process_tcp,
}

-- The most that the scored properties can have added, in tenths.
abbrev cap : OsMatrix → ℕ
cap m =
    (if m.ttl then 4 else 0)
    + (if m.df then 2 else 0)
    + (if m.tcp_mss then 10 else 0)
    + (if m.window_scale then 70 else 0)
    + (if m.window_size then 27600 else 0)
    + (if m.syn_packet_size then 4000 else 0)
    + (if m.options_order then 770000 else 0)
    + (if m.ip_id then 200000 else 0)

abbrev pub IsCapped : Score → Type 0
IsCapped s = s.value ≤ cap s.os_matrix

points-le : (b : Bool) (n : ℕ) → points b n ≤ 10 * n
unfolding points
points-le b n = ground arith

low_window_points-le : (m w : ℕ) → low_window_points m w ≤ 3600
unfolding low_window_points
low_window_points-le m w = omega (arith, points-le)

middle_window_points-le : (m w : ℕ) → middle_window_points m w ≤ 10000
unfolding middle_window_points
middle_window_points-le m w = omega (arith, points-le)

high_window_points-le : (m w : ℕ) → high_window_points m w ≤ 14000
unfolding high_window_points
high_window_points-le m w = omega (arith, points-le)

window_points-le : (m w : ℕ) → window_points m w ≤ 27600
unfolding window_points
window_points-le m w =
    omega (arith, low_window_points-le m w, middle_window_points-le m w, high_window_points-le m w)

window_scale_points-le : (w : Option ℕ) → window_scale_points w ≤ 70
unfolding window_scale_points
window_scale_points-le none = omega arith
window_scale_points-le (some w) = ground arith

mss_points-le : (m : ℕ) → mss_points m ≤ 10
unfolding mss_points
mss_points-le m = ground arith

syn_size_points-le : (l : ℕ) → syn_size_points l ≤ 4000
unfolding syn_size_points
syn_size_points-le l = ground arith

first_points-le : (a b : Bool) → (if a then 10 * 1000 else points b 2000) ≤ 20000
unfolding points
first_points-le a b = ground arith

options_points-le : (l : List ℕ) → options_points l ≤ 770000
unfolding options_points
options_points-le l = omega (arith, points-le, first_points-le)

ip_id_points-le : (i : ℕ) → ip_id_points i ≤ 200000
unfolding ip_id_points
ip_id_points-le i = ground arith

-- The IP part of the score stays within its caps.
pub process_ip-IsCapped : (p : Packet) (s : Score) → IsCapped s → IsCapped (process_ip p s)
unfolding process_ip
process_ip-IsCapped p s h = ground arith

add_mss-IsCapped : (m : ℕ) (s : Score) → IsCapped s → IsCapped (add_mss m s)
unfolding add_mss
add_mss-IsCapped m s h = ground (arith, mss_points-le m)

add_window_scale-IsCapped :
    (w : Option ℕ) (s : Score) → IsCapped s → IsCapped (add_window_scale w s)
unfolding add_window_scale
add_window_scale-IsCapped w s h = ground (arith, window_scale_points-le w)

add_syn_size-IsCapped : (l : ℕ) (s : Score) → IsCapped s → IsCapped (add_syn_size l s)
unfolding add_syn_size
add_syn_size-IsCapped l s h = ground (arith, syn_size_points-le l)

add_ip_id-IsCapped : (i : ℕ) (s : Score) → IsCapped s → IsCapped (add_ip_id i s)
unfolding add_ip_id
add_ip_id-IsCapped i s h = ground (arith, ip_id_points-le i)

add_window_size-IsCapped : (m w : ℕ) (s : Score) → IsCapped s → IsCapped (add_window_size m w s)
unfolding add_window_size
add_window_size-IsCapped m w s h = ground (arith, window_points-le m w)

add_options-IsCapped :
    (l : List ℕ) (s : Score)
    → s.os_matrix.options_order ≡ false
    → IsCapped s
    → IsCapped (add_options l s)
unfolding add_options
add_options-IsCapped l s new h = ground (arith, options_points-le l)

score_options_order-IsCapped :
    (n : ℕ) (p : Packet) (s t : Score)
    → score_options_order n p s ≡ done t
    → IsCapped s
    → IsCapped t
unfolding score_options_order
score_options_order-IsCapped n p s t e h = elim (Bool-cases s.os_matrix.options_order) [
  | inl old ↦ ground arith
  | inr new ↦
      let (l, _, last) =
        bind-eq-done (option_letters n p 0 []) (λ l. done (add_options l s)) {b = t}
          (ground arith) in
      ground (arith, add_options-IsCapped l s new h)
]

before_options-IsCapped :
    (p : Packet) (o : Options) (s : Score) → IsCapped s → IsCapped (before_options p o s)
unfolding before_options
before_options-IsCapped p o s h = add_syn_size-IsCapped (tot_len p) _ (
    add_window_size-IsCapped o.mss (window p) _
      (add_window_scale-IsCapped o.window_scale _ (add_mss-IsCapped o.mss s h)))

score_syn-IsCapped :
    (n : ℕ) (p : Packet) (o : Options) (s t : Score)
    → score_syn n p o s ≡ done t
    → IsCapped s
    → IsCapped t
unfolding score_syn
score_syn-IsCapped n p o s t e h =
    let s' = before_options p o s in
    let (u, first, last) =
      bind-eq-done (score_options_order n p s') (λ u. done (add_ip_id (id p) u)) e in
    let kept = score_options_order-IsCapped n p s' u first (before_options-IsCapped p o s h) in
    ground (arith, add_ip_id-IsCapped (id p) u kept)

-- On a packet that is processed to its end the TCP part keeps the score within the sum of the
-- most that each scored property can add.
pub process_tcp-IsCapped :
    (n : ℕ) (p : Packet) (s t : Score) → process_tcp n p s ≡ done t → IsCapped s → IsCapped t
unfolding process_tcp
process_tcp-IsCapped n p s t e h = elim (Bool-cases (protocol p == 6)) [
  | inr other ↦ ground arith
  | inl tcp ↦ elim (Bool-cases (syn p)) [
    | inr later ↦ ground arith
    | inl first ↦
        let (o, _, last) =
          bind-eq-done (scan_options n p 0 no_options) (λ o. score_syn n p o s) {b = t}
            (ground arith) in
        score_syn-IsCapped n p o s t last h
  ]
]

-- All caps together.
pub cap-le : (m : OsMatrix) → cap m ≤ 1001686
cap-le m = ground arith
