-- ===== src/Score/Once.antt =====
-- Each property is scored once (lib/ftm_score.c): the first SYN packet decides.
use catchb.Base.{ℕ, ◌≡◌, true, inl, inr, arith, Bool-cases, ◌==◌}
use catchb.Run.{done, bind-eq-done}
use catchb.Score.{Packet, Score, protocol, id}
use catchb.Score.Options.{Options, no_options, scan_options, syn}
use catchb.Score.Tcp.{add_ip_id, before_options, score_options_order, score_syn, process_tcp}

-- Every property of the TCP part is scored.
pub record IsScored (s : Score) : Type 0 where
  pub tcp_mss : s.os_matrix.tcp_mss ≡ true
  pub window_scale : s.os_matrix.window_scale ≡ true
  pub window_size : s.os_matrix.window_size ≡ true
  pub syn_packet_size : s.os_matrix.syn_packet_size ≡ true
  pub options_order : s.os_matrix.options_order ≡ true
  pub ip_id : s.os_matrix.ip_id ≡ true

score_options_order-flags :
    (n : ℕ) (p : Packet) (s t : Score)
    → score_options_order n p s ≡ done t
    → t.os_matrix ≡ record s.os_matrix { options_order = true }
unfolding score_options_order
score_options_order-flags n p s t h = ground arith

score_syn-IsScored :
    (n : ℕ) (p : Packet) (o : Options) (s t : Score) → score_syn n p o s ≡ done t → IsScored t
unfolding score_syn before_options add_ip_id
score_syn-IsScored n p o s t h =
    let (u, first, last) =
      bind-eq-done (score_options_order n p (before_options p o s)) (λ u. done (add_ip_id (id p) u))
        h in
    ground (arith, score_options_order-flags n p (before_options p o s) u first, last)

-- The packet that sets the flags.
process_tcp-IsScored :
    (n : ℕ) (p : Packet) (s t : Score)
    → protocol p ≡ 6
    → syn p ≡ true
    → process_tcp n p s ≡ done t
    → IsScored t
unfolding process_tcp
process_tcp-IsScored n p s t tcp is_syn h =
    let (o, _, last) =
      bind-eq-done (scan_options n p 0 no_options) (λ o. score_syn n p o s) (ground arith) in
    score_syn-IsScored n p o s t last

score_syn_scored :
    (n : ℕ) (p : Packet) (o : Options) (s : Score) → IsScored s → score_syn n p o s ≡ done s
unfolding score_syn before_options score_options_order add_ip_id
score_syn_scored n p o s v = ground arith

process_tcp_scored :
    (n : ℕ) (p : Packet) (s t : Score) → IsScored s → process_tcp n p s ≡ done t → t ≡ s
unfolding process_tcp
process_tcp_scored n p s t v h = elim (Bool-cases (protocol p == 6)) [
  | inr other ↦ ground arith
  | inl tcp ↦ elim (Bool-cases (syn p)) [
    | inr later ↦ ground arith
    | inl first ↦
        let (o, _, last) =
          bind-eq-done (scan_options n p 0 no_options) (λ o. score_syn n p o s) {b = t}
            (ground arith) in
        cc (score_syn_scored n p o s v)
  ]
]

-- Once a SYN packet has been processed to its end, no later packet that is processed to its end
-- changes the score or a flag by the TCP part.
pub first_syn_decides :
    (n m : ℕ) (p q : Packet) (s t u : Score)
    → protocol p ≡ 6
    → syn p ≡ true
    → process_tcp n p s ≡ done t
    → process_tcp m q t ≡ done u
    → u ≡ t
first_syn_decides n m p q s t u tcp is_syn first later =
    process_tcp_scored m q t u (process_tcp-IsScored n p s t tcp is_syn first) later
