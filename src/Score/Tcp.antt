-- ===== src/Score/Tcp.antt =====
-- `FTM_SCORE_processTCP` of lib/ftm_score.c: each property is scored once, on the first SYN packet.
use catchb.Base.{ℕ, ◌+◌, true, not, Option, List, [], ◌==◌, if◌then◌else◌}
use catchb.Run.{Run, done, ◌>>=◌}
use catchb.Score.{Packet, Score, protocol, tot_len, id}
use catchb.Score.Options.{Options, no_options, scan_options, option_letters, syn, window}
use catchb.Score.Window.{
  mss_points, window_scale_points, window_points, syn_size_points, options_points, ip_id_points,
}

-- A property that is scored already adds nothing.
unfoldable pub add_mss : ℕ → Score → Score
add_mss m s = if s.os_matrix.tcp_mss then s else record s {
  value = s.value + mss_points m;
  os_matrix = record s.os_matrix { tcp_mss = true };
}

unfoldable pub add_window_scale : Option ℕ → Score → Score
add_window_scale w s = if s.os_matrix.window_scale then s else record s {
  value = s.value + window_scale_points w;
  os_matrix = record s.os_matrix { window_scale = true };
}

unfoldable pub add_window_size : ℕ → ℕ → Score → Score
add_window_size m w s = if s.os_matrix.window_size then s else record s {
  value = s.value + window_points m w;
  os_matrix = record s.os_matrix { window_size = true };
}

unfoldable pub add_syn_size : ℕ → Score → Score
add_syn_size len s = if s.os_matrix.syn_packet_size then s else record s {
  value = s.value + syn_size_points len;
  os_matrix = record s.os_matrix { syn_packet_size = true };
}

unfoldable pub add_options : List ℕ → Score → Score
add_options l s = record s {
  value = s.value + options_points l;
  os_matrix = record s.os_matrix { options_order = true };
}

unfoldable pub add_ip_id : ℕ → Score → Score
add_ip_id i s = if s.os_matrix.ip_id then s else record s {
  value = s.value + ip_id_points i;
  os_matrix = record s.os_matrix { ip_id = true };
}

-- The letters are collected only if the order is not scored yet.
unfoldable pub score_options_order : ℕ → Packet → Score → Run Score
unfolding add_options
score_options_order fuel p s =
    if s.os_matrix.options_order
    then done s
    else (do l ← option_letters fuel p 0 []; done (add_options l s))

-- The blocks between the first loop and the second.
unfoldable pub before_options : Packet → Options → Score → Score
unfolding add_mss add_window_scale add_window_size add_syn_size
before_options p o s =
    add_syn_size (tot_len p)
      (add_window_size o.mss (window p) (add_window_scale o.window_scale (add_mss o.mss s)))

-- The body of `if (pTCPHdr->syn)`, behind the first loop.
unfoldable pub score_syn : ℕ → Packet → Options → Score → Run Score
unfolding before_options score_options_order add_ip_id
score_syn fuel p o s = do
  s' ← score_options_order fuel p (before_options p o s)
  done (add_ip_id (id p) s')

unfoldable pub process_tcp : ℕ → Packet → Score → Run Score
unfolding score_syn
process_tcp fuel p s =
    if not (protocol p == 6)
    then done s
    else (if not (syn p)
        then done s
        else (do o ← scan_options fuel p 0 no_options; score_syn fuel p o s))
