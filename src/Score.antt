-- ===== src/Score.antt =====
-- lib/ftm_score.c and lib/ftm_score.h: the fingerprint score of a camera's packets. `fValue` is a
-- double to which tenths are added and which is printed with one digit: here it counts tenths. A
-- packet is the memory behind `pPacket`, a function from offset to byte; the code takes a length
-- and never looks at it. The bit fields of `struct iphdr` and `struct tcphdr` and the `htons` of
-- a field are read from the bytes in network order.
pub mod Options
pub mod Window
pub mod Tcp
pub mod Walk
pub mod Caps
pub mod Once
pub mod Tests
use Prim.Native.Nat.{bit_and}
use catchb.Base.{ℕ, ◌+◌, ◌*◌, Bool, true, ◌&&◌, ltb, leb, ◌==◌, if◌then◌else◌}

abbrev pub Packet : Type 0
Packet = ℕ → ℕ

-- Which properties have already been scored.
pub record OsMatrix : Type 0 where
  pub ttl : Bool
  pub df : Bool
  pub tcp_mss : Bool
  pub window_scale : Bool
  pub window_size : Bool
  pub syn_packet_size : Bool
  pub options_order : Bool
  pub ip_id : Bool

pub record Score : Type 0 where
  pub value : ℕ
  pub os_matrix : OsMatrix

-- The 16-bit field in network order at an offset.
abbrev field16 : Packet → ℕ → ℕ
field16 p k = p k * 256 + p (k + 1)

-- The fields of the IP header, which starts behind the 14 bytes of the Ethernet header.
abbrev tot_len : Packet → ℕ
tot_len p = field16 p 16

abbrev id : Packet → ℕ
id p = field16 p 18

abbrev frag_off : Packet → ℕ
frag_off p = field16 p 20

abbrev ttl : Packet → ℕ
ttl p = p 22

abbrev pub protocol : Packet → ℕ
protocol p = p 23

ttl_points : ℕ → ℕ
ttl_points t =
    if ltb 0 t && leb t 32
    then 1
    else (if ltb 32 t && leb t 64
        then 2
        else (if ltb 64 t && leb t 128 then 3 else (if ltb 128 t && leb t 255 then 4 else 0)))

df_points : ℕ → ℕ
df_points f = if bit_and f 0x4000 == 0 then 1 else (if bit_and f 0x4000 == 0x4000 then 2 else 0)

score_ttl : Packet → Score → Score
unfolding ttl_points
score_ttl p s = if s.os_matrix.ttl then s else record s {
  value = s.value + ttl_points (ttl p);
  os_matrix = record s.os_matrix { ttl = true };
}

score_df : Packet → Score → Score
unfolding df_points
score_df p s = if s.os_matrix.df then s else record s {
  value = s.value + df_points (frag_off p);
  os_matrix = record s.os_matrix { df = true };
}

unfoldable pub process_ip : Packet → Score → Score
unfolding score_ttl score_df
process_ip p s = score_df p (score_ttl p s)
