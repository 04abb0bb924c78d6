-- ===== src/Score/Options.antt =====
-- The walks over the TCP options in lib/ftm_score.c, on fuel. The index is an `int` in the source
-- and stays far below its limit on every run that ends.
use catchb.Base.{
  ℕ, zero, suc, ◌+◌, ◌-◌, ◌*◌, ◌/◌, ◌%◌, ◌^◌, Bool, true, false, not, ◌&&◌, Option, none, some,
  List, [], ◌∷◌, ◌++◌, leb, ltb, ◌==◌, if◌then◌else◌, length,
}
use catchb.Run.{Run, done, fault, out_of_fuel}
use catchb.Score.{Packet}

-- `ihl * 4`
abbrev ip_header_len : Packet → ℕ
ip_header_len p = p 14 % 16 * 4

-- A byte of the TCP header.
abbrev tcp_byte : Packet → ℕ → ℕ
tcp_byte p k = p (14 + ip_header_len p + k)

-- `doff * 4 - 20` in 32 bits: it wraps if `doff` is below 5.
abbrev pub tcp_opt_len : Packet → ℕ
tcp_opt_len p = (tcp_byte p 12 / 16 * 4 + 2 ^ 32 - 20) % 2 ^ 32

abbrev pub syn : Packet → Bool
syn p = tcp_byte p 13 / 2 % 2 == 1

abbrev pub window : Packet → ℕ
window p = tcp_byte p 14 * 256 + tcp_byte p 15

-- `pPacket[ETH_HLEN + ulIPHdrLen + 20 + i]`
abbrev pub option_byte : Packet → ℕ → ℕ
option_byte p i = tcp_byte p (20 + i)

-- The cases of the `switch`; `stop` is case 0 and the default.
pub data Kind : Type 0 where
  stop nop max_seg wscale sack_ok timestamp : Kind

unfoldable pub kind : ℕ → Kind
kind b =
    if b == 1
    then nop
    else (if b == 2
        then max_seg
        else (if b == 3
            then wscale
            else (if b == 4 then sack_ok else (if b == 8 then timestamp else stop))))

abbrev is_stop : Kind → Bool
is_stop stop = true
is_stop _ = false

-- Whether the loop handles an option at this index and goes on.
unfoldable pub walks : Packet → ℕ → Bool
unfolding kind
walks p i = ltb i (tcp_opt_len p) && not (is_stop (kind (option_byte p i)))

abbrev next_of : Kind → ℕ → ℕ → ℕ
next_of nop i len = i + 1
next_of _ i len = i + len

unfoldable pub next : Packet → ℕ → ℕ
unfolding kind
next p i = next_of (kind (option_byte p i)) i (option_byte p (i + 1))

-- `ulTCPMSS`, and `nWindowScale` with `none` for -1.
pub record Options : Type 0 where
  pub mss : ℕ
  pub window_scale : Option ℕ

abbrev pub no_options : Options
no_options = record { mss = 0; window_scale = none }

abbrev read_of : Kind → Packet → ℕ → Options → Options
read_of max_seg p i o = record o {
  mss = (option_byte p (i + 2) * 256 + option_byte p (i + 3)) % 2 ^ 16;
}
read_of wscale p i o = record o { window_scale = some (option_byte p (i + 2)) }
read_of _ p i o = o

unfoldable pub read_option : Packet → ℕ → Options → Options
unfolding kind
read_option p i o = read_of (kind (option_byte p i)) p i o

-- The first loop: the segment size and the window scale.
unfoldable pub scan_options : ℕ → Packet → ℕ → Options → Run Options
scan_options zero p i o = out_of_fuel
scan_options (suc n) p i o = elim (walks p i) [
  | true ↦ scan_options n p (next p i) (read_option p i o)
  | false ↦ done o
]

-- The letter that `strcat` adds.
abbrev letter_of : Kind → ℕ
letter_of nop = b'N'
letter_of max_seg = b'M'
letter_of wscale = b'W'
letter_of sack_ok = b'S'
letter_of timestamp = b'T'
letter_of stop = 0

unfoldable pub letter : Packet → ℕ → ℕ
unfolding kind
letter p i = letter_of (kind (option_byte p i))

-- `strcat` into `pOptions[20]`: one letter and the final 0 fit behind at most 18 letters.
unfoldable pub has_room : List ℕ → Bool
has_room l = leb (length l) 18

-- The second loop: the letters of the options, in order.
unfoldable pub option_letters : ℕ → Packet → ℕ → List ℕ → Run (List ℕ)
option_letters zero p i l = out_of_fuel
option_letters (suc n) p i l = elim (walks p i) [
  | true ↦ elim (has_room l) [
    | true ↦ option_letters n p (next p i) (l ++ letter p i ∷ [])
    | false ↦ fault
  ]
  | false ↦ done l
]
