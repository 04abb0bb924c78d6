-- ===== src/Score/Walk.antt =====
-- When the walks over the TCP options of lib/ftm_score.c end, and when `pOptions` overflows.
use catchb.Base.{
  ℕ, zero, suc, ◌+◌, ◌-◌, ◌≤◌, ◌<◌, ◌≡◌, ◌≢◌, refl, true, false, inl, inr, List, [], ◌∷◌, ◌++◌,
  arith, Bool-cases, ◌==◌, length, length-append,
}
use catchb.Run.{done, fault, out_of_fuel, IsDone, bind-IsDone}
use catchb.Score.{Packet, Score, protocol, id}
use catchb.Score.Options.{
  Options, no_options, stop, nop, kind, walks, next, tcp_opt_len, option_byte, syn, scan_options,
  has_room, option_letters, letter, read_option,
}
use catchb.Score.Tcp.{
  add_options, add_ip_id, before_options, score_options_order, score_syn, process_tcp,
}

-- The indexes at which the walks look for an option.
pub data Reached (p : Packet) : ℕ → Type 0 where
  first : Reached p 0
  after : (i : ℕ) → Reached p i → walks p i ≡ true → Reached p (next p i)

-- Every option that the walks come to and handle moves the index ahead.
abbrev pub Progresses : Packet → Type 0
Progresses p = (i : ℕ) → Reached p i → walks p i ≡ true → i < next p i

pub walks-lt : (p : Packet) (i : ℕ) → walks p i ≡ true → i < tcp_opt_len p
unfolding walks
walks-lt p i h = ground arith

-- An option that is not a NOP and says that its length is 0.
pub record IsStuck (p : Packet) (i : ℕ) : Type 0 where
  pub inside : i < tcp_opt_len p
  pub handled : kind (option_byte p i) ≢ stop
  pub sized : kind (option_byte p i) ≢ nop
  pub empty : option_byte p (i + 1) ≡ 0

IsStuck-walks : (p : Packet) (i : ℕ) → IsStuck p i → walks p i ≡ true
unfolding walks
IsStuck-walks p i h = ground arith

IsStuck-next : (p : Packet) (i : ℕ) → IsStuck p i → next p i ≡ i
unfolding next
IsStuck-next p i h = ground arith

-- The loop stays at such an option for ever.
scan_options-stuck :
    (n : ℕ) (p : Packet) (i : ℕ) (o : Options) → IsStuck p i → scan_options n p i o ≡ out_of_fuel
unfolding scan_options
scan_options-stuck zero p i o h = refl
scan_options-stuck (suc n) p i o h =
    rw (IsStuck-walks p i h, scan_options)
      (rw (IsStuck-next p i h) (scan_options-stuck n p i (read_option p i o) h))

-- A SYN packet whose first option is handled, is not a NOP and says that its length is 0 is
-- never finished: with no number of rounds does the first loop over the options end.
pub process_tcp_hangs :
    (fuel : ℕ) (p : Packet) (s : Score)
    → protocol p ≡ 6
    → syn p ≡ true
    → IsStuck p 0
    → process_tcp fuel p s ≡ out_of_fuel
unfolding process_tcp
process_tcp_hangs fuel p s tcp is_syn h = ground (arith, scan_options-stuck fuel p 0 no_options h)

module _ (p : Packet) (ahead : Progresses p) where
  scan_options-IsDone :
      (n i : ℕ) (o : Options) → Reached p i → tcp_opt_len p - i < n → IsDone (scan_options n p i o)
  unfolding scan_options
  scan_options-IsDone zero i o at h = elim h [ ]
  scan_options-IsDone (suc n) i o at h = elim (Bool-cases (walks p i)) [
    | inl more ↦
        let lt = walks-lt p i more in
        let go = ahead i at more in
        rw (more, scan_options)
          (scan_options-IsDone n (next p i) (read_option p i o) (after i at more) (omega arith))
    | inr stopped ↦ (o, rw (stopped, scan_options))
  ]

  -- The letters so far are at most as many as the bytes walked over.
  option_letters-IsDone :
      (n i : ℕ) (l : List ℕ)
      → Reached p i
      → tcp_opt_len p ≤ 19
      → length l ≤ i
      → tcp_opt_len p - i < n
      → IsDone (option_letters n p i l)
  unfolding option_letters has_room
  option_letters-IsDone zero i l at short few h = elim h [ ]
  option_letters-IsDone (suc n) i l at short few h = elim (Bool-cases (walks p i)) [
    | inl more ↦
        let lt = walks-lt p i more in
        let go = ahead i at more in
        let room : has_room l ≡ true = ground arith in
        rw (more, room, option_letters)
          (option_letters-IsDone n (next p i) (l ++ letter p i ∷ []) (after i at more) short
            (omega (arith, length-append l (letter p i ∷ []))) (omega arith))
    | inr stopped ↦ (l, rw (stopped, option_letters))
  ]

  score_options_order-IsDone :
      (n : ℕ) (s : Score)
      → tcp_opt_len p ≤ 19
      → tcp_opt_len p < n
      → IsDone (score_options_order n p s)
  unfolding score_options_order
  score_options_order-IsDone n s short enough = elim (Bool-cases s.os_matrix.options_order) [
    | inl old ↦ (s, rw old)
    | inr new ↦ rw new (
        bind-IsDone (option_letters n p 0 []) (λ l. done (add_options l s))
          (option_letters-IsDone n 0 [] first short (omega arith) (omega arith))
          (λ l. (add_options l s, refl)))
  ]

  score_syn-IsDone :
      (n : ℕ) (o : Options) (s : Score)
      → tcp_opt_len p ≤ 19
      → tcp_opt_len p < n
      → IsDone (score_syn n p o s)
  unfolding score_syn
  score_syn-IsDone n o s short enough =
      bind-IsDone (score_options_order n p (before_options p o s)) (λ t. done (add_ip_id (id p) t))
        (score_options_order-IsDone n (before_options p o s) short enough)
        (λ t. (add_ip_id (id p) t, refl))

  -- If every option of a packet that the walk comes to moves the index ahead and its options
  -- take at most 19 bytes, the TCP part ends without overflow, in any number of rounds above
  -- the number of bytes of options.
  pub process_tcp-IsDone :
      (fuel : ℕ) (s : Score)
      → tcp_opt_len p ≤ 19
      → tcp_opt_len p < fuel
      → IsDone (process_tcp fuel p s)
  unfolding process_tcp
  process_tcp-IsDone fuel s short enough = elim (Bool-cases (protocol p == 6)) [
    | inr other ↦ (s, rw other)
    | inl tcp ↦ elim (Bool-cases (syn p)) [
      | inr later ↦ (s, rw (tcp, later))
      | inl is_syn ↦
          rw (tcp, is_syn)
            (bind-IsDone (scan_options fuel p 0 no_options) (λ o. score_syn fuel p o s)
              (scan_options-IsDone fuel 0 no_options first (omega arith))
              (λ o. score_syn-IsDone fuel o s short enough))
    ]
  ]

-- At a NOP the loop adds a letter and goes on with the next byte.
letters-nops :
    (n i : ℕ) (p : Packet) (l : List ℕ)
    → ((k : ℕ) → k < 20 → option_byte p k ≡ 1)
    → 20 ≤ tcp_opt_len p
    → i ≡ length l
    → length l ≤ 19
    → 19 - length l < n
    → option_letters n p i l ≡ fault
unfolding option_letters walks next has_room
letters-nops zero i p l nops long e few enough = elim enough [ ]
letters-nops (suc n) i p l nops long e few enough = ground (
  arith,
  nops i (omega arith),
  letters-nops n (i + 1) p (l ++ letter p i ∷ []) nops long,
  length-append l (letter p i ∷ []),
)

-- If the options of a SYN packet take at least 20 bytes of which the first 20 are NOPs, every
-- option moves the index ahead and the order of the options is not scored yet, the letters
-- overflow the 20 bytes of pOptions.
process_tcp_overflows :
    (fuel : ℕ) (p : Packet) (s : Score)
    → protocol p ≡ 6
    → syn p ≡ true
    → s.os_matrix.options_order ≡ false
    → Progresses p
    → ((k : ℕ) → k < 20 → option_byte p k ≡ 1)
    → 20 ≤ tcp_opt_len p
    → tcp_opt_len p < fuel
    → process_tcp fuel p s ≡ fault
unfolding process_tcp score_syn score_options_order before_options
process_tcp_overflows fuel p s tcp is_syn fresh ahead nops long enough =
    let (o, scanned) = scan_options-IsDone p ahead fuel 0 no_options first (omega arith) in
    ground (arith, scanned, letters-nops fuel 0 p [] nops long refl (omega arith) (omega arith))
