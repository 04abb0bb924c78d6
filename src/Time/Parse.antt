-- ===== src/Time/Parse.antt =====
-- `FTM_TIME_setString` of lib/ftm_time.c. A text is the list of its characters up to the NUL.
pub mod Texts
use catchb.Base.{
  Text, ℕ, ◌+◌, ◌-◌, ◌*◌, ◌^◌, Bool, true, false, not, ◌&&◌, none, some, List, [], ◌∷◌, ◌++◌, leb,
  ◌==◌, if◌then◌else◌, length, get_elem?, take, drop, min,
}
use catchb.Ret.{Ret, ok, invalid_format}
use catchb.Timer.{Timeval}
use catchb.Time.{Tm, zero_tm}

-- The three formats given to `strptime`.
pub data Format : Type 0 where
  date date_minutes date_seconds : Format

-- `strptime` fills some fields of a struct and keeps the others.
pub record Calendar : Type 0 where
  pub strptime : Text → Format → Tm → Tm
  pub mktime : Tm → ℕ
  pub localtime : ℕ → Tm

abbrev is_digit : ℕ → Bool
is_digit c = leb b'0' c && leb c b'9'

abbrev pub all_digits : Text → Bool
all_digits [] = true
all_digits (c ∷ s) = is_digit c && all_digits s

-- `pString[i] == c`, within the text.
abbrev pub is_at : Text → (i c : ℕ) → Bool
is_at s i c = elim (get_elem? s i) [ none ↦ false | some d ↦ d == c ]

abbrev two : Text → (i : ℕ) → Text
two s i = take 2 (drop i s)

-- "YYYY-MM-DD hh:mm:ss" from the fourteen digits.
abbrev pub spaced : Text → Text
spaced s =
    take 4 s
    ++ (b'-' ∷ two s 4)
    ++ (b'-' ∷ two s 6)
    ++ (b' ' ∷ two s 8)
    ++ (b':' ∷ two s 10)
    ++ (b':' ∷ two s 12)

-- `strtoul` of digits stops at ULONG_MAX.
abbrev to_number : ℕ → Text → ℕ
to_number n [] = n
to_number n (c ∷ s) = to_number (n * 10 + (c - b'0')) s

strtoul : Text → ℕ
strtoul s = min (2 ^ 64 - 1) (to_number 0 s)

-- `pString[i] == c` for each of the marks, within the text.
pub is_marked : Text → List (ℕ × ℕ) → Bool
is_marked s [] = true
is_marked s ((i, c) ∷ ms) = is_at s i c && is_marked s ms

abbrev set_to : ℕ → Ret × Timeval
set_to secs = (ok, record { sec = secs; usec = 0 })

-- The branches from sixteen characters on. For twelve of them "20" goes in front.
set_longer : Calendar → (garbage : Tm) → Timeval → Text → Ret × Timeval
unfolding strtoul is_marked
set_longer cal garbage t s =
    if length s == 16
    then (if is_marked s ((4, b'/') ∷ (7, b'/') ∷ (10, b'/') ∷ (13, b'/') ∷ [])
        then set_to (cal.mktime (cal.strptime s date_minutes zero_tm))
        else (invalid_format, t))
    else (if length s == 19
        then (if is_marked s ((4, b'-') ∷ (7, b'-') ∷ (10, b' ') ∷ (13, b':') ∷ (16, b':') ∷ [])
            then set_to (cal.mktime (cal.strptime s date_seconds zero_tm))
            else (invalid_format, t))
        else (if not (all_digits s)
            then (invalid_format, t)
            else (if length s == 12
                then set_to
                    (cal.mktime (cal.strptime (spaced (b'2' ∷ b'0' ∷ s)) date_seconds garbage))
                else (if length s == 14
                    then set_to (cal.mktime (cal.strptime (spaced s) date_seconds garbage))
                    else set_to (cal.mktime (cal.localtime (strtoul s)))))))

-- `garbage` is what `xTM` holds before it is set. A date of ten characters goes on to the other
-- branches, since no `else` stands before them.
pub set_string : Calendar → (garbage : Tm) → Timeval → Text → Ret × Timeval
unfolding set_longer is_marked
set_string cal garbage t s =
    if length s == 10 && not (is_marked s ((4, b'/') ∷ (7, b'/') ∷ []))
    then (invalid_format, t)
    else set_longer cal garbage t s
