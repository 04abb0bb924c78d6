-- ===== src/Time/Tests.antt =====
-- Runs of lib/ftm_time.c.
use catchb.Base.{Text, ◌≡◌, refl, [], ◌∷◌, length, codes}
use catchb.Timer.{Timeval}
use catchb.Time.{Tm, zero_tm}
use catchb.Time.Parse.{Calendar, set_string}
use catchb.Time.Parse.Texts.{read_from, set_string_digits}

abbrev late : Timeval
late = record { sec = 100000; usec = 999999 }

abbrev short : Timeval
short = record { sec = 5; usec = 2 }

-- A calendar that counts the characters it was given.
abbrev calendar : Calendar
calendar = record {
  strptime = λ s f m. record m { sec = length s };
  mktime = λ m. m.sec;
  localtime = λ t. record zero_tm { sec = t };
}

-- 2018/01/02
abbrev day : Text
day = b'2' ∷ b'0' ∷ b'1' ∷ b'8' ∷ b'/' ∷ b'0' ∷ b'1' ∷ b'/' ∷ b'0' ∷ b'2' ∷ []

-- What the stack holds before.
abbrev leftover : Tm
leftover = record zero_tm { sec = 7 }

-- 20180102030405
abbrev digits : Text
digits =
    b'2' ∷ b'0' ∷ b'1' ∷ b'8' ∷ b'0' ∷ b'1' ∷ b'0' ∷ b'2' ∷ b'0' ∷ b'3' ∷ b'0' ∷ b'4' ∷ b'0' ∷ b'5'
    ∷ []

set_string_digits_example :
    (set_string calendar leftover late digits
      ≡ read_from calendar leftover (codes "2018-01-02 03:04:05"))
    × (set_string calendar leftover late (codes "180102030405")
        ≡ read_from calendar leftover (codes "2018-01-02 03:04:05"))
    × (set_string calendar leftover late (codes "2018-01-02 03:04:05")
        ≡ read_from calendar zero_tm (codes "2018-01-02 03:04:05"))
set_string_digits_example =
    set_string_digits calendar leftover late b'2' b'0' b'1' b'8' b'0' b'1' b'0' b'2' b'0' b'3' b'0'
      b'4' b'0' b'5' refl
