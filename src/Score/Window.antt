-- ===== src/Score/Window.antt =====
-- What lib/ftm_score.c adds for each property of a SYN packet. The comparisons are of `int`s: a
-- lower bound that would be negative holds, as it does at 0 here.
use Prim.Native.String.{String}
use Prim.Native.Char.{code}
use catchb.Base.{
  ℕ, ◌+◌, ◌-◌, ◌*◌, Bool, true, false, ◌&&◌, ◌||◌, Option, none, some, List, [], ◌∷◌, leb, ◌==◌,
  if◌then◌else◌,
}

unfoldable pub points : Bool → ℕ → ℕ
points b n = if b then 10 * n else 0

unfoldable pub mss_points : ℕ → ℕ
unfolding points
mss_points m = points (m == 1380) 1

unfoldable pub window_scale_points : Option ℕ → ℕ
unfolding points
window_scale_points none = 10 * 2
window_scale_points (some w) =
    if w == 0
    then 10 * 3
    else (if w == 1
        then 10 * 4
        else (if w == 2
            then 10 * 5
            else (if w == 5 || (w == 6 || w == 7) then 10 * 6 else points (w == 8) 7)))

-- `w` lies within `t` of `c`
abbrev near : ℕ → ℕ → ℕ → Bool
near w c t = leb w (c + t) && leb (c - t) w

-- `w` lies within 70 below 65535
abbrev at_top : ℕ → Bool
at_top w = leb w 65535 && leb (65535 - 70) w

-- The tests on the window up to `+= 80`.
unfoldable pub low_window_points : ℕ → ℕ → ℕ
unfolding points
low_window_points m w =
    points (near w m 50) 10
    + points (near w 32736 70) 20
    + points (near w 512 50 || near w 16384 70) 30
    + points (near w (m * 11) 70 || near w (m * 20) 70) 40
    + points (near w (m * 2) 70 || (near w (m * 3) 70 || near w (m * 4) 70)) 50
    + points (near w 8192 70) 60
    + points (near w (m * 44) 70) 70
    + points (near w 8192 70) 80

-- Those from `+= 90` to `+= 160`.
unfoldable pub middle_window_points : ℕ → ℕ → ℕ
unfolding points
middle_window_points m w =
    points
      (at_top w
        || (near w 8192 70
            || (near w 32767 70
                || (near w 37300 70
                    || (near w 46080 70
                        || (near w 60352 70
                            || (near w (m * 44) 70
                                || (near w (m * 4) 70
                                    || (near w (m * 6) 70
                                        || (near w (m * 12) 70
                                            || (near w (m * 16) 70 || near w (m * 26) 70)))))))))))
      90
    + points (near w 44620 70) 100
    + points (near w 64512 70) 110
    + points (near w 64512 70) 120
    + points (near w 8192 70 || near w (m * 6) 70) 130
    + points (near w 64512 70 || near w (m * 44) 70) 140
    + points (at_top w || (near w 40320 70 || (near w 32767 70 || near w (m * 45) 70))) 150
    + points
        (at_top w
          || (near w 8192 70
              || (near w 64512 70
                  || (near w 32767 70
                      || (near w (m * 45) 70 || (near w (m * 44) 70 || near w (m * 12) 70))))))
        160

-- Those from `+= 170` on.
unfoldable pub high_window_points : ℕ → ℕ → ℕ
unfolding points
high_window_points m w =
    points (at_top w || (near w 32768 70 || near w 16384 70)) 170
    + points (near w 8192 70) 180
    + points (near w 16616 70) 190
    + points (near w (m * 2) 70) 200
    + points (near w 32768 70) 210
    + points (near w 32768 70 || at_top w) 220
    + points (near w 33304 70) 230

unfoldable pub window_points : ℕ → ℕ → ℕ
unfolding low_window_points middle_window_points high_window_points
window_points m w = low_window_points m w + middle_window_points m w + high_window_points m w

unfoldable pub syn_size_points : ℕ → ℕ
unfolding points
syn_size_points len =
    if len == 44
    then 10 * 100
    else (if len == 48 then 10 * 200 else (if len == 52 then 10 * 300 else points (len == 60) 400))

-- `strcmp(...) == 0`
same : List ℕ → List ℕ → Bool
same [] [] = true
same (x ∷ xs) (y ∷ ys) = x == y && same xs ys
same _ _ = false

abbrev codes : String → List ℕ
codes String.[] = []
codes (String.◌∷◌ c s) = code c ∷ codes s

unfoldable pub options_points : List ℕ → ℕ
unfolding same points
options_points l =
    (if same l (codes "M") then 10 * 1000 else points (same l (codes "MSTNW")) 2000)
    + points (same l (codes "MNWNNTNNS")) 3000
    + points (same l (codes "MNNS") || (same l (codes "MNWNNTNNS") || same l (codes "MNWNNS"))) 4000
    + points (same l (codes "MNNS")) 5000
    + points (same l (codes "MNWNNS") || same l (codes "MNNS")) 6000
    + points (same l (codes "MWNNNS")) 7000
    + points (same l (codes "MW")) 8000
    + points (same l (codes "MNNN")) 9000
    + points (same l (codes "MWN")) 10000
    + points (same l (codes "MNNNN")) 11000
    + points (same l (codes "MNWNNT")) 12000

unfoldable pub ip_id_points : ℕ → ℕ
ip_id_points i = if i == 0 then 10 * 20000 else 10 * 10000
