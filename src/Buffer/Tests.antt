-- ===== src/Buffer/Tests.antt =====
-- Runs of lib/ftm_buffer.c on rings of four places.
use catchb.Base.{ℕ, ◌+◌, ◌*◌, ◌≤◌, ◌≡◌, refl, [], ◌∷◌, arith}
use catchb.Ret.{ok}
use catchb.Buffer.{Buffer, push_back, pop_front}
use catchb.Buffer.Places.{values}
use catchb.Buffer.Ring.{IsRing, contents}
use catchb.Buffer.Push.{push_back-contents}
use catchb.Buffer.Pop.{pop_front-contents}

-- Two bytes round the end of the memory.
abbrev ring : Buffer
ring = record { first = 3; last = 1; data_len = 2; max_size = 4; bytes = λ k. k * 10 }

ring-IsRing : IsRing ring
ring-IsRing = record {
  some_room = omega arith;
  small = omega arith;
  first_inside = omega arith;
  last_inside = omega arith;
  fits = omega arith;
  closes = refl;
}

-- Three bytes of which the second is at the end of the memory.
abbrev to_end : Buffer
to_end = record { first = 2; last = 1; data_len = 3; max_size = 4; bytes = λ k. k * 10 }

to_end-IsRing : IsRing to_end
to_end-IsRing = record {
  some_room = omega arith;
  small = omega arith;
  first_inside = omega arith;
  last_inside = omega arith;
  fits = omega arith;
  closes = refl;
}

push_back-contents_example :
    (b' : Buffer) × (push_back ring (λ k. k + 5) 2 ≡ (ok, b'))
    × IsRing b'
    × (contents b' ≡ 0 ∷ 5 ∷ 6 ∷ [])
push_back-contents_example = push_back-contents ring (λ k. k + 5) 2 ring-IsRing (omega arith)

pop_front-contents_example :
    (out' : ℕ → ℕ) × (n : ℕ) × (b' : Buffer) × (pop_front ring (λ k. 7) 5 ≡ (out', n, b'))
    × (values out' n ≡ 30 ∷ 0 ∷ [])
    × IsRing b'
    × (contents b' ≡ [])
    × ((i : ℕ) → n ≤ i → out' i ≡ 7)
pop_front-contents_example = pop_front-contents ring ring-IsRing (λ k. 7) 5
