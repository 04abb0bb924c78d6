-- ===== src/Buffer/Pop.antt =====
-- `FTM_BUFFER_popFront` and `FTM_BUFFER_getFirst` of lib/ftm_buffer.c.
use catchb.Base.{
  ℕ, ◌+◌, ◌-◌, ◌<◌, ◌≤◌, ◌≡◌, refl, sym, ap, ◌∙◌, inl, inr, zero, suc, [], take_of_length-le,
  drop_of_length-le, arith, ltb, ◌==◌, if◌then◌else◌, Bool-cases, drop, take, false, get_elem?,
  some, length,
}
use catchb.Ret.{ok}
use catchb.Buffer.{Buffer, add32, sub32, read, pop_front, get_first, get_at}
use catchb.Buffer.Places.{values, get_elem?-values, values_ext, take-values, length-values}
use catchb.Buffer.Ring.{IsRing, at_position, contents, or_empty, get_at-contents}
use catchb.Buffer.Push.{advanced, advanced-IsRing}

-- Where `read` leaves the start: behind the last place when it ends there.
abbrev start_after : Buffer → ℕ → ℕ
start_after b n = if ltb b.max_size (b.first + n) then b.first + n - b.max_size else b.first + n

take_none : (k : ℕ) → take {A = ℕ} k [] ≡ []
take_none zero = refl
take_none (suc k) = refl

drop_none : (k : ℕ) → drop {A = ℕ} k [] ≡ []
drop_none zero = refl
drop_none (suc k) = refl

-- At most as many as there are.
abbrev at_most : ℕ → ℕ → ℕ
at_most n k = if ltb n k then n else k

module _ (f : ℕ → ℕ) (n : ℕ) where
  take-at_most : (k : ℕ) → values f (at_most n k) ≡ take k (values f n)
  take-at_most k = elim (Bool-cases (ltb n k)) [
    | inl more ↦
        let past : length (values f n) ≤ k = ground (arith, length-values f n) in
        rw more (sym (take_of_length-le k (values f n) past))
    | inr fewer ↦ rw fewer (sym (take-values f k n (ground arith)))
  ]

  drop-at_most : (k : ℕ) → drop (at_most n k) (values f n) ≡ drop k (values f n)
  drop-at_most k = elim (Bool-cases (ltb n k)) [
    | inl more ↦
        let past : length (values f n) ≤ k = ground (arith, length-values f n) in
        let whole : length (values f n) ≤ n = omega (arith, length-values f n) in
        rw more
          (drop_of_length-le n (values f n) whole ∙ sym (drop_of_length-le k (values f n) past))
    | inr fewer ↦ rw fewer
  ]

module _ (b : Buffer) (r : IsRing b) where
  read-advanced :
      (out : ℕ → ℕ) (n : ℕ)
      → n ≤ b.data_len
      → ((read b out n).1 ≡ advanced b (start_after b n) n)
        × ((i : ℕ) → i < n → (read b out n).0 i ≡ at_position b i)
        × ((i : ℕ) → n ≤ i → (read b out n).0 i ≡ out i)
  unfolding read
  read-advanced out n few =
      let end_is : sub32 b.max_size b.first ≡ b.max_size - b.first =
        omega (arith, r.small, r.first_inside) in
      let sum : add32 b.first n ≡ b.first + n = omega (arith, r.small, r.fits, r.first_inside) in
      let len_is : sub32 b.data_len n ≡ b.data_len - n = omega (arith, r.small, r.fits) in
      elim (Bool-cases (ltb b.max_size (b.first + n))) [
        | inl two ↦
            let past : b.max_size < b.first + n = ground arith in
            let rest : sub32 n (b.max_size - b.first) ≡ n - (b.max_size - b.first) =
              omega (arith, r.small, r.fits, r.first_inside) in
            let begin : n - (b.max_size - b.first) ≡ b.first + n - b.max_size =
              omega (arith, r.first_inside) in
            rw (sum, two, end_is, rest, len_is, begin)
              (
                refl,
                (λ i h. ground (arith, r.first_inside, r.fits)),
                (λ i h. ground (arith, r.first_inside, r.fits)),
              )
        | inr one ↦
            let before_end : b.first + n ≤ b.max_size = ground arith in
            rw (sum, one, len_is)
              (
                refl,
                (λ i h. ground (arith, r.first_inside, r.fits)),
                (λ i h. ground (arith, r.first_inside, r.fits)),
              )
      ]

  popped_none : b.first ≡ b.last → b.data_len ≡ 0
  popped_none e = ground (arith, r.closes, r.fits, r.last_inside)

  -- On a well-formed ring popFront writes the first bytes, ulMaxLen at most, to the caller's
  -- array and nothing behind them, keeps the invariant, and the ring holds the bytes that are
  -- left.
  pub pop_front-contents :
      (out : ℕ → ℕ) (max_len : ℕ)
      → (out' : ℕ → ℕ) × (n : ℕ) × (b' : Buffer) × (pop_front b out max_len ≡ (out', n, b'))
        × (values out' n ≡ take max_len (contents b))
        × IsRing b'
        × (contents b' ≡ drop max_len (contents b))
        × ((i : ℕ) → n ≤ i → out' i ≡ out i)
  unfolding pop_front
  pop_front-contents out max_len = elim (Bool-cases (b.first == b.last)) [
    | inl empty ↦
        let at_last : b.first ≡ b.last = ground arith in
        let none_left = popped_none at_last in
        let nothing : contents b ≡ [] = rw none_left in
        (
          out,
          0,
          b,
          rw empty,
          rw nothing (sym (take_none max_len)),
          r,
          rw nothing (sym (drop_none max_len)),
          λ i h. refl,
        )
    | inr some_left ↦
        let n = at_most b.data_len max_len in
        let few : n ≤ b.data_len = ground arith in
        let (moved, new, old) = read-advanced out n few in
        let (ring, rest) =
          advanced-IsRing b r (start_after b n) n few (ground (arith, r.first_inside, r.fits))
            (ground (arith, r.first_inside, r.fits)) in
        (
          (read b out n).0,
          n,
          advanced b (start_after b n) n,
          rw some_left (ap (λ c. ((read b out n).0, n, c)) moved),
          values_ext (read b out n).0 (at_position b) n new
              ∙ take-at_most (at_position b) b.data_len max_len,
          ring,
          rest ∙ drop-at_most (at_position b) b.data_len max_len,
          old,
        )
  ]

-- `getFirst` gives the first byte, or says that there is none, where `ulFirst` stands inside the ring.
get_first-contents :
    (b : Buffer)
    → IsRing b
    → b.first < b.max_size
    → get_first b ≡ or_empty (get_elem? (contents b) 0)
unfolding get_first
get_first-contents b r inside = rw (get_elem?-values (at_position b) b.data_len 0) (ground arith)

ends_at_end :
    (b : Buffer)
    → IsRing b
    → (out : ℕ → ℕ) (n : ℕ) → n < b.data_len
    → b.first + n ≡ b.max_size
    → (pop_front b out n).2 ≡ advanced b b.max_size n
unfolding pop_front
ends_at_end b r out n fewer e = elim (Bool-cases (b.first == b.last)) [
  | inl empty ↦
      let none_left : b.data_len ≡ 0 = popped_none b r (ground arith) in
      let never : 0 < 0 = omega arith in elim never [ ]
  | inr some_left ↦
      let all : ltb b.data_len n ≡ false = ground arith in
      let start : start_after b n ≡ b.max_size = ground arith in
      rw (some_left, all)
        ((read-advanced b r out n (omega arith)).0 ∙ ap (λ s. advanced b s n) start)
]

-- After a popFront that leaves bytes and ends at the last place of the ring's memory, getFirst
-- returns OK and the byte behind that memory, while getAt with index 0 returns the first byte.
get_first_past_end :
    (b : Buffer) (out : ℕ → ℕ) (n : ℕ)
    → IsRing b
    → n < b.data_len
    → b.first + n ≡ b.max_size
    → let b' = (pop_front b out n).2 in
      (get_first b' ≡ (ok, some (b.bytes b.max_size)))
      × (get_at b' 0 ≡ (ok, some (b.bytes 0)))
      × (get_elem? (contents b') 0 ≡ some (b.bytes 0))
unfolding get_first
get_first_past_end b out n r fewer e =
    let stays = ends_at_end b r out n fewer e in
    let some_left : (b.data_len - n == 0) ≡ false = ground arith in
    let c = advanced b b.max_size n in
    let (ring, _) =
      advanced-IsRing b r b.max_size n (omega arith) (omega arith) (inl (omega arith)) in
    let at_start : get_elem? (contents c) 0 ≡ some (b.bytes 0) =
      rw (get_elem?-values (at_position c) c.data_len 0) (ground (arith, r.some_room)) in
    (
      rw stays (rw some_left),
      rw stays (get_at-contents c 0 ring ∙ ap or_empty at_start),
      rw stays at_start,
    )
