-- ===== src/Buffer/Push.antt =====
-- `FTM_BUFFER_pushBack` of lib/ftm_buffer.c against sequences of bytes.
use catchb.Base.{
  ℕ, ◌+◌, ◌-◌, ◌%◌, ◌<◌, ◌≤◌, ◌≡◌, refl, sym, ap, ◌∙◌, ◌⊎◌, inl, inr, ◌++◌, arith, ltb, leb,
  if◌then◌else◌, Bool-cases, drop, zero, suc, List, [], ◌∷◌, length, length-append,
}
use catchb.Ret.{ok}
use catchb.Buffer.{Buffer, add32, sub32, make_room, write, push_back}
use catchb.Buffer.Places.{
  values, values_ext, length-values, values-append, drop-values, wrap, mod-wrap,
}
use catchb.Buffer.Ring.{IsRing, at_position, contents}

-- The ring with its start moved on.
abbrev pub advanced : Buffer → (start n : ℕ) → Buffer
advanced b start n = record b { first = start; data_len = b.data_len - n }

module _ (b : Buffer) (r : IsRing b) where
  pub advanced-IsRing :
      (start n : ℕ)
      → n ≤ b.data_len
      → start ≤ b.max_size
      → (start ≡ b.first + n) ⊎ (start + b.max_size ≡ b.first + n)
      → IsRing (advanced b start n) × (contents (advanced b start n) ≡ drop n (contents b))
  advanced-IsRing start n few inside e = (
    record {
      some_room = r.some_room;
      small = r.small;
      first_inside = inside;
      last_inside = r.last_inside;
      fits = omega (arith, r.fits);
      closes = ground (arith, r.closes, r.fits, r.first_inside);
    },
    values_ext (at_position (advanced b start n)) (λ i. at_position b (n + i)) (b.data_len - n)
          (λ i h. ap b.bytes (ground (arith, r.fits, r.first_inside)))
        ∙ sym (drop-values (at_position b) n b.data_len),
  )

  -- `make_room` drops what would be too much, and nothing where there is room.
  make_room-IsRing :
      (len : ℕ)
      → len < b.max_size
      → let over = b.data_len + len - (b.max_size - 1) in
        (start : ℕ) × (make_room b len ≡ advanced b start over)
        × IsRing (advanced b start over)
        × (contents (advanced b start over) ≡ drop over (contents b))
        × (b.data_len - over + len < b.max_size)
  unfolding make_room
  make_room-IsRing len small =
      let over = b.data_len + len - (b.max_size - 1) in
      let limit : sub32 b.max_size 1 ≡ b.max_size - 1 = omega (arith, r.small, r.some_room) in
      let sum : add32 b.data_len len ≡ b.data_len + len = omega (arith, r.small, r.fits) in
      elim (Bool-cases (ltb (b.max_size - 1) (b.data_len + len))) [
        | inl full ↦
            let more : b.max_size - 1 < b.data_len + len = ground arith in
            let over_is : sub32 (b.data_len + len) (b.max_size - 1) ≡ over =
              omega (arith, r.small, r.fits) in
            let len_is : sub32 b.data_len over ≡ b.data_len - over =
              omega (arith, r.small, r.fits) in
            let no_overflow : add32 b.first over ≡ b.first + over =
              omega (arith, r.small, r.fits, r.first_inside) in
            let below : b.first + over < b.max_size + b.max_size =
              omega (arith, r.fits, r.first_inside) in
            let start = wrap b.max_size (b.first + over) in
            let (ring, same) =
              advanced-IsRing start over (omega (arith, r.fits)) (ground arith) (ground arith) in
            (
              start,
              rw (
                limit,
                sum,
                full,
                over_is,
                len_is,
                no_overflow,
                mod-wrap b.max_size (b.first + over) below,
              ),
              ring,
              same,
              omega (arith, r.fits),
            )
        | inr room ↦
            let less : b.data_len + len ≤ b.max_size - 1 = ground arith in
            let none_over : over ≡ 0 = omega arith in
            let (ring, same) =
              advanced-IsRing b.first over (omega arith) r.first_inside (inl (omega arith)) in
            let all_kept : b.data_len ≡ b.data_len - 0 = omega arith in
            (
              b.first,
              rw (limit, sum, room, none_over) (ap (λ n. record b { data_len = n }) all_kept),
              ring,
              same,
              omega (arith, r.fits),
            )
      ]

  -- `write` puts the bytes behind the last place, round the end, and touches no other place.
  write-places :
      (source : ℕ → ℕ) (len : ℕ)
      → b.data_len + len < b.max_size
      → ((j : ℕ) → j < len → write b source len (wrap b.max_size (b.last + j)) ≡ source j)
        × ((j : ℕ)
            → len ≤ j
            → j < b.max_size
            → write b source len (wrap b.max_size (b.last + j))
              ≡ b.bytes (wrap b.max_size (b.last + j)))
  unfolding write
  write-places source len room =
      let end_is : sub32 b.max_size b.last ≡ b.max_size - b.last =
        omega (arith, r.small, r.last_inside) in
      elim (Bool-cases (leb len (b.max_size - b.last))) [
        | inl one ↦
            rw (end_is, one)
              (λ j h. ground (arith, r.last_inside), λ j h k. ground (arith, r.last_inside))
        | inr two ↦
            let rest : sub32 len (b.max_size - b.last) ≡ len - (b.max_size - b.last) =
              let over_end : b.max_size - b.last < len = ground arith in
              omega (arith, r.small, r.last_inside) in
            rw (end_is, two, rest)
              (λ j h. ground (arith, r.last_inside), λ j h k. ground (arith, r.last_inside))
      ]

  written_at :
      (source : ℕ → ℕ) (len : ℕ)
      → b.data_len + len < b.max_size
      → (i : ℕ) → i < b.data_len + len
      → write b source len (wrap b.max_size (b.first + i))
        ≡ (if ltb i b.data_len then at_position b i else source (i - b.data_len))
  written_at source len room i h =
      let (new, old) = write-places source len room in
      elim (Bool-cases (ltb i b.data_len)) [
        | inl kept ↦
            let inside : i < b.data_len = ground arith in
            let j = b.max_size - b.data_len + i in
            let same : wrap b.max_size (b.first + i) ≡ wrap b.max_size (b.last + j) =
              ground (arith, r.closes, r.fits, r.first_inside) in
            rw kept (
              ap (write b source len) same
              ∙ old j (omega arith) (omega (arith, r.fits))
              ∙ ap b.bytes (sym same))
        | inr added ↦
            let outside : b.data_len ≤ i = ground arith in
            let j = i - b.data_len in
            let same : wrap b.max_size (b.first + i) ≡ wrap b.max_size (b.last + j) =
              ground (arith, r.closes, r.fits, r.first_inside) in
            rw added (ap (write b source len) same ∙ new j (omega arith))
      ]

  -- The ring after the copy, the new length and the new last place.
  written-IsRing :
      (source : ℕ → ℕ) (len : ℕ)
      → b.data_len + len < b.max_size
      → let b' = record b {
        bytes = write b source len;
        data_len = add32 b.data_len len;
        last = add32 b.last len % b.max_size;
      } in
        IsRing b' × (contents b' ≡ contents b ++ values source len)
  written-IsRing source len room =
      let len_is : add32 b.data_len len ≡ b.data_len + len = omega (arith, r.small) in
      let sum : add32 b.last len ≡ b.last + len = omega (arith, r.small, r.last_inside) in
      let last_is : add32 b.last len % b.max_size ≡ wrap b.max_size (b.last + len) =
        rw sum (mod-wrap b.max_size (b.last + len) (omega (arith, r.last_inside))) in
      rw (len_is, last_is)
        (
          record {
            some_room = r.some_room;
            small = r.small;
            first_inside = r.first_inside;
            last_inside = ground (arith, r.last_inside);
            fits = room;
            closes = ground (arith, r.closes, r.fits, r.first_inside);
          },
          values_ext (λ i. write b source len (wrap b.max_size (b.first + i)))
                (λ i. if ltb i b.data_len then at_position b i else source (i - b.data_len))
                (b.data_len + len) (written_at source len room)
              ∙ sym (values-append (at_position b) source b.data_len len),
        )

drop_append : (n : ℕ) (xs ys : List ℕ) → n ≤ length xs → drop n xs ++ ys ≡ drop n (xs ++ ys)
drop_append zero xs ys h = refl
drop_append (suc n) [] ys h = elim h [ ]
drop_append (suc n) (x ∷ xs) ys h = drop_append n xs ys (omega arith)

-- Pushing fewer bytes than ulMaxSize onto a well-formed ring returns OK, keeps the invariant,
-- and the ring then holds the last ulMaxSize - 1 of the bytes that it held followed by the new
-- ones.
pub push_back-contents :
    (b : Buffer) (source : ℕ → ℕ) (len : ℕ)
    → IsRing b
    → len < b.max_size
    → let all = contents b ++ values source len in
      (b' : Buffer) × (push_back b source len ≡ (ok, b'))
      × IsRing b'
      × (contents b' ≡ drop (length all - (b.max_size - 1)) all)
unfolding push_back
push_back-contents b source len r small =
    let over = b.data_len + len - (b.max_size - 1) in
    let (start, made, ring, kept, room) = make_room-IsRing b r len small in
    let c = advanced b start over in
    let (ring', same) = written-IsRing c ring source len room in
    let few : over ≤ length (contents b) =
      omega (arith, r.fits, length-values (at_position b) b.data_len) in
    let total : length (contents b ++ values source len) ≡ b.data_len + len = omega (
      arith,
      length-append (contents b) (values source len),
      length-values (at_position b) b.data_len,
      length-values source len,
    ) in
    (
      record c {
        bytes = write c source len;
        data_len = add32 c.data_len len;
        last = add32 c.last len % c.max_size;
      },
      rw made,
      ring',
      rw total (
          same
          ∙ ap (λ ys. ys ++ values source len) kept
          ∙ drop_append over (contents b) (values source len) few),
    )
