-- ===== src/Buffer/Ring.antt =====
-- What a ring buffer of lib/ftm_buffer.c holds, its invariant, and its look-ups.
use catchb.Base.{
  ℕ, ◌+◌, ◌%◌, ◌^◌, ◌<◌, ◌≤◌, ◌≡◌, refl, Option, none, some, List, [], arith, leb, get_elem?,
  Bool-cases, inl, inr,
}
use catchb.Ret.{Ret, ok, list_empty}
use catchb.Buffer.{Buffer, create, get_at, add32}
use catchb.Buffer.Places.{values, wrap, mod-wrap, get_elem?-values}

-- `ulFirst` may stand behind the last place: `popFront` leaves it there. One place stays free, and
-- the size is such that no sum of two places overflows.
pub record IsRing (b : Buffer) : Type 0 where
  pub some_room : 0 < b.max_size
  pub small : b.max_size ≤ 2 ^ 31
  pub first_inside : b.first ≤ b.max_size
  pub last_inside : b.last < b.max_size
  pub fits : b.data_len < b.max_size
  pub closes : b.last ≡ wrap b.max_size (b.first + b.data_len)

-- The byte at a position, and all of them.
abbrev pub at_position : Buffer → ℕ → ℕ
at_position b i = b.bytes (wrap b.max_size (b.first + i))

abbrev pub contents : Buffer → List ℕ
contents b = values (at_position b) b.data_len

place :
    (b : Buffer) (i : ℕ)
    → IsRing b
    → i < b.max_size
    → add32 b.first i % b.max_size ≡ wrap b.max_size (b.first + i)
place b i r h =
    let no_overflow : add32 b.first i ≡ b.first + i = omega (arith, r.small, r.first_inside) in
    rw no_overflow (mod-wrap b.max_size (b.first + i) (omega (arith, r.first_inside)))

abbrev zeroed : (ℕ → ℕ) → Buffer
zeroed bytes = record { first = 0; last = 0; data_len = 0; max_size = 0; bytes = bytes }

-- `create` on zeroed memory gives an empty ring.
create-IsRing :
    (bytes : ℕ → ℕ) (max_size : ℕ)
    → 0 < max_size
    → max_size ≤ 2 ^ 31
    → (b : Buffer) × (create (some (zeroed bytes)) max_size ≡ (ok, some b))
      × IsRing b
      × (contents b ≡ [])
unfolding create
create-IsRing bytes max_size h small = (
  record { first = 0; last = 0; data_len = 0; max_size = max_size; bytes = bytes },
  refl,
  record {
    some_room = h;
    small = small;
    first_inside = omega arith;
    last_inside = h;
    fits = h;
    closes = ground arith;
  },
  refl,
)

-- What a look-up says for a byte that may not be there.
abbrev pub or_empty : Option ℕ → Ret × Option ℕ
or_empty none = (list_empty, none)
or_empty (some v) = (ok, some v)

-- On a well-formed ring getAt returns OK and the byte at the index, or LIST_EMPTY past the end.
pub get_at-contents :
    (b : Buffer) (i : ℕ) → IsRing b → get_at b i ≡ or_empty (get_elem? (contents b) i)
unfolding get_at
get_at-contents b i r =
    rw (get_elem?-values (at_position b) b.data_len i) (elim (Bool-cases (leb b.data_len i)) [
      | inl past ↦ ground arith
      | inr inside ↦
          let near : i < b.data_len = ground arith in
          ground (arith, place b i r (omega (arith, r.fits)))
    ])
