-- ===== src/Buffer.antt =====
-- lib/ftm_buffer.c and lib/ftm_buffer.h: the ring buffer of bytes that the SSH and telnet
-- clients read from. `bytes` is the memory from `pBuffer` on, and `max_size` is how much of it
-- belongs to the ring. A caller's array is a function from offsets.
pub mod Places
pub mod Ring
pub mod Push
pub mod Pop
mod Tests
use catchb.Base.{
  ℕ, ◌+◌, ◌-◌, ◌%◌, ◌^◌, Bool, not, ◌&&◌, Option, none, some, ltb, leb, ◌==◌, if◌then◌else◌,
}
use catchb.Ret.{Ret, ok, not_enough_memory, list_empty}

pub record Buffer : Type 0 where
  pub first : ℕ
  pub last : ℕ
  pub data_len : ℕ
  pub max_size : ℕ
  pub bytes : ℕ → ℕ

-- The sum and the difference of `FTM_UINT32`.
abbrev add32 : ℕ → ℕ → ℕ
add32 a b = (a + b) % 2 ^ 32

abbrev sub32 : ℕ → ℕ → ℕ
sub32 a b = (a + 2 ^ 32 - b) % 2 ^ 32

-- `create` sets the size in what `FTM_MEM_malloc` returns; the rest is what that memory holds.
create : (memory : Option Buffer) → (max_size : ℕ) → Ret × Option Buffer
create none max_size = (not_enough_memory, none)
create (some b) max_size = (ok, some (record b { max_size = max_size }))

unfoldable destroy : Buffer → Ret × Option Buffer
destroy b = (ok, none)

unfoldable get_size : Buffer → Ret × ℕ
get_size b = (ok, b.data_len)

-- `memcpy(&to[at], &from[start], n)`
abbrev memcpy : (to : ℕ → ℕ) (at_ : ℕ) (from : ℕ → ℕ) (start n : ℕ) → ℕ → ℕ
memcpy to at_ from start n k =
    if leb at_ k && ltb (k - at_) n then from (start + (k - at_)) else to k

-- What does not fit is taken from the front.
pub make_room : Buffer → (len : ℕ) → Buffer
make_room b len =
    let over = sub32 (add32 b.data_len len) (sub32 b.max_size 1) in
    if ltb (sub32 b.max_size 1) (add32 b.data_len len)
    then record b { data_len = sub32 b.data_len over; first = add32 b.first over % b.max_size }
    else b

-- The copy into the ring, in one piece or two.
pub write : Buffer → (source : ℕ → ℕ) → (len : ℕ) → ℕ → ℕ
write b source len =
    let end = sub32 b.max_size b.last in
    if leb len end
    then memcpy b.bytes b.last source 0 len
    else memcpy (memcpy b.bytes b.last source 0 end) 0 source end (sub32 len end)

pub push_back : Buffer → (source : ℕ → ℕ) → (len : ℕ) → Ret × Buffer
unfolding make_room write
push_back b source len =
    let b' = make_room b len in
    (
      ok,
      record b' {
        bytes = write b' source len;
        data_len = add32 b'.data_len len;
        last = add32 b'.last len % b'.max_size;
      },
    )

-- The copy out of the ring, the new `ulFirst` and the new length.
read : Buffer → (out : ℕ → ℕ) → (len : ℕ) → (ℕ → ℕ) × Buffer
read b out len =
    let end = sub32 b.max_size b.first in
    if ltb b.max_size (add32 b.first len)
    then (
      memcpy (memcpy out 0 b.bytes b.first end) end b.bytes 0 (sub32 len end),
      record b { first = sub32 len end; data_len = sub32 b.data_len len },
    )
    else (
      memcpy out 0 b.bytes b.first len,
      record b { first = add32 b.first len; data_len = sub32 b.data_len len },
    )

-- The bytes go to `out`; the number says how many.
pub pop_front : Buffer → (out : ℕ → ℕ) → (max_len : ℕ) → (ℕ → ℕ) × ℕ × Buffer
unfolding read
pop_front b out max_len =
    if b.first == b.last
    then (out, 0, b)
    else (let len = if ltb b.data_len max_len then b.data_len else max_len in
        let (out', b') = read b out len in (out', len, b'))

pub get_first : Buffer → Ret × Option ℕ
get_first b = if b.data_len == 0 then (list_empty, none) else (ok, some (b.bytes b.first))

pub get_at : Buffer → (index : ℕ) → Ret × Option ℕ
get_at b index =
    if leb b.data_len index
    then (list_empty, none)
    else (ok, some (b.bytes (add32 b.first index % b.max_size)))
