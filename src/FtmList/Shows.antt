-- ===== src/FtmList/Shows.antt =====
-- What a list of lib/ftm_list.c holds, its invariant, and that linking an entry keeps it.
use catchb.Base.{
  ℕ, ◌+◌, ◌^◌, ◌<◌, ◌≡◌, ◌≢◌, refl, Bool, true, false, List, [], ◌∷◌, ◌++◌, map, arith, length,
  length-append,
}
use catchb.Run.{done, blocked}
use catchb.FtmList.{FtmList, head, update, link, wait}
use catchb.FtmList.Links.{Links, AllDistinct, ◌∉◌, before, next-before, has-append, Links-link}
use catchb.FtmList.Walk.{AllLive}

-- The entries `xs` make up the ring.
pub record IsList (l : FtmList) (xs : List ℕ) : Type 0 where
  pub chain : Links l.next l.prev head xs head
  pub distinct : AllDistinct xs
  pub no_head : head ∉ xs
  pub alive : AllLive l.live xs
  pub counted : l.count ≡ length xs
  pub bounded : length xs < 2 ^ 32

-- The list holds these items, in order, and nobody holds the semaphore.
pub record Shows (l : FtmList) (ys : List ℕ) : Type 0 where
  pub entries : List ℕ
  pub is_list : IsList l entries
  pub items : map l.item entries ≡ ys
  pub open_lock : l.lock ≡ 1

-- What `malloc` may return: not the head, and not live.
pub record IsFresh (l : FtmList) (e : ℕ) : Type 0 where
  pub not_head : e ≢ head
  pub unused : l.live e ≡ false

pub not-mem_of_unused :
    (live : ℕ → Bool) (e : ℕ) (xs : List ℕ) → live e ≡ false → AllLive live xs → e ∉ xs
not-mem_of_unused live e [] h a = refl
not-mem_of_unused live e (x ∷ xs) h a = ground (arith, not-mem_of_unused live e xs h a.1)

pub AllLive-update :
    (live : ℕ → Bool) (e : ℕ) (v : Bool) (xs : List ℕ)
    → e ∉ xs
    → AllLive live xs
    → AllLive (update live e v) xs
AllLive-update live e v [] h a = tt
AllLive-update live e v (x ∷ xs) h a = (ground arith, AllLive-update live e v xs (ground arith) a.1)

map-update : (f : ℕ → ℕ) (e v : ℕ) (xs : List ℕ) → e ∉ xs → map (update f e v) xs ≡ map f xs
map-update f e v [] h = refl
map-update f e v (x ∷ xs) h = ground (arith, map-update f e v xs)

pub AllLive-append :
    (live : ℕ → Bool) (us vs : List ℕ) → AllLive live (us ++ vs) → AllLive live us × AllLive live vs
AllLive-append live [] vs a = (tt, a)
AllLive-append live (u ∷ us) vs a = let (b, c) = AllLive-append live us vs a.1 in ((a.0, b), c)

pub AllLive-join :
    (live : ℕ → Bool) (us vs : List ℕ) → AllLive live us → AllLive live vs → AllLive live (us ++ vs)
AllLive-join live [] vs a b = b
AllLive-join live (u ∷ us) vs a b = (a.0, AllLive-join live us vs a.1 b)

AllDistinct-insert :
    (e : ℕ) (us vs : List ℕ) → AllDistinct (us ++ vs) → e ∉ us ++ vs → AllDistinct (us ++ e ∷ vs)
AllDistinct-insert e [] vs d h = (h, d)
AllDistinct-insert e (u ∷ us) vs d h = (
  ground (arith, has-append u us vs, has-append u us (e ∷ vs)),
  AllDistinct-insert e us vs d.1 (ground arith),
)

-- Linking a fresh entry between two parts of the ring.
pub link-IsList :
    (l : FtmList) (e v : ℕ) (us vs : List ℕ)
    → IsList l (us ++ vs)
    → IsFresh l e
    → length (us ++ vs) + 1 < 2 ^ 32
    → IsList (link l (before head us) e v) (us ++ e ∷ vs)
unfolding link
link-IsList l e v us vs h fresh small =
    let absent = not-mem_of_unused l.live e (us ++ vs) fresh.unused h.alive in
    let alive = AllLive-update l.live e true (us ++ vs) absent h.alive in
    let (left, right) = AllLive-append (update l.live e true) us vs alive in
    record {
      chain =
          Links-link l.next l.prev head head e (before head us) (l.next (before head us)) us vs
            h.chain refl (next-before l.next l.prev head head us vs h.chain) h.distinct h.no_head
            h.no_head (ground arith);
      distinct = AllDistinct-insert e us vs h.distinct absent;
      no_head = ground (arith, has-append head us vs, has-append head us (e ∷ vs));
      alive = AllLive-join (update l.live e true) us (e ∷ vs) left (ground arith, right);
      counted = omega (arith, h.counted, length-append us (e ∷ vs), length-append us vs);
      bounded = omega (arith, length-append us (e ∷ vs), length-append us vs);
    }

pub link-items :
    (l : FtmList) (p e v : ℕ) (us vs : List ℕ)
    → e ∉ us ++ vs
    → map (link l p e v).item (us ++ e ∷ vs) ≡ map l.item us ++ v ∷ map l.item vs
unfolding link
link-items l p e v [] vs h = ground (arith, map-update l.item e v vs)
link-items l p e v (u ∷ us) vs h = ground (arith, link-items l p e v us vs)

-- The invariant does not speak of the semaphore or the iterator.
pub IsList-other :
    {l : FtmList} {xs : List ℕ} (b : Bool) (i n : ℕ)
    → IsList l xs
    → IsList (record l { iterator = b; iter = i; lock = n }) xs
IsList-other b i n h = record {
  chain = h.chain;
  distinct = h.distinct;
  no_head = h.no_head;
  alive = h.alive;
  counted = h.counted;
  bounded = h.bounded;
}

-- The list while an operation works on it.
abbrev pub taken : FtmList → FtmList
taken l = record l { lock = 0 }

pub wait-taken : (l : FtmList) → l.lock ≡ 1 → wait l ≡ done (taken l)
wait-taken l h = ground arith

wait_blocks : (l : FtmList) → l.lock ≡ 0 → wait l ≡ blocked
wait_blocks l h = ground arith
