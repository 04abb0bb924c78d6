-- ===== src/FtmList/Unused.antt =====
-- What the operations of lib/ftm_list.c do to addresses that are in no list: they stay unused.
use catchb.Base.{
  ℕ, ◌+◌, ◌≡◌, sym, ap, ◌∙◌, false, not, Option, none, some, ◌≢◌, Bool-cases, inl, inr, arith, ltb,
  ◌==◌, if◌then◌else◌,
}
use catchb.Run.{Run, done, ◌>>=◌, bind-eq-done, done-injective}
use catchb.Ret.{Ret, object_not_found}
use catchb.FtmList.{
  FtmList, head, wait, post, walk, walk_to, insert, insert_before, insert_behind, link, ascending,
  is_gt,
}
use Prim.Native.Nat.{Ordering}
use catchb.FtmList.Access.{
  remove_at, take_out_at, take_out, remove, unlink, get, get_at, search_by, found,
}

take_out_at_unused : (l : FtmList) (a e : ℕ) → l.live e ≡ false → (take_out_at l a).1.live e ≡ false
unfolding take_out_at unlink
take_out_at_unused l a e h = ground arith

wait_live : (l l' : FtmList) (e : ℕ) → wait l ≡ done l' → l'.live e ≡ l.live e
wait_live l l' e h = elim (Bool-cases (l.lock == 0)) [
  | inl locked ↦ ground arith
  | inr free ↦ sym (ap (λ k. k.live e) (done-injective (rw free at h)))
]

wait_comparator : (l l' : FtmList) → wait l ≡ done l' → l'.comparator ≡ l.comparator
wait_comparator l l' h = elim (Bool-cases (l.lock == 0)) [
  | inl locked ↦ ground arith
  | inr free ↦ sym (ap (λ k. k.comparator) (done-injective (rw free at h)))
]

-- What `remove_at` does with the semaphore taken.
abbrev remove_taken : FtmList → ℕ → Run (Ret × FtmList)
remove_taken l pos =
    if not (ltb pos l.count)
    then done (object_not_found, post l)
    else (do a ← walk_to (l.count + 1) l pos (l.next head); done (take_out_at l a))

-- `removeAt` makes no dead entry live.
pub remove_at_unused :
    (l l' : FtmList) (pos e : ℕ) (r : Ret)
    → remove_at l pos ≡ done (r, l')
    → l.live e ≡ false
    → l'.live e ≡ false
unfolding remove_at
remove_at_unused l l' pos e r run unused =
    let (l1, waited, rest) = bind-eq-done (wait l) (λ l1. remove_taken l1 pos) run in
    let same : l1.live e ≡ l.live e = wait_live l l1 e waited in
    elim (Bool-cases (not (ltb pos l1.count))) [
      | inl past ↦
          let end = done-injective (rw past at rest) in
          sym (ap (λ d. d.1.live e) end) ∙ same ∙ unused
      | inr inside ↦
          let (a, _, last) =
            bind-eq-done (walk_to (l1.count + 1) l1 pos (l1.next head))
              (λ a. done (take_out_at l1 a)) (rw inside at rest) in
          sym (ap (λ d. d.1.live e) (done-injective last))
          ∙ take_out_at_unused l1 a e (same ∙ unused)
    ]

-- A search makes no entry live or dead.
pub get_live :
    (l l' : FtmList) (key e : ℕ) (r : Ret × Option ℕ)
    → get l key ≡ done (r, l')
    → l'.live e ≡ l.live e
unfolding get
get_live l l' key e r run =
    let (l1, waited, rest) =
      bind-eq-done (wait l) (λ k. search_by k key k.seeker >>= λ a. done (found k a, post k)) run in
    let (a, _, last) =
      bind-eq-done (search_by l1 key l1.seeker) (λ a. done (found l1 a, post l1)) rest in
    sym (ap (λ d. d.1.live e) (done-injective last)) ∙ wait_live l l1 e waited

take_out_unused : (l : FtmList) (a e : ℕ) → l.live e ≡ false → (take_out l a).1.live e ≡ false
unfolding take_out unlink
take_out_unused l a e h = ground arith

pub remove_unused :
    (l l' : FtmList) (v e : ℕ) (r : Ret)
    → remove l v ≡ done (r, l')
    → l.live e ≡ false
    → l'.live e ≡ false
unfolding remove
remove_unused l l' v e r run unused =
    let (l1, waited, rest) =
      bind-eq-done (wait l)
        (λ k. walk (k.count + 1) k (λ d. d == v) (k.next head) >>= λ a. done (take_out k a)) run in
    let (a, _, last) =
      bind-eq-done (walk (l1.count + 1) l1 (λ d. d == v) (l1.next head)) (λ a. done (take_out l1 a))
        rest in
    sym (ap (λ d. d.1.live e) (done-injective last))
    ∙ take_out_unused l1 a e (wait_live l l1 e waited ∙ unused)

-- Nor does reading by position.
pub get_at_live :
    (l l' : FtmList) (pos e : ℕ) (r : Ret × Option ℕ)
    → get_at l pos ≡ done (r, l')
    → l'.live e ≡ l.live e
unfolding get_at
get_at_live l l' pos e r run =
    let (l1, waited, rest) =
      bind-eq-done (wait l)
        (λ k.
          if not (ltb pos k.count)
          then done ((object_not_found, none), post k)
          else (walk_to (k.count + 1) k pos (k.next head) >>= λ a. done (found k a, post k)))
        run in
    let same = wait_live l l1 e waited in
    elim (Bool-cases (not (ltb pos l1.count))) [
      | inl past ↦ sym (ap (λ d. d.1.live e) (done-injective (rw past at rest))) ∙ same
      | inr inside ↦
          let (a, _, last) =
            bind-eq-done (walk_to (l1.count + 1) l1 pos (l1.next head))
              (λ a. done (found l1 a, post l1)) (rw inside at rest) in
          sym (ap (λ d. d.1.live e) (done-injective last)) ∙ same
    ]

insert_behind_unused :
    (l : FtmList) (e v p x : ℕ)
    → x ≢ e
    → l.live x ≡ false
    → (insert_behind (some e) l v p).1.live x ≡ false
unfolding insert_behind link
insert_behind_unused l e v p x other unused = ground (arith, other)

-- A sorted insertion uses its entry alone.
pub insert_unused :
    (l l' : FtmList) (e v x : ℕ) (r : Ret) (compares : ℕ → ℕ → Ordering)
    → l.comparator ≡ some compares
    → insert (some e) l v ascending ≡ done (r, l')
    → x ≢ e
    → l.live x ≡ false
    → l'.live x ≡ false
unfolding insert insert_before
insert_unused l l' e v x r compares has_one run other unused =
    let (l1, waited, rest) =
      bind-eq-done (wait l) (λ k. insert_before (some e) k v is_gt k.comparator) run in
    let same_one : l1.comparator ≡ some compares = wait_comparator l l1 waited ∙ has_one in
    let (a, _, last) =
      bind-eq-done (walk (l1.count + 1) l1 (λ d. is_gt (compares d v)) (l1.next head))
        (λ a. done (insert_behind (some e) l1 v (l1.prev a))) (rw same_one at rest) in
    sym (ap (λ d. d.1.live x) (done-injective last))
    ∙ insert_behind_unused l1 e v (l1.prev a) x other (wait_live l l1 x waited ∙ unused)
