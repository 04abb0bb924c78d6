-- ===== src/Analyzer/Order.antt =====
-- The order into which `FTM_ANALIZER_PCAP_calcScore` of lib/ftm_analyzer.c brings the packets.
use mathlib.Core.List.Permᴰ
use mathlib.Core.List.{Permᴰ}
use catchb.Base.{
  ℕ, zero, suc, ◌<◌, ◌≤◌, ◌≡◌, refl, arith, List, [], ◌∷◌, length, ltb, Bool-cases, inl, inr, true,
  false,
}
use catchb.Score.{Packet, protocol}
use catchb.Analyzer.{sift, order_from, order}

sift-perm :
    (header first : Packet) (ps : List Packet)
    → let (f, ps') = sift header first ps in Permᴰ (first ∷ ps) (f ∷ ps')
unfolding sift
sift-perm header first [] = Permᴰ.refl (first ∷ [])
sift-perm header first (p ∷ ps) = elim (Bool-cases (ltb (protocol p) (protocol header))) [
  | inl less ↦
      rw less (Permᴰ.trans (Permᴰ.cons refl (sift-perm header p ps)) (Permᴰ.swap refl refl))
  | inr more ↦ rw more (
      Permᴰ.trans (Permᴰ.swap refl refl)
        (Permᴰ.trans (Permᴰ.cons refl (sift-perm header first ps)) (Permᴰ.swap refl refl)))
]

order_from-perm : (n : ℕ) (ps : List Packet) → Permᴰ ps (order_from n ps)
unfolding order_from
order_from-perm zero ps = Permᴰ.refl ps
order_from-perm (suc n) [] = Permᴰ.nil
order_from-perm (suc n) (p ∷ ps) =
    let (f, ps') = sift p p ps in
    Permᴰ.trans (sift-perm p p ps) (Permᴰ.cons refl (order_from-perm n ps'))

-- The loops that order the captured packets lose none and double none.
pub order-perm : (ps : List Packet) → Permᴰ ps (order ps)
unfolding order
order-perm ps = order_from-perm (length ps) ps

-- Two packets come into the order of their protocols.
order_two :
    (p q : Packet)
    → (protocol p ≤ protocol q → order (p ∷ q ∷ []) ≡ p ∷ q ∷ [])
      × (protocol q < protocol p → order (p ∷ q ∷ []) ≡ q ∷ p ∷ [])
unfolding order order_from sift
order_two p q = (
  (λ h. let less : ltb (protocol q) (protocol p) ≡ false = ground arith in rw less),
  (λ h. let more : ltb (protocol q) (protocol p) ≡ true = ground arith in rw more),
)

-- Three packets of which the first has the greatest protocol and the second the least end up
-- with the middle protocol in front: the loop compares the header of the packet that has left
-- the place.
order_three_unsorted :
    (p q r : Packet)
    → protocol q < protocol r
    → protocol r < protocol p
    → order (p ∷ q ∷ r ∷ []) ≡ r ∷ q ∷ p ∷ []
unfolding order order_from sift
order_three_unsorted p q r h k =
    let a : ltb (protocol q) (protocol p) ≡ true = ground arith in
    let b : ltb (protocol r) (protocol p) ≡ true = ground arith in rw (a, b) (rw a)
