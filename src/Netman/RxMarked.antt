-- ===== src/Netman/RxMarked.antt =====
-- Batches of requests of sendFramesToEE, whose last one asks for an interrupt.
use net_gitaroo.Common.{
  Bool, List, [], arith, false, if◌then◌else◌, refl, subst, suc, true, zero, ℕ, ◌++◌, ◌-◌, ◌∷◌, ◌≡◌,
  ◌≢◌,
}
use net_gitaroo.Netman.RxRing.{DmaReq, RxRing, first_reqs}
use net_gitaroo.IpVisual.{put_at}

-- The last request of a list asks for an interrupt, if there is one.
abbrev pub LastMarked : List DmaReq → Type 0
LastMarked [] = Unit
LastMarked (x ∷ []) = x.int_o ≡ true
LastMarked (x ∷ y ∷ ys) = LastMarked (y ∷ ys)

pub LastMarked-append :
    (xs ys : List DmaReq) → LastMarked xs → LastMarked ys → LastMarked (xs ++ ys)
LastMarked-append [] ys l m = m
LastMarked-append (x ∷ []) [] l m = l
LastMarked-append (x ∷ []) (y ∷ ys) l m = m
LastMarked-append (x ∷ z ∷ xs) ys l m = LastMarked-append (z ∷ xs) ys l m

pub LastMarked-tail : (x : DmaReq) (xs : List DmaReq) → LastMarked (x ∷ xs) → LastMarked xs
LastMarked-tail x [] l = tt
LastMarked-tail x (y ∷ ys) l = l

LastMarked-first :
    (reqs : ℕ → DmaReq) (n : ℕ) → (reqs n).int_o ≡ true → LastMarked (first_reqs reqs (suc n))
LastMarked-first reqs zero h = h
LastMarked-first reqs (suc n) h = LastMarked-first (λ i. reqs (suc i)) n h

pub nil_left {ℓ} : {A : Type ℓ} (xs ys : List A) → xs ++ ys ≡ [] → xs ≡ []
nil_left [] ys e = refl
nil_left (x ∷ xs) ys e = cc

pub last_marked :
    {S : Type 0} (r : RxRing S)
    → r.num_frames_in_queue ≢ 0
    → let last = r.num_frames_in_queue - 1 in
      LastMarked (
        first_reqs
          (put_at r.dmat_reqs last (record (r.dmat_reqs last) { int_o = true }))
          r.num_frames_in_queue)
last_marked r ne =
    let last = r.num_frames_in_queue - 1 in
    let reqs = put_at r.dmat_reqs last (record (r.dmat_reqs last) { int_o = true }) in
    let n : suc last ≡ r.num_frames_in_queue = ground arith in
    subst (λ k. LastMarked (first_reqs reqs k)) n (LastMarked-first reqs last (ground arith))

pub last_interrupts :
    {P : Type 0} (x : DmaReq) (xs : List DmaReq) (pending : Bool)
    → LastMarked (x ∷ xs)
    → xs ≡ []
    → (if x.int_o then true else pending) ≡ false
    → P
last_interrupts x [] pending l e q = let k = rw l at q in cc
last_interrupts x (y ∷ ys) pending l e q = cc
