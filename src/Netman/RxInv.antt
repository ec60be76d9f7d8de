-- ===== src/Netman/RxInv.antt =====
-- What holds of the receive ring: the descriptors by the position of their frame, counted from the
-- start; a position's slot is its remainder by 24. The positions from `c` on are still in use on
-- the IOP, those from `t` on are not yet taken by the EE, those from `a` on have not arrived, those from
-- `q` on have not been given to SIF0, and `e` is the next one.
use net_gitaroo.Common.{List, [], suc, ℕ, ◌%◌, ◌+◌, ◌<◌, ◌∷◌, ◌≡◌, ◌≢◌, ◌≤◌}
use net_gitaroo.Packets.{Ptr}
use net_gitaroo.Netman.RxRing.{DmaReq, RxBd, RxRing}
use net_gitaroo.Netman.RxStack.{RxStack}
use net_gitaroo.Netman.Span.{span}

-- A received frame: its length and its name.
abbrev pub Frame : Type 0
Frame = ℕ × ℕ

-- The slot of a position.
abbrev pub slot : ℕ → ℕ
slot k = k % 24

-- The request for position `k`, where the buffers' bytes are at `dest`.
abbrev pub IsReq : (dest : ℕ → ℕ) → DmaReq → ℕ → Type 0
IsReq dest x k = (x.source ≡ slot k) × (x.dest ≡ dest (slot k)) × (x.index ≡ slot k)

abbrev pub Requests : (dest : ℕ → ℕ) → List DmaReq → (a q : ℕ) → Type 0
Requests dest [] a q = a ≡ q
Requests dest (x ∷ xs) a q = IsReq dest x a × Requests dest xs (suc a) q

abbrev pub Slots : List ℕ → (c t : ℕ) → Type 0
Slots [] c t = c ≡ t
Slots (i ∷ is) c t = (i ≡ slot c) × Slots is (suc c) t

pub record IopSide (dest : ℕ → ℕ) (pk : ℕ → Ptr) (hist : ℕ → Frame) (st : ℕ → RxBd) (fb : ℕ → ℕ)
    (c t e : ℕ) : Type 0 where
  pub used : (k : ℕ) → c ≤ k → k < e → (st (slot k)).length ≢ 0
  pub lengths : (k : ℕ) → t ≤ k → k < e → (st (slot k)).length ≡ (hist k).0
  pub frames : (k : ℕ) → t ≤ k → k < e → fb (slot k) ≡ (hist k).1
  pub free : (k : ℕ) → e ≤ k → k < c + 24 → (st (slot k)).length ≡ 0
  pub packets : (k : ℕ) → t ≤ k → k < c + 24 → (st (slot k)).packet ≡ pk (slot k)
  pub payloads : (k : ℕ) → t ≤ k → k < c + 24 → (st (slot k)).payload ≡ dest (slot k)

pub record EeSide (dest : ℕ → ℕ) (pk : ℕ → Ptr) (hist : ℕ → Frame) (st : ℕ → RxBd) (fr : ℕ → ℕ)
    (t a : ℕ) : Type 0 where
  pub lengths : (k : ℕ) → t ≤ k → k < a → (st (slot k)).length ≡ (hist k).0
  pub frames : (k : ℕ) → t ≤ k → k < a → fr (dest (slot k)) ≡ (hist k).1
  pub clear : (k : ℕ) → a ≤ k → k < t + 24 → (st (slot k)).length ≡ 0
  pub packets : (i : ℕ) → i < 24 → (st i).packet ≡ pk i
  pub payloads : (i : ℕ) → i < 24 → (st i).payload ≡ dest i

abbrev pub dest_of : (stack : RxStack) → (ℕ → Ptr) → ℕ → ℕ
dest_of stack pk i = stack.data_of (pk i)

pub record RxInv (stack : RxStack) (r : RxRing stack.State) (hist : ℕ → Frame) (pk : ℕ → Ptr)
    (c t a q e : ℕ) : Type 0 where
  pub order : (c ≤ t) × (t ≤ a) × (a ≤ q) × (e ≤ c + 24)
  pub wr : r.wr_ptr ≡ slot e
  pub queue_size : q + r.num_frames_in_queue ≡ e
  pub rd : (r.rd_ptr ≡ slot t) × (r.next_rd_ptr ≡ slot t)
  pub iop : IopSide (dest_of stack pk) pk hist r.iop_status r.frame_buffer c t e
  pub ee : EeSide (dest_of stack pk) pk hist r.ee_status r.ee_frames t a
  pub sent : Requests (dest_of stack pk) r.to_ee a q
  pub queued :
      (i : ℕ) → i < r.num_frames_in_queue → IsReq (dest_of stack pk) (r.dmat_reqs i) (q + i)
  pub returning : Slots r.to_iop c t
  pub positive : (k : ℕ) → t ≤ k → k < e → 0 < (hist k).0
  pub distinct : (i j : ℕ) → i < 24 → j < 24 → pk i ≡ pk j → i ≡ j
  pub holds : stack.Holds r.stack (span pk 0 24)
