-- ===== src/Buffers/Chain.antt =====
-- Linked lists of packet buffers in memory, and what a write leaves of them.
use net_gitaroo.Common.{List, [], arith, false, mem, ◌==◌, ◌∷◌, ◌≡◌, ◌≢◌}
use net_gitaroo.Packets.{Heap, PacketBuffer, Ptr, null, put}

pub put_self : (h : Heap) (p : Ptr) (b : PacketBuffer) → put h p b p ≡ b
unfolding put
put_self h p b = ground arith

pub put_ne : (h : Heap) (p a : Ptr) (b : PacketBuffer) → (a == p) ≡ false → put h p b a ≡ h a
unfolding put
put_ne h p a b e = ground arith

-- From `p` the `next` pointers lead through exactly the buffers `xs` to NULL.
abbrev pub Chain : Heap → Ptr → List Ptr → Type 0
Chain h p [] = p ≡ null
Chain h p (x ∷ xs) = (p ≡ x) × (x ≢ null) × Chain h (h x).next xs

pub Chain-put :
    (h : Heap) (p : Ptr) (xs : List Ptr) (a : Ptr) (b : PacketBuffer)
    → mem a xs ≡ false
    → Chain h p xs
    → Chain (put h a b) p xs
unfolding put
Chain-put h p [] a b out c = c
Chain-put h p (x ∷ xs) a b out c =
    (c.0, c.1, ground (arith, Chain-put h (h x).next xs a b (ground arith) c.2))

-- A write that keeps the pointer keeps every list.
pub Chain-put_same :
    (h : Heap) (p : Ptr) (xs : List Ptr) (a : Ptr) (b : PacketBuffer)
    → b.next ≡ (h a).next
    → Chain h p xs
    → Chain (put h a b) p xs
unfolding put
Chain-put_same h p [] a b e c = c
Chain-put_same h p (x ∷ xs) a b e c =
    (c.0, c.1, ground (arith, Chain-put_same h (h x).next xs a b e c.2))
