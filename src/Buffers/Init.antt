-- ===== src/Buffers/Init.antt =====
-- InitConnection's loops over the two arrays give lists of all the buffers.
use net_gitaroo.Common.{
  List, [], ap, arith, count, false, if◌then◌else◌, leb, length, ltb, mem, not-mem_of_count, refl,
  subst, suc, sym, zero, ℕ, ◌&&◌, ◌+◌, ◌<◌, ◌∙◌, ◌∷◌, ◌≡◌, ◌≢◌, ◌≤◌,
}
use net_gitaroo.Packets.{
  Heap, PacketBuffer, Pool, Ptr, null, num_packet_buffers, num_tx_packet_buffers, put_next,
}
use net_gitaroo.Buffers.Owned.{Owned}
use net_gitaroo.Buffers.Chain.{Chain, Chain-put, put_ne, put_self}
use net_gitaroo.Buffers.Rx.{init_lists, link_array, rx_base, tx_base}

-- The `n` addresses from `p` on.
abbrev pub range : Ptr → ℕ → List Ptr
range p zero = []
range p (suc n) = p ∷ range (p + 1) n

length-range : (n : ℕ) (p : Ptr) → length (range p n) ≡ n
length-range zero p = refl
length-range (suc n) p = ap suc (length-range n (p + 1))

count-range :
    (n : ℕ) (p a : Ptr) → count a (range p n) ≡ (if leb p a && ltb a (p + n) then 1 else 0)
count-range zero p a = ground arith
count-range (suc n) p a = ground (arith, count-range n (p + 1) a)

link_array-below : (n : ℕ) (p a : Ptr) (h : Heap) → a < p → link_array n p h a ≡ h a
unfolding link_array
link_array-below zero p a h lt = put_ne h p a _ (ground arith)
link_array-below (suc n) p a h lt =
    link_array-below n (p + 1) a _ (omega arith) ∙ put_ne h p a _ (ground arith)

link_array-above : (n : ℕ) (p a : Ptr) (h : Heap) → p + n < a → link_array n p h a ≡ h a
unfolding link_array
link_array-above zero p a h lt = put_ne h p a _ (ground arith)
link_array-above (suc n) p a h lt =
    link_array-above n (p + 1) a _ (omega arith) ∙ put_ne h p a _ (ground arith)

link_array-suc :
    (n : ℕ) (p : Ptr) (h : Heap)
    → link_array (suc n) p h ≡ link_array n (p + 1) (put_next h p (p + 1))
unfolding link_array
link_array-suc n p h = refl

link_array-zero : (p : Ptr) (h : Heap) → link_array 0 p h ≡ put_next h p null
unfolding link_array
link_array-zero p h = refl

link_array-Chain :
    (n : ℕ) (p : Ptr) (h : Heap) → p ≢ null → Chain (link_array n p h) p (range p (suc n))
link_array-Chain zero p h ne = (refl, ne, rw (link_array-zero p h, put_self))
link_array-Chain (suc n) p h ne =
    let g : Heap = put_next h p (p + 1) in
    let next : (link_array n (p + 1) g p).next ≡ p + 1 =
      ap (λ (b : PacketBuffer). b.next)
        (link_array-below n (p + 1) p g (omega arith) ∙ put_self h p _) in
    let rest = link_array-Chain n (p + 1) g (ground arith) in
    subst (λ (k : Heap). Chain k p (range p (suc (suc n)))) (sym (link_array-suc n p h))
      (
        refl,
        ne,
        subst (λ (q : Ptr). Chain (link_array n (p + 1) g) q (range (p + 1) (suc n))) (sym next)
            rest,
      )

-- A list in low memory survives the linking of an array above it.
Chain-link_array :
    (n : ℕ) (p q : Ptr) (h : Heap) (xs : List Ptr)
    → ((a : Ptr) → p ≤ a → mem a xs ≡ false)
    → Chain h q xs
    → Chain (link_array n p h) q xs
unfolding link_array
Chain-link_array zero p q h xs out c = Chain-put h q xs p _ (out p (omega arith)) c
Chain-link_array (suc n) p q h xs out c =
    Chain-link_array n (p + 1) q _ xs (λ a le. out a (omega arith))
      (Chain-put h q xs p _ (out p (omega arith)) c)

-- When InitConnection has set up its two lists, before it registers with netman, every buffer is
-- free: the receive list holds the 25 receive buffers and the transmit list the 16 transmit buffers,
-- each once; if the transmit queue is empty before.
pub init_lists-Owned :
    (s : Pool)
    → s.next_tx_packet_buffer ≡ null
    → Owned
        (init_lists s)
        (range rx_base num_packet_buffers)
        []
        (range tx_base num_tx_packet_buffers)
        []
        []
unfolding init_lists
init_lists-Owned s e = record {
  rx =
      Chain-link_array 15 tx_base rx_base _ (range rx_base num_packet_buffers)
        (λ a le. not-mem_of_count a (range rx_base 25) (ground (arith, count-range 25 rx_base a)))
        (link_array-Chain 24 rx_base s.heap (ground arith));
  free = link_array-Chain 15 tx_base _ (ground arith);
  queue = e;
  rx_once = λ a. ground (arith, count-range num_packet_buffers rx_base a);
  tx_once = λ a. ground (arith, count-range num_tx_packet_buffers tx_base a);
  total = refl;
}
