-- ===== src/Netman/RxStack.antt =====
-- What netman's receive thread uses of the network stack: struct NetManNetProtStack, with what it
-- relies on.
use net_gitaroo.Common.{List, count, false, length, mem, ℕ, ◌∷◌, ◌≡◌, ◌≢◌, ◌≤◌}
use net_gitaroo.Packets.{Ptr, null}

-- The callbacks over the stack's own state, and `Holds s h`: the packets `h` are netman's.
pub record RxStack : Type 1 where
  pub State : Type 0
  -- the packet, NULL on a failure, and where its bytes are (`*payload`)
  pub alloc_rx_packet : ℕ → State → Ptr × State
  pub data_of : Ptr → ℕ
  pub realloc_rx_packet : Ptr → ℕ → State → State
  pub enq_rx_packet : Ptr → State → State
  -- what ReallocRxPacket set a packet's size to
  pub size_of : Ptr → State → ℕ
  pub Holds : State → List Ptr → Type 0
  pub capacity : ℕ
  pub data_injective : (p q : Ptr) → data_of p ≡ data_of q → p ≡ q
  pub gives :
      (n : ℕ) (s : State) (h : List Ptr)
      → Holds s h
      → (alloc_rx_packet n s).0 ≢ null
      → Holds (alloc_rx_packet n s).1 ((alloc_rx_packet n s).0 ∷ h)
        × (mem (alloc_rx_packet n s).0 h ≡ false)
  pub refuses :
      (n : ℕ) (s : State) (h : List Ptr)
      → Holds s h
      → (alloc_rx_packet n s).0 ≡ null
      → Holds (alloc_rx_packet n s).1 h × (capacity ≤ length h)
  pub full :
      (n : ℕ) (s : State) (h : List Ptr)
      → Holds s h
      → capacity ≤ length h
      → (alloc_rx_packet n s).0 ≡ null
  pub resized : (p : Ptr) (n : ℕ) (s : State) → size_of p (realloc_rx_packet p n s) ≡ n
  pub resizes :
      (p : Ptr) (n : ℕ) (s : State) (h : List Ptr) → Holds s h → Holds (realloc_rx_packet p n s) h
  pub receives :
      (p : Ptr) (s : State) (h : List Ptr) → Holds s (p ∷ h) → Holds (enq_rx_packet p s) h
  pub reorders :
      (s : State) (h h' : List Ptr)
      → ((a : Ptr) → count a h ≡ count a h')
      → length h ≡ length h'
      → Holds s h
      → Holds s h'
