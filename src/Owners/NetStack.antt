-- ===== src/Owners/NetStack.antt =====
-- The network stack of src/networking.c as netman's receive thread uses it.
use net_gitaroo.Common.{
  List, [], arith, count, count_self, false, length, mem, not-mem_of_count, refl, ℕ, ◌∷◌, ◌≡◌, ◌≢◌,
  ◌≤◌,
}
use net_gitaroo.Buffers.Owned.{fill-Owned}
use net_gitaroo.Buffers.Rx.{alloc_rx_packet, realloc_rx_packet}
use net_gitaroo.Buffers.RxLaws.{alloc_rx_packet-fails, alloc_rx_packet-free}
use net_gitaroo.Ip.{enq_rx_packet}
use net_gitaroo.Net.{Env, Net}
use net_gitaroo.Netman.RxStack.{RxStack}
use net_gitaroo.Owners.Frames.{enq_rx_packet-Kept}
use net_gitaroo.Owners.Senders.{StartsNull, clean}
use net_gitaroo.Packets.{Ptr, null, put}
use net_gitaroo.Owners.Entries.{fails_iff}
use net_gitaroo.Owners.Serves.{Balanced, gives-Balanced, refuses-Balanced}

-- A packet that AllocRxPacket gives is none of those that netman holds.
fresh :
    (n : ℕ) (s : Net) (h : List Ptr)
    → (alloc_rx_packet n s.pool).0 ≢ null
    → Balanced s h
    → mem (alloc_rx_packet n s.pool).0 h ≡ false
fresh n s h ne ([], (fs, qs, o), l) = absurd (ne (alloc_rx_packet-fails n o).0)
fresh n s h ne (p ∷ rxs, (fs, qs, o), l) =
    rw (alloc_rx_packet-free n p o).0
      (not-mem_of_count p h (ground (arith, o.rx_once p, count_self p rxs)))

pub net_gives :
    (n : ℕ) (s : Net) (h : List Ptr)
    → Balanced s h
    → (alloc_rx_packet n s.pool).0 ≢ null
    → Balanced (record s { pool = (alloc_rx_packet n s.pool).1 }) ((alloc_rx_packet n s.pool).0 ∷ h)
      × (mem (alloc_rx_packet n s.pool).0 h ≡ false)
net_gives n s h b ne = (gives-Balanced s h n ne b, fresh n s h ne b)

pub net_refuses :
    (n : ℕ) (s : Net) (h : List Ptr)
    → Balanced s h
    → (alloc_rx_packet n s.pool).0 ≡ null
    → Balanced (record s { pool = (alloc_rx_packet n s.pool).1 }) h × (25 ≤ length h)
net_refuses n s h b e = (refuses-Balanced s h n e b, omega (arith, (fails_iff s n b).0 e))

pub net_full :
    (n : ℕ) (s : Net) (h : List Ptr)
    → Balanced s h
    → 25 ≤ length h
    → (alloc_rx_packet n s.pool).0 ≡ null
net_full n s h b all = (fails_iff s n b).1 (omega (arith, b.2, all))

pub net_resized : (p : Ptr) (n : ℕ) (s : Net) → ((realloc_rx_packet p n s.pool).heap p).size ≡ n
unfolding realloc_rx_packet put
net_resized p n s = ground arith

pub net_resizes :
    (p : Ptr) (n : ℕ) (s : Net) (h : List Ptr)
    → Balanced s h
    → Balanced (record s { pool = realloc_rx_packet p n s.pool }) h
unfolding realloc_rx_packet
net_resizes p n s h (rxs, (fs, qs, o), l) = (rxs, (fs, qs, fill-Owned p _ refl o), l)

pub net_receives :
    (env : Env) (starts : StartsNull env) (p : Ptr) (s : Net) (h : List Ptr)
    → Balanced s (p ∷ h)
    → Balanced (enq_rx_packet env p s) h
net_receives env starts p s h (rxs, c, l) =
    (p ∷ rxs, clean (λ u l. enq_rx_packet-Kept env starts p s l) c, omega (arith, l))

pub net_reorders :
    (s : Net) (h h' : List Ptr)
    → ((a : Ptr) → count a h ≡ count a h')
    → length h ≡ length h'
    → Balanced s h
    → Balanced s h'
net_reorders s h h' same len (rxs, (fs, qs, o), l) = (
  rxs,
  (
    fs,
    qs,
    record {
      rx = o.rx;
      free = o.free;
      queue = o.queue;
      rx_once = λ a. omega (arith, o.rx_once a, same a);
      tx_once = o.tx_once;
      total = o.total;
    },
  ),
  omega (arith, l, len),
)

-- The callbacks of src/networking.c. A packet's `data` is named by the packet.
abbrev pub net_stack : (env : Env) → StartsNull env → RxStack
net_stack env starts = record {
  State = Net;
  alloc_rx_packet =
      λ n s. ((alloc_rx_packet n s.pool).0, record s { pool = (alloc_rx_packet n s.pool).1 });
  data_of = λ p. p;
  realloc_rx_packet = λ p n s. record s { pool = realloc_rx_packet p n s.pool };
  enq_rx_packet = enq_rx_packet env;
  size_of = λ p s. (s.pool.heap p).size;
  Holds = Balanced;
  capacity = 25;
  data_injective = λ p q e. e;
  gives = net_gives;
  refuses = net_refuses;
  full = net_full;
  resized = net_resized;
  resizes = net_resizes;
  receives = net_receives env starts;
  reorders = net_reorders;
}
