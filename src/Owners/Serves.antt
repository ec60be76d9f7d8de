-- ===== src/Owners/Serves.antt =====
-- Runs of the entry points of src/networking.c with the receive buffers that netman holds.
use net_gitaroo.Common.{
  List, [], ap, arith, count-append, length, length-append, some, suc, sym, ℕ, ◌++◌, ◌+◌, ◌∙◌, ◌∷◌,
  ◌≡◌, ◌≢◌,
}
use net_gitaroo.Buffers.Owned.{Owned}
use net_gitaroo.Buffers.Rx.{alloc_rx_packet, free_rx_packet, init_lists, realloc_rx_packet}
use net_gitaroo.Buffers.RxLaws.{alloc_rx_packet-fails, alloc_rx_packet-free}
use net_gitaroo.Buffers.Tx.{after_tx_packet, deq_tx_packet, next_tx_packet}
use net_gitaroo.Dhcp.Client.{process_dhcp}
use net_gitaroo.Dhcp.Reply.{link_state_down, link_state_up}
use net_gitaroo.GameNet.Send.{PadInput, send_game_state}
use net_gitaroo.Ip.{enq_rx_packet}
use net_gitaroo.Logging.{log_str}
use net_gitaroo.Menu.Handle.{handle_screen, leave_menu}
use net_gitaroo.Net.{Env, Net}
use net_gitaroo.Owners.Senders.{Clean}
use net_gitaroo.Packets.{Pool, Ptr, null}
use net_gitaroo.Menu.Data.{Fpu, Menu}

-- One entry point, and the receive buffers that netman holds before and after it: netman delivers
-- or frees only what AllocRxPacket gave to it.
pub data Serves (env : Env) : Net → List Ptr → Net → List Ptr → Type 0 where
  gives :
      {s : Net} {h : List Ptr} (size : ℕ)
      → (alloc_rx_packet size s.pool).0 ≢ null
      → Serves env s h
          (record s { pool = (alloc_rx_packet size s.pool).1 })
          ((alloc_rx_packet size s.pool).0 ∷ h)
  refuses :
      {s : Net} {h : List Ptr} (size : ℕ)
      → (alloc_rx_packet size s.pool).0 ≡ null
      → Serves env s h (record s { pool = (alloc_rx_packet size s.pool).1 }) h
  receives :
      {s : Net} {h h' : List Ptr} (before : List Ptr) (packet : Ptr) (after : List Ptr)
      → h ≡ before ++ (packet ∷ after)
      → h' ≡ before ++ after
      → Serves env s h (enq_rx_packet env packet s) h'
  frees :
      {s : Net} {h h' : List Ptr} (before : List Ptr) (packet : Ptr) (after : List Ptr)
      → h ≡ before ++ (packet ∷ after)
      → h' ≡ before ++ after
      → Serves env s h (record s { pool = free_rx_packet packet s.pool }) h'
  resizes :
      {s : Net} {h : List Ptr} (packet size : ℕ)
      → Serves env s h (record s { pool = realloc_rx_packet packet size s.pool }) h
  linked : {s : Net} {h : List Ptr} → Serves env s h (link_state_up env s) h
  unlinked : {s : Net} {h : List Ptr} → Serves env s h (link_state_down s) h
  ticked : {s : Net} {h : List Ptr} → Serves env s h (process_dhcp env s) h
  played : {s : Net} {h : List Ptr} (pad : PadInput) → Serves env s h (send_game_state env pad s) h
  printed :
      {s t : Net} {h : List Ptr} (str : List ℕ) → log_str env str s ≡ some t → Serves env s h t h
  browsed :
      {s : Net} {h : List Ptr} (fpu : Fpu) (pad : PadInput) (original : Menu → Menu) (m : Menu)
      → Serves env s h (handle_screen fpu env pad original m s).1 h
  closed : {s : Net} {h : List Ptr} (ret : ℕ) → Serves env s h (leave_menu env ret s) h
  handed :
      {s : Net} {h : List Ptr} → Serves env s h (record s { pool = (next_tx_packet s.pool).2 }) h
  prepared :
      {s : Net} {h : List Ptr} → Serves env s h (record s { pool = (after_tx_packet s.pool).2 }) h
  dequeued : {s : Net} {h : List Ptr} → Serves env s h (record s { pool = deq_tx_packet s.pool }) h

pub data ServesAll (env : Env) (s : Net) : Net → List Ptr → Type 0 where
  initialised : ServesAll env s (record s { pool = init_lists s.pool }) []
  followed :
      {t u : Net} {h h' : List Ptr}
      → ServesAll env s t h
      → Serves env t h u h'
      → ServesAll env s u h'

-- The 25 receive buffers are those that netman holds and the free ones `rxs`.
abbrev pub Balanced : Net → List Ptr → Type 0
Balanced s h = (rxs : List Ptr) × Clean s rxs h × (length rxs + length h ≡ 25)

refused-lists :
    (s : Pool) (size : ℕ)
    → s.free_packet_buffer ≡ null
    → let t = (alloc_rx_packet size s).1 in
      (t.heap ≡ s.heap)
      × (t.free_packet_buffer ≡ s.free_packet_buffer)
      × (t.free_tx_packet_buffer ≡ s.free_tx_packet_buffer)
      × (t.next_tx_packet_buffer ≡ s.next_tx_packet_buffer)
unfolding alloc_rx_packet
refused-lists s size e = (ground arith, ground arith, ground arith, ground arith)

-- Which of the held buffers comes first does not matter.
pub regroup :
    {s : Pool} {rxs fs qs held : List Ptr} (before : List Ptr) (p : Ptr) (after : List Ptr)
    → Owned s rxs (before ++ (p ∷ after)) fs qs held
    → Owned s rxs (p ∷ (before ++ after)) fs qs held
regroup before p after o = record {
  rx = o.rx;
  free = o.free;
  queue = o.queue;
  rx_once = λ a.
      omega (arith, o.rx_once a, count-append a before (p ∷ after), count-append a before after);
  tx_once = o.tx_once;
  total = o.total;
}

pub regroup-length :
    {h h' : List Ptr} (n : ℕ) (before : List Ptr) (p : Ptr) (after : List Ptr)
    → h ≡ before ++ (p ∷ after)
    → h' ≡ before ++ after
    → n + length h ≡ 25
    → suc n + length h' ≡ 25
regroup-length n before p after e e' total = omega (
  arith,
  total,
  ap length e,
  ap length e',
  length-append before (p ∷ after),
  length-append before after,
)

pub gives-Balanced :
    (s : Net) (h : List Ptr) (size : ℕ)
    → (alloc_rx_packet size s.pool).0 ≢ null
    → Balanced s h
    → Balanced
        (record s { pool = (alloc_rx_packet size s.pool).1 })
        ((alloc_rx_packet size s.pool).0 ∷ h)
gives-Balanced s h size ne ([], (fs, qs, o), n) = absurd (ne (alloc_rx_packet-fails size o).0)
gives-Balanced s h size ne (p ∷ rxs, (fs, qs, o), n) =
    let (e, _, _, o') = alloc_rx_packet-free size p o in (rxs, (fs, qs, rw e o'), omega (arith, n))

pub refuses-Balanced :
    (s : Net) (h : List Ptr) (size : ℕ)
    → (alloc_rx_packet size s.pool).0 ≡ null
    → Balanced s h
    → Balanced (record s { pool = (alloc_rx_packet size s.pool).1 }) h
refuses-Balanced s h size e ([], (fs, qs, o), n) =
    let (same, f, t, q) = refused-lists s.pool size o.rx in
    (
      [],
      (
        fs,
        qs,
        record {
          rx = f ∙ o.rx;
          free = rw (same, t) o.free;
          queue = rw (same, q) o.queue;
          rx_once = o.rx_once;
          tx_once = o.tx_once;
          total = o.total;
        },
      ),
      n,
    )
refuses-Balanced s h size e (p ∷ rxs, (fs, qs, o), n) =
    absurd (o.rx.1 (sym (alloc_rx_packet-free size p o).0 ∙ e))
