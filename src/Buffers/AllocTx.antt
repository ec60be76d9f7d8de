-- ===== src/Buffers/AllocTx.antt =====
-- AllocTxPacket: a free buffer if there is one, else the last queued buffer that may be evicted.
use net_gitaroo.Common.{
  List, [], ap, arith, count-append, false, length-append, refl, true, ℕ, ◌++◌, ◌==◌, ◌∷◌, ◌≡◌, ◌≢◌,
}
use net_gitaroo.Packets.{Heap, Pool, Ptr, max_rounds, null}
use net_gitaroo.Buffers.Owned.{Owned, put_same-Owned, queue-Distinct, queued_apart}
use net_gitaroo.Buffers.Tx.{alloc_tx_packet, find_victim, mark, unlink, unlink_behind}
use net_gitaroo.Buffers.Victim.{
  LastEligible, NoneEligible, find_victim-last, find_victim-none, unlink_behind-Unlinked,
}
use net_gitaroo.Buffers.Chain.{Chain, Chain-put}

-- the pool after the eviction of `buf`
evicted : Pool → ℕ → Ptr → Pool
evicted s priority buf =
    let t = unlink s buf in record t { heap = mark t.heap buf priority; interrupts = true }

-- Unlinking a queued buffer hands it to the caller.
unlink-first :
    (s : Pool) (v : Ptr)
    → v ≢ null
    → s.next_tx_packet_buffer ≡ v
    → unlink s v ≡ record s { next_tx_packet_buffer = (s.heap v).next }
unfolding unlink
unlink-first s v ne e = ground arith

unlink-later :
    (s : Pool) (x v : Ptr)
    → v ≢ null
    → (v == x) ≡ false
    → s.next_tx_packet_buffer ≡ x
    → unlink s v ≡ record s { heap = unlink_behind max_rounds s.heap x v }
unfolding unlink
unlink-later s x v ne other e = ground (arith, ap (λ t. unlink_behind max_rounds s.heap t v) e)

pub Chain-member :
    (h : Heap) (p : Ptr) (before : List Ptr) (v : Ptr) (after : List Ptr)
    → Chain h p (before ++ (v ∷ after))
    → v ≢ null
Chain-member h p [] v after c = c.1
Chain-member h p (x ∷ xs) v after c = Chain-member h (h x).next xs v after c.2

unlink-Owned :
    {s : Pool} {rxs rx_held held : List Ptr} (before : List Ptr) (v : Ptr) (after : List Ptr)
    → Owned s rxs rx_held [] (before ++ (v ∷ after)) held
    → Owned (unlink s v) rxs rx_held [] (before ++ after) (v ∷ held)
unlink-Owned {s} [] v after o = rw (unlink-first s v o.queue.1 o.queue.0) (record {
  rx = o.rx;
  free = o.free;
  queue = o.queue.2;
  rx_once = o.rx_once;
  tx_once = λ a. omega (arith, o.tx_once a);
  total = omega (arith, o.total);
})
unlink-Owned {s} {rxs} (x ∷ xs) v after o =
    let ne = Chain-member s.heap s.next_tx_packet_buffer (x ∷ xs) v after o.queue in
    let other : (v == x) ≡ false =
      ground (arith, queue-Distinct o v, count-append v xs (v ∷ after)) in
    let u =
      unlink_behind-Unlinked s.heap max_rounds x xs v after (refl, o.queue.1, o.queue.2)
        (queue-Distinct o) (omega (arith, o.total)) in
    let out =
      queued_apart o u.place (omega (arith, u.inside, count-append u.place (x ∷ xs) (v ∷ after))) in
    rw (unlink-later s x v ne other o.queue.0) (record {
      rx = rw u.written (Chain-put s.heap s.free_packet_buffer rxs u.place _ out.0 o.rx);
      free = o.free;
      queue = (o.queue.0, u.chain.1, u.chain.2);
      rx_once = o.rx_once;
      tx_once = λ a.
          omega (
            arith,
            o.tx_once a,
            count-append a (x ∷ xs) (v ∷ after),
            count-append a (x ∷ xs) after,
          );
      total =
          omega (arith, o.total, length-append (x ∷ xs) (v ∷ after), length-append (x ∷ xs) after);
    })

module _ {s : Pool} {rxs rx_held held : List Ptr} (uninit : Ptr) (priority : ℕ) where
  pub allocated_free :
      {fs qs : List Ptr} (p : Ptr)
      → Owned s rxs rx_held (p ∷ fs) qs held
      → alloc_tx_packet uninit priority s ≡ (
        p,
        record s {
          free_tx_packet_buffer = (s.heap p).next;
          heap = mark s.heap p priority;
          interrupts = true;
        },
      )
  unfolding alloc_tx_packet
  allocated_free p o = ground arith

  -- With a free buffer, AllocTxPacket hands out the first one: it leaves the free list and is owned
  -- by the caller, no packet is evicted, and no other buffer changes its owner.
  pub alloc_tx_packet-free :
      {fs qs : List Ptr} (p : Ptr)
      → Owned s rxs rx_held (p ∷ fs) qs held
      → let (buf, t) = alloc_tx_packet uninit priority s in
        (buf ≡ p) × Owned t rxs rx_held fs qs (p ∷ held)
  alloc_tx_packet-free {fs} {qs} p o = rw (allocated_free p o) (
    refl,
    put_same-Owned {s = taken} p _ refl (record {
      rx = o.rx;
      free = o.free.2;
      queue = o.queue;
      rx_once = o.rx_once;
      tx_once = λ a. omega (arith, o.tx_once a);
      total = omega (arith, o.total);
    }),
  )
    where
      taken : Pool
      taken = record s { free_tx_packet_buffer = (s.heap p).next }

  allocated_evicting :
      {qs : List Ptr} (v : Ptr)
      → Owned s rxs rx_held [] qs held
      → find_victim max_rounds s.heap priority s.next_tx_packet_buffer uninit ≡ v
      → alloc_tx_packet uninit priority s ≡ (v, evicted s priority v)
  unfolding alloc_tx_packet evicted
  allocated_evicting v o e = rw (o.free, e)

  failed :
      {qs : List Ptr}
      → Owned s rxs rx_held [] qs held
      → NoneEligible s.heap priority qs
      → alloc_tx_packet uninit priority s ≡ (uninit, evicted s priority uninit)
  failed {qs} o n =
      let e =
        find_victim-none s.heap priority max_rounds s.next_tx_packet_buffer uninit qs o.queue
          (omega (arith, o.total)) n in
      allocated_evicting uninit o e

  -- With no free buffer and no queued packet that may be evicted, AllocTxPacket returns what its
  -- uninitialised local held, whatever that is: not NULL, as its callers expect of a failure.
  pub alloc_tx_packet-uninit :
      {qs : List Ptr}
      → Owned s rxs rx_held [] qs held
      → NoneEligible s.heap priority qs
      → (alloc_tx_packet uninit priority s).0 ≡ uninit
  alloc_tx_packet-uninit o n = rw (failed o n)

  -- With no free buffer, AllocTxPacket evicts the last queued packet that is not being transmitted
  -- and whose priority number is not below the new one: that buffer is owned by the caller, the
  -- rest of the queue keeps its order, and no other buffer changes its owner.
  pub alloc_tx_packet-evicts :
      {qs before after : List Ptr} (v : Ptr)
      → Owned s rxs rx_held [] qs held
      → LastEligible s.heap priority qs before v after
      → let (buf, t) = alloc_tx_packet uninit priority s in
        (buf ≡ v) × Owned t rxs rx_held [] (before ++ after) (v ∷ held)
  alloc_tx_packet-evicts {qs} {before} {after} v o l =
      let o' = rw l.split at o in
      let e =
        find_victim-last s.heap priority max_rounds s.next_tx_packet_buffer uninit before v after
          o'.queue (omega (arith, o'.total)) l.eligible l.none_after in
      rw (allocated_evicting v o e) (
        refl,
        unfold evicted in put_same-Owned {s = unlink s v} v _ refl (unlink-Owned before v after o'),
      )

-- With its local NULL, a failed AllocTxPacket returns NULL and no buffer changes its owner.
pub alloc_tx_packet-fails :
    {s : Pool} {rxs rx_held qs held : List Ptr} (priority : ℕ)
    → Owned s rxs rx_held [] qs held
    → NoneEligible s.heap priority qs
    → let (buf, t) = alloc_tx_packet null priority s in
      (buf ≡ null) × Owned t rxs rx_held [] qs held
unfolding evicted unlink
alloc_tx_packet-fails {s} priority o n =
    rw (failed null priority o n) (refl, put_same-Owned {s = s} null _ refl o)
