-- ===== src/Buffers/Settled.antt =====
-- The pool between two entry points: nobody holds a transmit buffer, and the transmit queue is as long
-- as the calls of AddTxPacket have made it. What an allocation and the queueing of its buffer leave of
-- that, whichever branch they take.
use net_gitaroo.Common.{
  Bool-cases, List, [], ap, arith, if◌then◌else◌, inl, inr, leb, length, length-append, refl, suc,
  sym, ℕ, ◌++◌, ◌+◌, ◌-◌, ◌==◌, ◌∷◌, ◌≡◌, ◌≢◌, ◌≤◌, ◌⊎◌,
}
use net_gitaroo.Packets.{PacketBuffer, Pool, Ptr, null, put}
use net_gitaroo.Buffers.AllocTx.{
  Chain-member, alloc_tx_packet-evicts, alloc_tx_packet-fails, alloc_tx_packet-free,
}
use net_gitaroo.Buffers.Owned.{Owned, fill-Owned}
use net_gitaroo.Buffers.QueueTx.{add_tx_packet-enqueues}
use net_gitaroo.Buffers.Tx.{add_tx_packet, alloc_tx_packet, unlink}
use net_gitaroo.Buffers.Victim.{LastEligible-or-none}

-- A length of the transmit queue, and how often AddTxPacket had been called then.
pub record Tally : Type 0 where
  pub len_before : ℕ
  pub calls_before : ℕ

-- The queue has grown by one for each call of AddTxPacket since the tally was taken, up to the
-- number of transmit buffers that are not held.
pub record Grown (tally : Tally) (held queued total_calls : ℕ) : Type 0 where
  pub since : tally.calls_before ≤ total_calls
  pub grown :
      let all = tally.len_before + (total_calls - tally.calls_before) in
      queued ≡ (if leb all (16 - held) then all else 16 - held)

-- Each buffer has one owner, the transmit buffers that code holds are `held`, and the queue has
-- grown since the tally.
abbrev pub Holding : List Ptr → Pool → Tally → (rxs rx_held : List Ptr) → Type 0
Holding held s tally rxs rx_held =
    (fs : List Ptr) × (qs : List Ptr) × Owned s rxs rx_held fs qs held
    × Grown tally (length held) (length qs) s.xmits

abbrev pub Settled : Pool → Tally → (rxs rx_held : List Ptr) → Type 0
Settled = Holding []

-- The tally of the present.
pub tallied :
    {s : Pool} {rxs rx_held fs qs : List Ptr}
    → Owned s rxs rx_held fs qs []
    → Grown (record { len_before = length qs; calls_before = s.xmits }) 0 (length qs) s.xmits
tallied o = record { since = omega arith; grown = ground (arith, o.total) }

-- A failed allocation leaves the pool settled; else the caller holds the buffer alone.
abbrev pub Allocated : Ptr × Pool → Tally → (rxs rx_held : List Ptr) → Type 0
Allocated (p, t) tally rxs rx_held =
    ((p ≡ null) × Settled t tally rxs rx_held) ⊎ ((p ≢ null) × Holding (p ∷ []) t tally rxs rx_held)

alloc_tx_packet-xmits :
    (u : Ptr) (priority : ℕ) (s : Pool) → (alloc_tx_packet u priority s).1.xmits ≡ s.xmits
unfolding alloc_tx_packet unlink
alloc_tx_packet-xmits u priority s = elim (Bool-cases (s.free_tx_packet_buffer == null)) [
  | inl a ↦ rw a (ground arith)
  | inr a ↦ rw a refl
]

shorter :
    (before : List Ptr) (v : Ptr) (after : List Ptr)
    → length (before ++ (v ∷ after)) ≡ length (before ++ after) + 1
shorter before v after = omega (arith, length-append before (v ∷ after), length-append before after)

-- What an allocation and the queueing of a buffer do to the tally.
after_alloc-Grown :
    (tally : Tally) (others queued n : ℕ)
    → suc others + queued + 0 ≡ 16
    → Grown tally 0 queued n
    → Grown tally 1 queued n
after_alloc-Grown tally others queued n total g = record {
  since = omega (arith, g.since);
  grown = ground (arith, g.since, g.grown);
}

after_evict-Grown :
    (tally : Tally) (queued n : ℕ)
    → queued + 1 ≡ 16
    → Grown tally 0 (queued + 1) n
    → Grown tally 1 queued n
after_evict-Grown tally queued n total g = record {
  since = omega (arith, g.since);
  grown = ground (arith, g.since, g.grown);
}

after_add-Grown :
    (tally : Tally) (queued n : ℕ) → Grown tally 1 queued n → Grown tally 0 (queued + 1) (n + 1)
after_add-Grown tally queued n g = record {
  since = omega (arith, g.since);
  grown = ground (arith, g.since, g.grown);
}

module _ {s : Pool} {tally : Tally} {rxs rx_held : List Ptr} where
  -- AllocTxPacket, where its uninitialised local holds NULL.
  pub alloc_tx_packet-Allocated :
      (priority : ℕ)
      → Settled s tally rxs rx_held
      → Allocated (alloc_tx_packet null priority s) tally rxs rx_held
  alloc_tx_packet-Allocated priority (p ∷ fs, qs, o, c) =
      let (e, t) = alloc_tx_packet-free null priority p o in
      let same = alloc_tx_packet-xmits null priority s in
      inr (
        rw e o.free.1,
        (
          fs,
          qs,
          rw e t,
          rw same (after_alloc-Grown tally (length fs) (length qs) s.xmits o.total c),
        ),
      )
  alloc_tx_packet-Allocated priority ([], qs, o, c) =
      let same = alloc_tx_packet-xmits null priority s in
      elim (LastEligible-or-none s.heap priority qs) [
        | inl n ↦ let (e, t) = alloc_tx_packet-fails priority o n in inl (e, ([], qs, t, rw same c))
        | inr (before, v, after, l) ↦
            let (e, t) = alloc_tx_packet-evicts null priority v o l in
            inr (
              rw e (
                  Chain-member s.heap s.next_tx_packet_buffer before v after
                    (rw l.split at o.queue)),
              (
                [],
                before ++ after,
                rw e t,
                rw same (
                    after_evict-Grown tally (length (before ++ after)) s.xmits
                      (omega (arith, shorter before v after, sym (ap length l.split), o.total))
                      (rw (sym (shorter before v after), sym (ap length l.split)) c)),
              ),
            )
      ]

  pub fill-Holding :
      {held : List Ptr} (p : Ptr) (b : PacketBuffer)
      → b.next ≡ (s.heap p).next
      → Holding held s tally rxs rx_held
      → Holding held (record s { heap = put s.heap p b }) tally rxs rx_held
  fill-Holding p b e (fs, qs, o, c) = (fs, qs, fill-Owned p b e o, c)

  pub add_tx_packet-Settled :
      (p : Ptr)
      → Holding (p ∷ []) s tally rxs rx_held
      → Settled (add_tx_packet p s) tally rxs rx_held
  add_tx_packet-Settled p (fs, qs, o, c) =
      let (o', more) = add_tx_packet-enqueues p o in
      (
        fs,
        _,
        o',
        rw (more, length-append qs (p ∷ [])) (after_add-Grown tally (length qs) s.xmits c),
      )
