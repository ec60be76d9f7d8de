-- ===== src/Examples/Buffers.antt =====
-- The theorems on the buffers at concrete pools.
use net_gitaroo.Common.{[], leb, length, refl, true, ◌++◌, ◌+◌, ◌∷◌, ◌≡◌}
use net_gitaroo.Buffers.AllocTx.{
  alloc_tx_packet-evicts, alloc_tx_packet-free, alloc_tx_packet-uninit,
}
use net_gitaroo.Examples.Pools.{
  blank_pool, fresh_pool, fresh_pool-Owned, held_pool, held_pool-Owned, queued_pool,
  queued_pool-Owned,
}
use net_gitaroo.Buffers.Init.{init_lists-Owned, range}
use net_gitaroo.Buffers.Owned.{Owned}
use net_gitaroo.Buffers.QueueTx.{add_tx_packet-enqueues}
use net_gitaroo.Buffers.Rx.{
  alloc_rx_packet, free_rx_packet, init_lists, link_array, rx_base, tx_base,
}
use net_gitaroo.Buffers.RxLaws.{alloc_rx_packet-free, free_rx_packet-frees}
use net_gitaroo.Buffers.SendTx.{
  Handed, after_tx_packet-Handed, deq_tx_packet-frees, next_tx_packet-Handed,
}
use net_gitaroo.Buffers.Tx.{
  add_tx_packet, after_tx_packet, alloc_tx_packet, deq_tx_packet, is_eligible, next_tx_packet,
}
use net_gitaroo.Buffers.Victim.{LastEligible, NoneEligible}
use net_gitaroo.Packets.{num_packet_buffers, num_tx_packet_buffers, put}
use net_gitaroo.Buffers.RxDrain.{alloc_rx_packets, alloc_rx_packets-drains, nulls}

alloc_tx_packet-free_example :
    let (buf, t) = alloc_tx_packet 99 1 fresh_pool in
    (buf ≡ 26) × Owned t (range 1 25) [] (range 27 15) [] (26 ∷ [])
alloc_tx_packet-free_example = alloc_tx_packet-free 99 1 26 fresh_pool-Owned

evictable : LastEligible queued_pool.heap 1 (range 26 16) (range 26 15) 41 []
unfolding init_lists link_array put is_eligible
evictable = record { split = refl; eligible = refl; none_after = tt }

alloc_tx_packet-evicts_example :
    let (buf, t) = alloc_tx_packet 99 1 queued_pool in
    (buf ≡ 41) × Owned t (range 1 25) [] [] (range 26 15 ++ []) (41 ∷ [])
alloc_tx_packet-evicts_example = alloc_tx_packet-evicts 99 1 41 queued_pool-Owned evictable

none_eligible : NoneEligible queued_pool.heap 4 (range 26 16)
unfolding init_lists link_array put is_eligible
none_eligible = (
  refl,
  (
    refl,
    (
      refl,
      (
        refl,
        (
          refl,
          (
            refl,
            (refl, (refl, (refl, (refl, (refl, (refl, (refl, (refl, (refl, (refl, tt)))))))))),
          ),
        ),
      ),
    ),
  ),
)

alloc_tx_packet-uninit_example : (alloc_tx_packet 99 4 queued_pool).0 ≡ 99
alloc_tx_packet-uninit_example = alloc_tx_packet-uninit 99 4 queued_pool-Owned none_eligible

add_tx_packet-enqueues_example :
    Owned (add_tx_packet 26 held_pool) [] (range 1 25) [] ([] ++ (26 ∷ [])) (range 27 15)
    × ((add_tx_packet 26 held_pool).xmits ≡ held_pool.xmits + 1)
add_tx_packet-enqueues_example = add_tx_packet-enqueues 26 held_pool-Owned

next_tx_packet-Handed_example :
    Handed queued_pool (range 26 16) (next_tx_packet queued_pool)
    × Owned (next_tx_packet queued_pool).2 (range 1 25) [] [] (range 26 16) []
next_tx_packet-Handed_example = next_tx_packet-Handed queued_pool-Owned

after_tx_packet-Handed_example :
    Handed queued_pool (range 27 15) (after_tx_packet queued_pool)
    × Owned (after_tx_packet queued_pool).2 (range 1 25) [] [] (range 26 16) []
after_tx_packet-Handed_example = after_tx_packet-Handed queued_pool-Owned

deq_tx_packet-frees_example :
    Owned (deq_tx_packet queued_pool) (range 1 25) [] (26 ∷ []) (range 27 15) []
deq_tx_packet-frees_example = deq_tx_packet-frees 26 queued_pool-Owned

alloc_rx_packet-free_example :
    let (buf, t) = alloc_rx_packet 1514 fresh_pool in
    (buf ≡ 1)
    × ((t.heap 1).size ≡ 1514)
    × (t.interrupts ≡ true)
    × Owned t (range 2 24) (1 ∷ []) (range 26 16) [] []
alloc_rx_packet-free_example = alloc_rx_packet-free 1514 1 fresh_pool-Owned

-- All 25 receive buffers, and two calls that fail.
alloc_rx_packets-drains_example :
    let (ps, t) = alloc_rx_packets (length (range 1 25) + 2) 1514 fresh_pool in
    (ps ≡ range 1 25 ++ nulls 2) × (t.interrupts ≡ leb 2 1)
unfolding init_lists
alloc_rx_packets-drains_example =
    alloc_rx_packets-drains 1514 (range 1 25) 2 fresh_pool-Owned refl refl

free_rx_packet-frees_example :
    Owned (free_rx_packet 1 held_pool) (1 ∷ []) (range 2 24) [] [] (range 26 16)
free_rx_packet-frees_example = free_rx_packet-frees 1 held_pool-Owned

init_lists-Owned_example :
    Owned
      (init_lists blank_pool)
      (range rx_base num_packet_buffers)
      []
      (range tx_base num_tx_packet_buffers)
      []
      []
init_lists-Owned_example = init_lists-Owned blank_pool refl
