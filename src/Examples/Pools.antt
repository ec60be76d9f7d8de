-- ===== src/Examples/Pools.antt =====
-- Concrete states of the buffers: after InitConnection, and with every transmit buffer queued.
use net_gitaroo.Common.{[], arith, refl, true}
use net_gitaroo.Packets.{PacketBuffer, Pool}
use net_gitaroo.Buffers.Rx.{init_lists}
use net_gitaroo.Buffers.Init.{init_lists-Owned, range}
use net_gitaroo.Buffers.Owned.{Owned}

abbrev pub blank_packet : PacketBuffer
blank_packet = record { bytes = λ a. 0; next = 0; size = 0; priority = 3; transmitting = 0 }

abbrev pub blank_pool : Pool
blank_pool = record {
  heap = λ a. blank_packet;
  free_packet_buffer = 0;
  free_tx_packet_buffer = 0;
  next_tx_packet_buffer = 0;
  has_failed_alloc = 0;
  interrupts = true;
  xmits = 0;
}

abbrev pub fresh_pool : Pool
fresh_pool = init_lists blank_pool

pub fresh_pool-Owned : Owned fresh_pool (range 1 25) [] (range 26 16) [] []
fresh_pool-Owned = init_lists-Owned blank_pool refl

-- Every transmit buffer queued, in the order of their addresses.
abbrev pub queued_pool : Pool
queued_pool = record fresh_pool { free_tx_packet_buffer = 0; next_tx_packet_buffer = 26 }

pub queued_pool-Owned : Owned queued_pool (range 1 25) [] [] (range 26 16) []
unfolding init_lists
queued_pool-Owned =
    let o = fresh_pool-Owned in
    record {
      rx = o.rx;
      free = refl;
      queue = o.free;
      rx_once = o.rx_once;
      tx_once = λ a. omega (arith, o.tx_once a);
      total = refl;
    }

-- Every transmit buffer held by the code, and every receive buffer.
abbrev pub held_pool : Pool
held_pool = record fresh_pool { free_packet_buffer = 0; free_tx_packet_buffer = 0 }

pub held_pool-Owned : Owned held_pool [] (range 1 25) [] [] (range 26 16)
unfolding init_lists
held_pool-Owned =
    let o = fresh_pool-Owned in
    record {
      rx = refl;
      free = refl;
      queue = refl;
      rx_once = λ a. omega (arith, o.rx_once a);
      tx_once = λ a. omega (arith, o.tx_once a);
      total = refl;
    }
