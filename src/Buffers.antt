-- ===== src/Buffers.antt =====
-- The packet buffers of src/networking.c: their memory, the three lists over it, and the
-- operations on them (the network stack's side of netman's callbacks).
pub mod Tx
pub mod Rx
pub mod Chain
pub mod Owned
pub mod QueueTx
pub mod SendTx
pub mod Victim
pub mod AllocTx
pub mod Settled
pub mod RxLaws
pub mod RxDrain
pub mod Init
