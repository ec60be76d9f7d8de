-- ===== src/Netman/TxRing.antt =====
-- The ring that takes frames from the EE to the IOP: NETMAN_TxThread of netman/src/rpc_client.c
-- writes it, NextTxPacket and DeQTxPacket of netman_iop/src/rpc_server.c empty it. The two sides
-- keep their own copies of the descriptors. A frame is named by a number.
use net_gitaroo.Common.{
  List, Option, [], if◌then◌else◌, leb, none, some, u16, u8, ℕ, ◌%◌, ◌++◌, ◌+◌, ◌==◌, ◌||◌, ◌∷◌,
}
use net_gitaroo.IpVisual.{put_at}
use net_gitaroo.Packets.{netman_rpc_block_size_lesser}

-- The fields of struct NetManBD that this ring uses.
pub record Descriptor : Type 0 where
  pub length : ℕ
  pub offset : ℕ

-- struct NetManPktCmd
pub record PktCmd : Type 0 where
  pub id : ℕ
  pub length : ℕ
  pub offset : ℕ

-- FrameBufferStatus and IOPFrameBufferWrPtr of the EE; the IOP's copy of FrameBufferStatus,
-- TxFrameBuffer and IOPFrameBufferRdPtr; and the commands on their way to the IOP.
pub record TxRing : Type 0 where
  pub ee_status : ℕ → Descriptor
  pub wr_ptr : ℕ
  pub iop_status : ℕ → Descriptor
  pub frames : ℕ → ℕ
  pub rd_ptr : ℕ
  pub commands : List PktCmd

abbrev pub cleared : Descriptor
cleared = record { length = 0; offset = 0 }

abbrev pub next_ptr : ℕ → ℕ
next_ptr p = (p + 1) % netman_rpc_block_size_lesser

-- After NetManRPCRegisterNetworkStack: both copies are zeroed and both pointers 0.
unfoldable pub register_network_stack : TxRing → TxRing
register_network_stack r = record r {
  ee_status = λ i. cleared;
  wr_ptr = 0;
  iop_status = λ i. cleared;
  rd_ptr = 0;
}

-- One round of NETMAN_TxThread's inner loop for a frame, after `num_tx` others; `group_size` is
-- NETMAN_FRAME_GROUP_SIZE. The thread waits while the descriptor is in use: then there is no
-- result. A frame goes with a command or, between frames of a group, with the descriptor by DMA.
unfoldable pub send_frame :
    (group_size num_tx : ℕ) (frame length offset : ℕ) → TxRing → Option TxRing
send_frame group_size num_tx frame length offset r =
    let wr = r.wr_ptr in
    let bd_next = r.ee_status (next_ptr wr) in
    let bd : Descriptor = record { length = length; offset = offset } in
    let sent =
      if leb group_size (num_tx + 1) || (bd_next.length == 0)
      then record r {
        frames = put_at r.frames wr frame;
        commands = r.commands ++ (record { id = wr; length = length; offset = offset } ∷ []);
      }
      else record r {
        frames = put_at r.frames wr frame;
        ee_status = put_at r.ee_status wr bd;
        iop_status = put_at r.iop_status wr bd;
      } in
    if (r.ee_status wr).length == 0 then some (record sent { wr_ptr = next_ptr wr }) else none

-- HandleRxEvent of the IOP, for the first command on its way.
unfoldable pub handle_commands : List PktCmd → TxRing → TxRing
handle_commands [] r = r
handle_commands (c ∷ cs) r = record r {
  iop_status =
      put_at r.iop_status (u8 c.id) (record { length = u16 c.length; offset = u8 c.offset });
  commands = cs;
}

abbrev pub handle_rx_event : TxRing → TxRing
handle_rx_event r = handle_commands r.commands r

-- NextTxPacket: the length, and the frame at the read pointer.
unfoldable pub next_frame : TxRing → ℕ × ℕ
next_frame r = ((r.iop_status r.rd_ptr).length, r.frames r.rd_ptr)

-- DeQTxPacket: ClearBufferLen writes both copies.
unfoldable pub dequeue_frame : TxRing → TxRing
dequeue_frame r =
    let rd = r.rd_ptr in
    record r {
      iop_status = put_at r.iop_status rd (record (r.iop_status rd) { length = 0 });
      ee_status = put_at r.ee_status rd cleared;
      rd_ptr = next_ptr rd;
    }
