-- ===== src/Util/Queues.antt =====
-- The list of RPC queues of src/util.c: SifSetRpcQueue and SifRemoveRpcQueue.
use net_gitaroo.Common.{if◌then◌else◌, suc, zero, ℕ, ◌==◌}
use net_gitaroo.IpVisual.{put_at}
use net_gitaroo.Packets.{Ptr, null}

-- SifRpcDataQueue_t; `next` leads to the next queue.
pub record RpcQueue : Type 0 where
  pub thread_id : ℕ
  pub active : ℕ
  pub link : Ptr
  pub start : Ptr
  pub end_ : Ptr
  pub next : Ptr

-- The queues in memory, and active_queue of _sif_rpc_data.
pub record RpcData : Type 0 where
  pub queues : Ptr → RpcQueue
  pub active_queue : Ptr

abbrev pub put_link : (Ptr → RpcQueue) → (queue next : Ptr) → Ptr → RpcQueue
put_link h queue next = put_at h queue (record (h queue) { next = next })

-- The walk of SifSetRpcQueue to the last queue, in `rounds` tests of its condition
unfoldable pub last_queue : (rounds : ℕ) → (Ptr → RpcQueue) → Ptr → Ptr
last_queue zero h queue = queue
last_queue (suc rounds) h queue =
    let rest = last_queue rounds h (h queue).next in if (h queue).next == null then queue else rest

-- SifSetRpcQueue, with what it returns
unfoldable pub sif_set_rpc_queue : (rounds : ℕ) (qd : Ptr) (thread_id : ℕ) → RpcData → Ptr × RpcData
sif_set_rpc_queue rounds qd thread_id r =
    let h = put_at r.queues qd (record {
      thread_id = thread_id;
      active = 0;
      link = null;
      start = null;
      end_ = null;
      next = null;
    }) in
    let queue = last_queue rounds h r.active_queue in
    if r.active_queue == null
    then (null, record r { queues = h; active_queue = qd })
    else (queue, record r { queues = put_link h queue qd })

-- The walk of SifRemoveRpcQueue, in `rounds` tests of its condition: where it ends, and the memory
unfoldable pub remove_behind :
    (rounds : ℕ) (qd : Ptr) → (Ptr → RpcQueue) → Ptr → Ptr × (Ptr → RpcQueue)
remove_behind zero qd h queue = (queue, h)
remove_behind (suc rounds) qd h queue =
    let rest = remove_behind rounds qd h (h queue).next in
    if queue == null
    then (queue, h)
    else if (h queue).next == qd
    then (queue, put_link h queue (h qd).next)
    else rest

-- SifRemoveRpcQueue, with what it returns
unfoldable pub sif_remove_rpc_queue : (rounds : ℕ) (qd : Ptr) → RpcData → Ptr × RpcData
sif_remove_rpc_queue rounds qd r =
    let (queue, h) = remove_behind rounds qd r.queues r.active_queue in
    if r.active_queue == qd
    then (r.active_queue, record r { active_queue = (r.queues r.active_queue).next })
    else (queue, record r { queues = h })
