-- ===== src/Netman/Manager.antt =====
-- The registration of the network stack with netman on the EE: netman/src/netman.c.
use net_gitaroo.Common.{Bool, false, if◌then◌else◌, not, true, ℕ, ◌==◌}
use net_gitaroo.Netman.RxRing.{RxRing, alloc_rx_buffers, init_ring}
use net_gitaroo.Netman.RxStack.{RxStack}

-- IsInitialized, IsNetStackInitialized and NIFLinkState, with the ring that the registration sets up
-- and the network stack's own state in it.
pub record Manager (S : Type 0) : Type 0 where
  pub is_initialized : Bool
  pub is_net_stack_initialized : Bool
  pub nif_link_state : ℕ
  pub ring : RxRing S

-- The stack's callbacks for a change of the link are arguments, as is ENOMEM negated, modulo 2^32; and
-- so are the results of the calls that go to the kernel and to the IOP.
module _ (stack : RxStack) (frame_size enomem : ℕ)
    (on_link_up on_link_down : stack.State → stack.State) where
  -- The callback for the present link.
  abbrev pub tell_link : ℕ → stack.State → stack.State
  tell_link link s = if link == 0 then on_link_down s else on_link_up s

  -- NetManUpdateStackNIFLinkState
  unfoldable pub tell_stack : Manager stack.State → Manager stack.State
  tell_stack r =
      if r.is_net_stack_initialized
      then record r { ring = record (r.ring) { stack = tell_link r.nif_link_state r.ring.stack } }
      else r

  -- NetManToggleGlobalNetIFLinkState
  unfoldable pub toggle_link : (state : ℕ) → Manager stack.State → Manager stack.State
  toggle_link state r = tell_stack (record r { nif_link_state = state })

  -- NetManInit: `server` and `client` are what NetManInitRPCServer and NetManInitRPCClient return; the
  -- second sets the ring up on both sides. What a failed call leaves of the ring is left out.
  unfoldable pub net_man_init : (server client : ℕ) → Manager stack.State → ℕ × Manager stack.State
  net_man_init server client r =
      if r.is_initialized
      then (0, r)
      else if not (server == 0)
      then (server, r)
      else if client == 0
      then (0, record r { is_initialized = true; ring = init_ring r.ring })
      else (client, r)

  -- NetManRegisterNetworkStack, where NetManInit succeeded; `remote` is what
  -- NetManRPCRegisterNetworkStack returns.
  unfoldable pub register_initialised : (remote : ℕ) → Manager stack.State → ℕ × Manager stack.State
  register_initialised remote r =
      let (done, ring) = alloc_rx_buffers stack frame_size 24 0 r.ring in
      let t = record r { is_net_stack_initialized = true; ring = ring } in
      if r.is_net_stack_initialized
      then (0, r)
      else if not (remote == 0)
      then (remote, r)
      else if done
      then (0, tell_stack t)
      else (enomem, t)

  -- NetManRegisterNetworkStack
  unfoldable pub register_with_netman :
      (server client remote : ℕ) → Manager stack.State → ℕ × Manager stack.State
  register_with_netman server client remote r =
      let (result, t) = net_man_init server client r in
      if result == 0 then register_initialised remote t else (result, t)

-- NetManUnregisterNetworkStack, without the transmit ring's reset and the IOP's part
unfoldable pub unregister_from_netman : {S : Type 0} → Manager S → Manager S
unregister_from_netman r =
    if r.is_net_stack_initialized then record r { is_net_stack_initialized = false } else r

-- NetManDeinit, without the threads and the RPC server that it ends
unfoldable pub net_man_deinit : {S : Type 0} → Manager S → Manager S
net_man_deinit r =
    if r.is_initialized then record (unregister_from_netman r) { is_initialized = false } else r
