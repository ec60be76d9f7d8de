-- ===== src/Netman/Registration.antt =====
-- What a registration of the network stack with netman on the EE comes to.
use net_gitaroo.Common.{
  Bool-cases, List, arith, false, if◌then◌else◌, inl, inr, leb, length, not, refl, suc, true, zero,
  ℕ, ◌+◌, ◌<◌, ◌==◌, ◌∷◌, ◌≡◌, ◌≤◌,
}
use net_gitaroo.Netman.RxRing.{RxRing, alloc_rx_buffers, clear_buffer_len}
use net_gitaroo.Netman.RxStack.{RxStack}
use net_gitaroo.Packets.{Ptr, null}
use net_gitaroo.Netman.Manager.{
  Manager, net_man_init, register_initialised, register_with_netman, unregister_from_netman,
}
use net_gitaroo.Netman.RxInv.{Frame}
use net_gitaroo.Netman.RxQueue.{RxRuns-Flow}
use net_gitaroo.Netman.RxRuns.{RxRuns}
use net_gitaroo.Netman.Span.{length-span, span}

module _ (stack : RxStack) (frame_size : ℕ) where
  -- With fewer packets to give than it wants, NetManRPCAllocRxBuffers fails.
  pub alloc_rx_buffers-fails :
      (n i : ℕ) (r : RxRing stack.State) (h : List Ptr)
      → stack.Holds r.stack h
      → length h ≤ stack.capacity
      → stack.capacity < length h + n
      → (alloc_rx_buffers stack frame_size n i r).0 ≡ false
  unfolding alloc_rx_buffers clear_buffer_len
  alloc_rx_buffers-fails zero i r h held fits few = absurd (omega (arith, fits, few))
  alloc_rx_buffers-fails (suc n) i r h held fits few =
      let p = (stack.alloc_rx_packet frame_size r.stack).0 in
      elim (Bool-cases (p == null)) [
        | inl fails ↦ rw fails refl
        | inr given ↦
            let gave = stack.gives frame_size r.stack h held (ground arith) in
            let room : length h < stack.capacity =
              elim (Bool-cases (leb stack.capacity (length h))) [
                | inl all ↦
                    let none_left = stack.full frame_size r.stack h held (ground arith) in
                    absurd (ground arith)
                | inr some_left ↦ ground arith
              ] in
            rw given (
              alloc_rx_buffers-fails n (i + 1) _ (p ∷ h) gave.0 (omega (arith, room))
                (omega (arith, few)))
      ]

-- The first of three results that is not 0.
abbrev pub first_failing : (server client remote : ℕ) → ℕ
first_failing server client remote =
    if not (server == 0) then server else if not (client == 0) then client else remote

module _ (stack : RxStack) (group_size frame_size enomem : ℕ)
    (on_link_up on_link_down : stack.State → stack.State) where
  -- From any state of a run of the receive ring, unregistering the network stack and registering it
  -- again gives ENOMEM, and registering it once more returns 0 and does nothing; if a group has room for
  -- a frame, the stack has more than 24 packets to give and fewer than 48, it does nothing in between,
  -- and the first call of NetManRPCRegisterNetworkStack succeeds.
  pub register_with_netman-again :
      (server client remote : ℕ) (r : Manager stack.State) {es ds : List Frame}
      → 0 < group_size
      → 24 < stack.capacity
      → stack.capacity < 48
      → r.is_initialized ≡ true
      → r.is_net_stack_initialized ≡ true
      → RxRuns stack group_size frame_size r.ring es ds
      → let t = unregister_from_netman r in
        let (first, u) =
          register_with_netman stack frame_size enomem on_link_up on_link_down server client 0 t in
        let (second, v) =
          register_with_netman stack frame_size enomem on_link_up on_link_down server client remote
            u in
        (first ≡ enomem) × (second ≡ 0) × (v ≡ u)
  unfolding unregister_from_netman register_with_netman register_initialised net_man_init
  register_with_netman-again server client remote r pos spare few on_init on_stack run =
      let f = RxRuns-Flow pos spare run in
      let held = f.inv.holds in
      let len = length-span f.pk 0 24 in
      let fails =
        alloc_rx_buffers-fails stack frame_size 24 0 r.ring (span f.pk 0 24) held
          (omega (arith, len, spare)) (omega (arith, len, few)) in
      rw (on_stack, on_init, fails) (refl, refl, refl)

  -- The branches of a first registration.
  module _ (server client remote : ℕ) (r : Manager stack.State) (off : r.is_initialized ≡ false)
      (no_stack : r.is_net_stack_initialized ≡ false) where
    abbrev registering : ℕ × Manager stack.State
    registering =
        register_with_netman stack frame_size enomem on_link_up on_link_down server client remote r
