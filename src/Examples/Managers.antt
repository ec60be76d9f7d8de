-- ===== src/Examples/Managers.antt =====
-- The theorems on the registration of the network stack at concrete inputs.
use net_gitaroo.Common.{arith, false, refl, true, ℕ, ◌≡◌}
use net_gitaroo.Dhcp.Reply.{link_state_down, link_state_up}
use net_gitaroo.Examples.Consoles.{console_env}
use net_gitaroo.Examples.Rings.{blank_rx, blank_rx-Holds, rx_allocated, stack}
use net_gitaroo.Net.{Net}
use net_gitaroo.Netman.Manager.{Manager, register_with_netman, unregister_from_netman}
use net_gitaroo.Netman.Registration.{register_with_netman-again}
use net_gitaroo.Netman.RxRuns.{RxRuns, begins}

abbrev on_link_up : Net → Net
on_link_up = link_state_up console_env

abbrev unstarted : Manager Net
unstarted = record {
  is_initialized = false;
  is_net_stack_initialized = false;
  nif_link_state = 1;
  ring = blank_rx;
}

abbrev succeeds : ℕ
succeeds = 0

abbrev started : Manager Net
started = record unstarted {
  is_initialized = true;
  is_net_stack_initialized = true;
  ring = rx_allocated;
}

register_with_netman-again_example :
    let t = unregister_from_netman started in
    let (first, u) =
      register_with_netman stack 1514 4294967284 on_link_up link_state_down 0 0 0 t in
    let (second, v) =
      register_with_netman stack 1514 4294967284 on_link_up link_state_down 0 0 0 u in
    (first ≡ 4294967284) × (second ≡ 0) × (v ≡ u)
register_with_netman-again_example =
    register_with_netman-again stack 4 1514 4294967284 on_link_up link_state_down 0 0 0 started
      (omega arith) (omega arith) (omega arith) refl refl (begins blank_rx blank_rx-Holds)
