-- ===== src/Netman/InterfaceRuns.antt =====
-- Runs of the operations of netman_iop/src/netman.c.
use net_gitaroo.Common.{Bool, Option, ap, false, none, subst, sym, ℕ, ◌∙◌, ◌≡◌}
use net_gitaroo.Netman.Interfaces.{
  NetIf, NetTable, has_name, link_of, net_if_xmit, register_net_if, register_stack, set_main_if,
  start_link_mode, toggle_net_if_link, unregister_net_if, unregister_stack,
}
use net_gitaroo.Netman.MainInterface.{MainOk, find_index-Found}
use net_gitaroo.Netman.InterfaceSteps.{
  Heard, clear_down-Heard, register_found-Heard, register_stack-Heard, set_main_found-Heard,
  toggle_net_if_link-Heard, unregister_found-Heard, unregister_stack-Heard, xmit_main-Heard,
}

-- One operation; `keeps` is false for NetManSetMainIF.
pub data NetStep (max_count : ℕ) (null_flag : Bool)
    : (keeps : Bool) → NetTable → NetTable → Type 0 where
  registers_stack : {b : Bool} {r : NetTable} → NetStep max_count null_flag b r (register_stack r)
  unregisters_stack :
      {b : Bool} {r : NetTable}
      → NetStep max_count null_flag b r (unregister_stack max_count null_flag r)
  registers_if :
      {b : Bool} {r : NetTable} (net_if : NetIf) (init_succeeds : Bool) (event_flag : Option ℕ)
      → NetStep max_count null_flag b r
          (register_net_if max_count null_flag net_if init_succeeds event_flag r).1
  unregisters_if :
      {b : Bool} {r : NetTable} (name : ℕ)
      → NetStep max_count null_flag b r (unregister_net_if max_count null_flag name r)
  toggles_link :
      {b : Bool} {r : NetTable} (id : ℕ) (state : Bool)
      → NetStep max_count null_flag b r (toggle_net_if_link max_count null_flag id state r)
  starts_mode : {b : Bool} {r : NetTable} → NetStep max_count null_flag b r (start_link_mode r)
  transmits : {b : Bool} {r : NetTable} → NetStep max_count null_flag b r (net_if_xmit r)
  sets_main :
      {b : Bool} {r : NetTable} (name : ℕ)
      → b ≡ false
      → NetStep max_count null_flag b r (set_main_if max_count name r).1

-- Runs from the module's start, where the table is empty; with `keeps`, without NetManSetMainIF.
pub data NetRuns (max_count : ℕ) (null_flag keeps : Bool) : NetTable → Type 0 where
  boots :
      {r : NetTable}
      → ((i : ℕ) → (r.net_ifs i).in_use ≡ false)
      → r.main_net_if ≡ none
      → r.is_initialized ≡ false
      → r.nif_link_state ≡ false
      → NetRuns max_count null_flag keeps r
  steps :
      {r t : NetTable}
      → NetRuns max_count null_flag keeps r
      → NetStep max_count null_flag keeps r t
      → NetRuns max_count null_flag keeps t

NetStep-Heard :
    {max_count : ℕ} {null_flag keeps : Bool} {r t : NetTable}
    → NetStep max_count null_flag keeps r t
    → Heard max_count keeps r
    → Heard max_count keeps t
NetStep-Heard {max_count} {null_flag} {keeps} {r} registers_stack h =
    register_stack-Heard max_count null_flag keeps r h
NetStep-Heard {max_count} {null_flag} {keeps} {r} unregisters_stack h =
    unregister_stack-Heard max_count null_flag keeps r h
NetStep-Heard {max_count} {null_flag} {keeps} {r} (registers_if net_if init_succeeds event_flag) h =
    register_found-Heard max_count null_flag keeps net_if init_succeeds event_flag _ r h
NetStep-Heard {max_count} {null_flag} {keeps} {r} (unregisters_if name) h =
    unregister_found-Heard max_count null_flag keeps _ r h
NetStep-Heard {max_count} {null_flag} {keeps} {r} (toggles_link id state) h =
    toggle_net_if_link-Heard max_count null_flag keeps id state r h
NetStep-Heard {max_count} {null_flag} {keeps} {r} starts_mode h =
    clear_down-Heard max_count null_flag keeps r.main_net_if r h
NetStep-Heard {max_count} {null_flag} {keeps} {r} transmits h =
    xmit_main-Heard max_count null_flag keeps r.main_net_if r h
NetStep-Heard {max_count} {null_flag} {keeps} {r} (sets_main name b) h =
    set_main_found-Heard max_count null_flag keeps name _ r b
      (find_index-Found max_count 0 (has_name r name)) h

-- Between the operations MainNetIF is an interface in use, and NULL only while none is; once the
-- network stack is registered, what it was last told of the link is netman's link state; and that
-- is the link of the main interface, if NetManSetMainIF is not called.
pub NetRuns-Heard :
    {max_count : ℕ} {null_flag keeps : Bool} {r : NetTable}
    → NetRuns max_count null_flag keeps r
    → Heard max_count keeps r
NetRuns-Heard {max_count} {r} (boots empty none_main off down) = record {
  main_ok = subst (MainOk max_count r.net_ifs) (sym none_main) (λ i l. empty i);
  told_last = λ e. let k = sym off ∙ e in cc;
  reports = λ k. down ∙ sym (ap (link_of r) none_main);
}
NetRuns-Heard (steps run step) = NetStep-Heard step (NetRuns-Heard run)
