-- ===== src/Examples/Interfaces.antt =====
-- The theorems on netman's interface table at concrete runs.
use net_gitaroo.Common.{[], arith, false, none, refl, some, true, ◌*◌, ◌^◌, ◌≡◌}
use net_gitaroo.Netman.InterfaceLink.{register_net_if-toggled}
use net_gitaroo.Netman.InterfaceRuns.{
  NetRuns-Heard, boots, registers_if, registers_stack, steps, toggles_link,
}
use net_gitaroo.Netman.Interfaces.{
  NetIf, NetTable, register_net_if, register_stack, registered, toggle_net_if_link,
}
use net_gitaroo.Netman.MainInterface.{last_told}
use net_gitaroo.Netman.InterfaceSteps.{Heard}

abbrev no_if : NetIf
no_if = record { in_use = false; link_up = false; id = 0; name = 0; event_flag = 0 }

abbrev empty_table : NetTable
empty_table = record {
  net_ifs = λ i. no_if;
  main_net_if = none;
  is_initialized = false;
  nif_link_state = false;
  next_net_if_id = 3;
  events = λ i. record { up = false; down = false };
  calls = [];
}

-- The network stack and the interface named 9 are registered, and its link goes up.
abbrev with_stack : NetTable
with_stack = register_stack empty_table

abbrev new_if : NetIf
new_if = record { in_use = false; link_up = false; id = 0; name = 9; event_flag = 0 }

abbrev with_if : NetTable
with_if = (register_net_if 2 true new_if true (some 5) with_stack).1

abbrev link_is_up : NetTable
link_is_up = toggle_net_if_link 2 true 768 true with_if

NetRuns-Heard_example : Heard 2 true link_is_up
NetRuns-Heard_example = NetRuns-Heard {null_flag = true} (
    steps
      (steps (steps (boots (λ i. refl) refl refl refl) registers_stack)
        (registers_if new_if true (some 5)))
      (toggles_link 768 true))

register_net_if-toggled_example :
    let (result, t) = register_net_if 2 true new_if true (some 5) empty_table in
    let id = empty_table.next_net_if_id * 2 ^ 8 in
    let u = toggle_net_if_link 2 true id true t in
    (result ≡ registered id)
    × (u.main_net_if ≡ some 0)
    × (u.nif_link_state ≡ true)
    × (last_told none (register_stack u).calls ≡ some true)
register_net_if-toggled_example =
    register_net_if-toggled 2 true (omega arith) new_if 5 true empty_table refl (λ i h. refl)
