-- ===== src/Netman/Interfaces.antt =====
-- netman_iop/src/netman.c: the table of network interfaces, the main interface, and what the network
-- stack is told of its link. The semaphore around the operations is left out: each runs to its end.
use net_gitaroo.Common.{
  Bool, List, Option, [], false, if◌then◌else◌, ltb, none, not, some, suc, true, u8, zero, ℕ, ◌&&◌,
  ◌*◌, ◌++◌, ◌+◌, ◌==◌, ◌^◌, ◌∷◌,
}
use net_gitaroo.IpVisual.{put_at}

-- struct NetManNetIF, with the two flags that are used apart; a name stands for a string.
pub record NetIf : Type 0 where
  pub in_use : Bool
  pub link_up : Bool
  pub id : ℕ
  pub name : ℕ
  pub event_flag : ℕ

-- The bits of an event flag: NETMAN_NETIF_EVF_UP and NETMAN_NETIF_EVF_DOWN.
pub record Events : Type 0 where
  pub up : Bool
  pub down : Bool

-- The calls of the stack's LinkStateUp and LinkStateDown, of an interface's deinit and xmit, and of
-- DeleteEventFlag.
pub data NetCall : Type 0 where
  told_up : NetCall
  told_down : NetCall
  deinits : ℕ → NetCall
  xmits : ℕ → NetCall
  deletes : ℕ → NetCall

-- The globals; `main_net_if` is the index that MainNetIF points to, and `events` the event flags.
pub record NetTable : Type 0 where
  pub net_ifs : ℕ → NetIf
  pub main_net_if : Option ℕ
  pub is_initialized : Bool
  pub nif_link_state : Bool
  pub next_net_if_id : ℕ
  pub events : ℕ → Events
  pub calls : List NetCall

pub data Registered : Type 0 where
  registered : ℕ → Registered
  no_memory : Registered
  io_error : Registered
  no_event_flag : Registered

abbrev pub call : NetCall → NetTable → NetTable
call c r = record r { calls = r.calls ++ (c ∷ []) }

-- NetManUpdateStackNIFLinkState
unfoldable pub update_stack_link : NetTable → NetTable
update_stack_link r =
    if r.is_initialized then call (if r.nif_link_state then told_up else told_down) r else r

-- NetManToggleGlobalNetIFLinkState
unfoldable pub toggle_global_link : Bool → NetTable → NetTable
toggle_global_link state r = update_stack_link (record r { nif_link_state = state })

-- The first of the `n` indices from `i` on that passes a test.
unfoldable pub find_index : (n i : ℕ) → (ℕ → Bool) → Option ℕ
find_index zero i test = none
find_index (suc n) i test = let rest = find_index n (suc i) test in if test i then some i else rest

abbrev pub is_used : NetTable → ℕ → Bool
is_used r i = (r.net_ifs i).in_use

-- MainNetIF's flags; `null_flag` is what the memory at the address of NULL->flags holds.
abbrev pub main_in_use : (null_flag : Bool) → NetTable → Bool
main_in_use null_flag r = elim r.main_net_if [ none ↦ null_flag | some i ↦ is_used r i ]

abbrev pub link_of : NetTable → Option ℕ → Bool
link_of r none = false
link_of r (some i) = (r.net_ifs i).link_up

abbrev pub or_else : Option ℕ → Option ℕ → Option ℕ
or_else none o = o
or_else (some i) o = some i

-- The `if` of set_main: the in-use test of UpdateNetIFStatus and its loop.
unfoldable pub choose_main : (max_count : ℕ) (null_flag : Bool) → NetTable → Option ℕ
choose_main max_count null_flag r =
    let main = if main_in_use null_flag r then r.main_net_if else none in
    or_else main (find_index max_count 0 (is_used r))

-- UpdateNetIFStatus
unfoldable pub update_net_if_status : (max_count : ℕ) (null_flag : Bool) → NetTable → NetTable
update_net_if_status max_count null_flag r =
    let main = choose_main max_count null_flag r in
    toggle_global_link (link_of r main) (record r { main_net_if = main })

-- NetManRegisterNetworkStack
unfoldable pub register_stack : NetTable → NetTable
register_stack r =
    if r.is_initialized then r else update_stack_link (record r { is_initialized = true })

abbrev pub unused : NetIf → NetIf
unused f = record f { in_use = false; link_up = false }

-- The loop of NetManUnregisterNetworkStack: `n` interfaces from `i` on.
unfoldable pub deinit_all : (n i : ℕ) → NetTable → NetTable
deinit_all zero i r = r
deinit_all (suc n) i r = deinit_all n (suc i) (
    if is_used r i
    then call (deinits i) (record r { net_ifs = put_at r.net_ifs i (unused (r.net_ifs i)) })
    else r)

-- NetManUnregisterNetworkStack
unfoldable pub unregister_stack : (max_count : ℕ) (null_flag : Bool) → NetTable → NetTable
unregister_stack max_count null_flag r =
    record (update_net_if_status max_count null_flag (deinit_all max_count 0 r)) {
      is_initialized = false;
    }

-- What NetManRegisterNetIF does with the free entry `i`, after the interface's init succeeded;
-- `event_flag` is what CreateEventFlag gives, none for an error.
unfoldable pub register_at :
    (max_count : ℕ) (null_flag : Bool) (net_if : NetIf) (event_flag : Option ℕ) (i : ℕ)
    → NetTable
    → Registered × NetTable
register_at max_count null_flag net_if none i r = (no_event_flag, r)
register_at max_count null_flag net_if (some ef) i r =
    let id = r.next_net_if_id * 2 ^ 8 + i in
    let entry = record net_if { in_use = true; id = id; event_flag = ef } in
    let t = update_net_if_status max_count null_flag (record r {
      net_ifs = put_at r.net_ifs i entry;
      events = put_at r.events ef (record { up = false; down = false });
    }) in
    (registered id, record t { next_net_if_id = u8 (t.next_net_if_id + 1) })

-- NetManRegisterNetIF, where the search for a free entry gave `free`
unfoldable pub register_found :
    (max_count : ℕ) (null_flag : Bool) (net_if : NetIf) (init_succeeds : Bool)
    (event_flag : Option ℕ) (free : Option ℕ)
    → NetTable
    → Registered × NetTable
register_found max_count null_flag net_if init_succeeds event_flag none r = (no_memory, r)
register_found max_count null_flag net_if init_succeeds event_flag (some i) r =
    if init_succeeds then register_at max_count null_flag net_if event_flag i r else (io_error, r)

-- NetManRegisterNetIF
abbrev pub register_net_if :
    (max_count : ℕ) (null_flag : Bool) (net_if : NetIf) (init_succeeds : Bool)
    (event_flag : Option ℕ)
    → NetTable
    → Registered × NetTable
register_net_if max_count null_flag net_if init_succeeds event_flag r =
    register_found max_count null_flag net_if init_succeeds event_flag
      (find_index max_count 0 (λ i. not (is_used r i))) r

abbrev pub has_name : NetTable → ℕ → ℕ → Bool
has_name r name i = is_used r i && (name == (r.net_ifs i).name)

-- NetManUnregisterNetIF, for the entry that the search gave
unfoldable pub unregister_found :
    (max_count : ℕ) (null_flag : Bool) → Option ℕ → NetTable → NetTable
unregister_found max_count null_flag none r = r
unregister_found max_count null_flag (some i) r = update_net_if_status max_count null_flag (
    call (deletes (r.net_ifs i).event_flag)
      (call (deinits i) (record r { net_ifs = put_at r.net_ifs i (unused (r.net_ifs i)) })))

-- NetManUnregisterNetIF
abbrev pub unregister_net_if : (max_count : ℕ) (null_flag : Bool) (name : ℕ) → NetTable → NetTable
unregister_net_if max_count null_flag name r =
    unregister_found max_count null_flag (find_index max_count 0 (has_name r name)) r

-- NetManToggleNetIFLinkState
unfoldable pub toggle_net_if_link :
    (max_count : ℕ) (null_flag : Bool) (id : ℕ) (state : Bool) → NetTable → NetTable
toggle_net_if_link max_count null_flag id state r =
    let i = u8 id in
    let f = r.net_ifs i in
    if ltb i max_count && ((id == f.id) && f.in_use)
    then update_net_if_status max_count null_flag (record r {
      net_ifs = put_at r.net_ifs i (record f { link_up = state });
      events = put_at r.events f.event_flag (record { up = state; down = not state });
    })
    else r

-- NetManSetMainIF, for the entry that the search gave; false for -ENXIO
unfoldable pub set_main_found : Option ℕ → NetTable → Bool × NetTable
set_main_found none r = (false, r)
set_main_found (some i) r = (true, record r { main_net_if = some i })

-- NetManSetMainIF
abbrev pub set_main_if : (max_count name : ℕ) → NetTable → Bool × NetTable
set_main_if max_count name r = set_main_found (find_index max_count 0 (has_name r name)) r

-- NetManQueryMainIF, by MainNetIF: the name, none for -ENXIO
unfoldable pub query_main : Option ℕ → NetTable → Option ℕ
query_main none r = none
query_main (some i) r = if is_used r i then some (r.net_ifs i).name else none

abbrev pub query_main_if : NetTable → Option ℕ
query_main_if r = query_main r.main_net_if r

-- NetManNetIFXmit, by MainNetIF
unfoldable pub xmit_main : Option ℕ → NetTable → NetTable
xmit_main none r = r
xmit_main (some i) r = call (xmits i) r

abbrev pub net_if_xmit : NetTable → NetTable
net_if_xmit r = xmit_main r.main_net_if r

-- NetManSetLinkMode up to its wait, by MainNetIF: the bit NETMAN_NETIF_EVF_DOWN is cleared before the
-- interface is asked.
unfoldable pub clear_down : Option ℕ → NetTable → NetTable
clear_down none r = r
clear_down (some i) r =
    let ef = (r.net_ifs i).event_flag in
    record r { events = put_at r.events ef (record (r.events ef) { down = false }) }

abbrev pub start_link_mode : NetTable → NetTable
start_link_mode r = clear_down r.main_net_if r
