-- ===== src/Netman/InterfaceLink.antt =====
-- The first interface of netman_iop/src/netman.c, from its registration to a change of its link.
use net_gitaroo.Common.{
  Bool, Bool-cases, ap, arith, false, inl, inr, ltb, none, not, refl, some, suc, true, u8, zero, ℕ,
  ◌&&◌, ◌*◌, ◌+◌, ◌<◌, ◌==◌, ◌^◌, ◌∙◌, ◌≡◌, ◌⊎◌,
}
use net_gitaroo.Netman.Interfaces.{
  NetIf, NetTable, choose_main, find_index, is_used, register_at, register_found, register_net_if,
  register_stack, registered, toggle_global_link, toggle_net_if_link, update_net_if_status,
}
use net_gitaroo.Netman.MainInterface.{
  Told, last_told, told, update_stack_link-Told, update_stack_link-same,
}
use net_gitaroo.IpVisual.{put_at}
use net_gitaroo.Netman.InterfaceSteps.{register_stack-once, register_stack-twice}

find_index-first : (n : ℕ) (test : ℕ → Bool) → 0 < n → test 0 ≡ true → find_index n 0 test ≡ some 0
unfolding find_index
find_index-first zero test h e = absurd (omega arith)
find_index-first (suc n) test h e = rw e

-- Registering the network stack tells it the link, if that has not been done before.
register_stack-tells :
    (u : NetTable) → Told u → last_told none (register_stack u).calls ≡ some u.nif_link_state
register_stack-tells u told_u = elim (Bool-cases u.is_initialized) [
  | inl e ↦ rw (register_stack-twice 0 false false u e) (told_u e)
  | inr e ↦
      let t = record u { is_initialized = true } in
      let (a, b, c, d, n) = update_stack_link-same t in
      rw (register_stack-once 0 false false u e) (update_stack_link-Told t d ∙ ap some c)
]

module _ (max_count : ℕ) (null_flag : Bool) (some_room : 0 < max_count) where
  choose_main-first :
      (r : NetTable)
      → (r.main_net_if ≡ none) ⊎ (r.main_net_if ≡ some 0)
      → (r.net_ifs 0).in_use ≡ true
      → choose_main max_count null_flag r ≡ some 0
  unfolding choose_main
  choose_main-first r (inl e) used =
      rw (e, find_index-first max_count (is_used r) some_room used)
        (elim (Bool-cases null_flag) [ inl a ↦ rw a | inr a ↦ rw a ])
  choose_main-first r (inr e) used = rw (e, used)

  -- UpdateNetIFStatus with the first entry in use.
  update-first :
      (r : NetTable) (state : Bool)
      → (r.main_net_if ≡ none) ⊎ (r.main_net_if ≡ some 0)
      → (r.net_ifs 0).in_use ≡ true
      → (r.net_ifs 0).link_up ≡ state
      → let t = update_net_if_status max_count null_flag r in
        (t.main_net_if ≡ some 0)
        × (t.nif_link_state ≡ state)
        × (t.net_ifs ≡ r.net_ifs)
        × (t.is_initialized ≡ r.is_initialized)
        × (t.next_net_if_id ≡ r.next_net_if_id)
        × Told t
  unfolding update_net_if_status toggle_global_link
  update-first r state m used link =
      let u = record r { main_net_if = some 0; nif_link_state = (r.net_ifs 0).link_up } in
      let (a, b, c, d, n) = update_stack_link-same u in
      rw (choose_main-first r m used) (b, c ∙ link, a, d, n, update_stack_link-Told u)

  -- NetManToggleNetIFLinkState for the first entry, where that is the main interface.
  toggle-first :
      (t : NetTable) (id : ℕ) (state : Bool)
      → t.main_net_if ≡ some 0
      → u8 id ≡ 0
      → (t.net_ifs 0).in_use ≡ true
      → (t.net_ifs 0).id ≡ id
      → let u = toggle_net_if_link max_count null_flag id state t in
        (u.main_net_if ≡ some 0) × (u.nif_link_state ≡ state) × Told u
  unfolding toggle_net_if_link
  toggle-first t id state m low used same =
      let f = t.net_ifs 0 in
      let passes : (ltb 0 max_count && ((id == f.id) && f.in_use)) ≡ true = ground arith in
      let a : NetTable = record t {
        net_ifs = put_at t.net_ifs 0 (record f { link_up = state });
        events = put_at t.events f.event_flag (record { up = state; down = not state });
      } in
      let (m', l, g, i, n, told_a) = update-first a state (inr m) used refl in
      rw (low, passes) (m', l, told_a)

  -- The first interface that is registered while no entry is in use gets entry 0, and the number that
  -- NetManRegisterNetIF returns for it serves to change its link: after NetManToggleNetIFLinkState it
  -- is the main interface, netman's link is the given one, and the network stack was told it last, or
  -- will be when it is registered next; if the interface's init succeeds, it gets an event flag,
  -- there is no main interface yet, and the table has an entry.
  pub register_net_if-toggled :
      (net_if : NetIf) (event_flag : ℕ) (state : Bool) (r : NetTable)
      → r.main_net_if ≡ none
      → ((i : ℕ) → i < max_count → (r.net_ifs i).in_use ≡ false)
      → let (result, t) = register_net_if max_count null_flag net_if true (some event_flag) r in
        let id = r.next_net_if_id * 2 ^ 8 in
        let u = toggle_net_if_link max_count null_flag id state t in
        (result ≡ registered id)
        × (u.main_net_if ≡ some 0)
        × (u.nif_link_state ≡ state)
        × (last_told none (register_stack u).calls ≡ some state)
  unfolding register_found register_at
  register_net_if-toggled net_if event_flag state r no_main empty =
      let id = r.next_net_if_id * 2 ^ 8 in
      let first =
        find_index-first max_count (λ i. not (is_used r i)) some_room (rw (empty 0 some_room)) in
      let entry : NetIf = record net_if { in_use = true; id = id + 0; event_flag = event_flag } in
      let a : NetTable = record r {
        net_ifs = put_at r.net_ifs 0 entry;
        events = put_at r.events event_flag (record { up = false; down = false });
      } in
      let (m, l, f, i, n, told_a) = update-first a net_if.link_up (inl no_main) refl refl in
      let k : NetTable = record (update_net_if_status max_count null_flag a) {
        next_net_if_id = u8 ((update_net_if_status max_count null_flag a).next_net_if_id + 1);
      } in
      let own : k.net_ifs 0 ≡ entry = ap (λ g. g 0) f in
      let (main, link, told) =
        toggle-first k id state m (omega arith) (ap (λ e. e.in_use) own)
          (ap (λ e. e.id) own ∙ omega arith) in
      let u = toggle_net_if_link max_count null_flag id state k in
      rw first (ap registered (omega arith), main, link, register_stack-tells u told ∙ ap some link)
