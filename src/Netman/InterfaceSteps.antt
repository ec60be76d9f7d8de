-- ===== src/Netman/InterfaceSteps.antt =====
-- What the operations of netman_iop/src/netman.c keep of the main interface and of its link.
use net_gitaroo.Common.{
  Bool, Bool-cases, Option, ap, arith, false, if◌then◌else◌, inl, inr, ltb, none, refl, some, subst,
  suc, sym, true, u8, zero, ℕ, ◌&&◌, ◌==◌, ◌∙◌, ◌≡◌,
}
use net_gitaroo.Netman.Interfaces.{
  NetIf, NetTable, call, choose_main, clear_down, deinit_all, deinits, has_name, is_used, link_of,
  register_at, register_found, register_stack, set_main_found, toggle_global_link,
  toggle_net_if_link, unregister_found, unregister_stack, unused, update_net_if_status,
  update_stack_link, xmit_main, xmits,
}
use net_gitaroo.Netman.MainInterface.{
  Found, InTable, MainOk, Reports, Told, choose_main-MainOk, last_told-append,
  update_stack_link-Told, update_stack_link-same,
}
use net_gitaroo.IpVisual.{put_at}

-- What holds between two operations.
pub record Heard (max_count : ℕ) (keeps : Bool) (r : NetTable) : Type 0 where
  pub main_ok : MainOk max_count r.net_ifs r.main_net_if
  pub told_last : Told r
  pub reports : keeps ≡ true → Reports r

MainOk-InTable :
    (max_count : ℕ) (f : ℕ → NetIf) (o : Option ℕ) → MainOk max_count f o → InTable max_count o
MainOk-InTable max_count f none h = tt
MainOk-InTable max_count f (some i) h = h.0

link_of-ext : (r t : NetTable) (o : Option ℕ) → t.net_ifs ≡ r.net_ifs → link_of t o ≡ link_of r o
link_of-ext r t none e = refl
link_of-ext r t (some i) e = ap (λ f. (f i).link_up) e

module _ (max_count : ℕ) (null_flag keeps : Bool) where
  updated :
      (r : NetTable)
      → InTable max_count r.main_net_if
      → Heard max_count keeps (update_net_if_status max_count null_flag r)
  unfolding update_net_if_status toggle_global_link
  updated r h =
      let main = choose_main max_count null_flag r in
      let u = record r { main_net_if = main; nif_link_state = link_of r main } in
      let (a, b, c, d, n) = update_stack_link-same u in
      record {
        main_ok = rw (a, b) (choose_main-MainOk max_count null_flag r h);
        told_last = update_stack_link-Told u;
        reports = λ _.
            c
            ∙ sym
                (ap (link_of (update_stack_link u)) b ∙ link_of-ext r (update_stack_link u) main a);
      }

  in_table : (r : NetTable) → Heard max_count keeps r → InTable max_count r.main_net_if
  in_table r h = MainOk-InTable max_count r.net_ifs r.main_net_if h.main_ok

  deinit_all-main : (n i : ℕ) (r : NetTable) → (deinit_all n i r).main_net_if ≡ r.main_net_if
  unfolding deinit_all
  deinit_all-main zero i r = refl
  deinit_all-main (suc n) i r =
      let u =
        if is_used r i
        then call (deinits i) (record r { net_ifs = put_at r.net_ifs i (unused (r.net_ifs i)) })
        else r in
      let same : u.main_net_if ≡ r.main_net_if = ground arith in deinit_all-main n (suc i) u ∙ same

  pub register_stack-twice : (r : NetTable) → r.is_initialized ≡ true → register_stack r ≡ r
  unfolding register_stack
  register_stack-twice r e = ground arith

  pub register_stack-once :
      (r : NetTable)
      → r.is_initialized ≡ false
      → register_stack r ≡ update_stack_link (record r { is_initialized = true })
  unfolding register_stack
  register_stack-once r e = ground arith

  pub register_stack-Heard :
      (r : NetTable) → Heard max_count keeps r → Heard max_count keeps (register_stack r)
  register_stack-Heard r h = elim (Bool-cases r.is_initialized) [
    | inl e ↦ rw (register_stack-twice r e) h
    | inr e ↦
        let u = record r { is_initialized = true } in
        let (a, b, c, d, n) = update_stack_link-same u in
        rw (register_stack-once r e) (record {
          main_ok = rw (a, b) h.main_ok;
          told_last = update_stack_link-Told u;
          reports = λ k.
              c
              ∙ h.reports k
              ∙ sym (
                  ap (link_of (update_stack_link u)) b
                  ∙ link_of-ext r (update_stack_link u) r.main_net_if a);
        })
  ]

  pub unregister_stack-Heard :
      (r : NetTable)
      → Heard max_count keeps r
      → Heard max_count keeps (unregister_stack max_count null_flag r)
  unfolding unregister_stack
  unregister_stack-Heard r h =
      let u = deinit_all max_count 0 r in
      let k =
        updated u
          (subst (InTable max_count) (sym (deinit_all-main max_count 0 r)) (in_table r h)) in
      record { main_ok = k.main_ok; told_last = λ e. cc; reports = k.reports }

  register_at-Heard :
      (net_if : NetIf) (event_flag : Option ℕ) (i : ℕ) (r : NetTable)
      → Heard max_count keeps r
      → Heard max_count keeps (register_at max_count null_flag net_if event_flag i r).1
  unfolding register_at
  register_at-Heard net_if none i r h = h
  register_at-Heard net_if (some ef) i r h =
      let k = updated _ (in_table r h) in
      record { main_ok = k.main_ok; told_last = k.told_last; reports = k.reports }

  pub register_found-Heard :
      (net_if : NetIf) (init_succeeds : Bool) (event_flag free : Option ℕ) (r : NetTable)
      → Heard max_count keeps r
      → Heard max_count keeps
          (register_found max_count null_flag net_if init_succeeds event_flag free r).1
  unfolding register_found
  register_found-Heard net_if init_succeeds event_flag none r h = h
  register_found-Heard net_if true event_flag (some i) r h =
      register_at-Heard net_if event_flag i r h
  register_found-Heard net_if false event_flag (some i) r h = h

  pub unregister_found-Heard :
      (o : Option ℕ) (r : NetTable)
      → Heard max_count keeps r
      → Heard max_count keeps (unregister_found max_count null_flag o r)
  unfolding unregister_found
  unregister_found-Heard none r h = h
  unregister_found-Heard (some i) r h = updated _ (in_table r h)

  pub toggle_net_if_link-Heard :
      (id : ℕ) (state : Bool) (r : NetTable)
      → Heard max_count keeps r
      → Heard max_count keeps (toggle_net_if_link max_count null_flag id state r)
  unfolding toggle_net_if_link
  toggle_net_if_link-Heard id state r h =
      let f = r.net_ifs (u8 id) in
      elim (Bool-cases (ltb (u8 id) max_count && ((id == f.id) && f.in_use))) [
        | inl e ↦ rw e (updated _ (in_table r h))
        | inr e ↦ rw e h
      ]

  -- The bits of an event flag and a call of xmit say nothing of the link.
  pub clear_down-Heard :
      (o : Option ℕ) (r : NetTable)
      → Heard max_count keeps r
      → Heard max_count keeps (clear_down o r)
  unfolding clear_down
  clear_down-Heard none r h = h
  clear_down-Heard (some i) r h =
      let t : NetTable = clear_down (some i) r in
      record {
        main_ok = h.main_ok;
        told_last = h.told_last;
        reports = λ k. h.reports k ∙ sym (link_of-ext r t r.main_net_if refl);
      }

  pub xmit_main-Heard :
      (o : Option ℕ) (r : NetTable)
      → Heard max_count keeps r
      → Heard max_count keeps (xmit_main o r)
  unfolding xmit_main
  xmit_main-Heard none r h = h
  xmit_main-Heard (some i) r h = record {
    main_ok = h.main_ok;
    told_last = λ k. last_told-append none r.calls (xmits i) ∙ h.told_last k;
    reports = λ k. h.reports k ∙ sym (link_of-ext r (call (xmits i) r) r.main_net_if refl);
  }

  pub set_main_found-Heard :
      (name : ℕ) (o : Option ℕ) (r : NetTable)
      → keeps ≡ false
      → Found max_count 0 (has_name r name) o
      → Heard max_count keeps r
      → Heard max_count keeps (set_main_found o r).1
  unfolding set_main_found
  set_main_found-Heard name none r b f h = h
  set_main_found-Heard name (some i) r b f h = record {
    main_ok = (omega (arith, f.0), ground (arith, f.1));
    told_last = h.told_last;
    reports = λ k. let e = sym b ∙ k in cc;
  }
