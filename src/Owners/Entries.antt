-- ===== src/Owners/Entries.antt =====
-- The buffers over every run of the entry points of src/networking.c.
use net_gitaroo.Common.{
  Bool-cases, List, [], arith, inl, inr, length, refl, subst, sym, ℕ, ◌==◌, ◌↔◌, ◌∙◌, ◌∷◌, ◌≡◌,
}
use net_gitaroo.Buffers.Owned.{fill-Owned}
use net_gitaroo.Buffers.Rx.{alloc_rx_packet, realloc_rx_packet, rx_base, tx_base}
use net_gitaroo.Buffers.RxLaws.{alloc_rx_packet-fails, alloc_rx_packet-free, free_rx_packet-frees}
use net_gitaroo.Buffers.SendTx.{after_tx_packet-Handed, deq_tx_packet-frees, next_tx_packet-Handed}
use net_gitaroo.Buffers.Tx.{deq_tx_packet}
use net_gitaroo.Dhcp.Reply.{link_state_down, link_state_up}
use net_gitaroo.Menu.Handle.{
  enter_menu, handle_own_screen, handle_screen, leave_menu, report_menu, send_fin,
}
use net_gitaroo.Net.{Env, Net, gn_connected}
use net_gitaroo.Owners.Senders.{
  Clean, OwnsAll, StartsNull, clean, log_str-Kept, send_to_remote-Kept,
}
use net_gitaroo.Packets.{Pool, Ptr, null}
use net_gitaroo.Owners.Client.{begin_dhcp-Kept, process_dhcp-Kept}
use net_gitaroo.Owners.Frames.{enq_rx_packet-Kept, send_game_state-Kept}
use net_gitaroo.Buffers.Init.{init_lists-Owned, range}
use net_gitaroo.Owners.Serves.{
  Balanced, Serves, ServesAll, browsed, closed, dequeued, followed, frees, gives, gives-Balanced,
  handed, initialised, linked, played, prepared, printed, receives, refuses, refuses-Balanced,
  regroup, regroup-length, resizes, ticked, unlinked,
}
use net_gitaroo.GameNet.Send.{PadInput}
use net_gitaroo.Menu.Data.{Fpu, Menu}
use net_gitaroo.Menu.Follow.{follow_remote}
use net_gitaroo.Menu.Screens.{
  handle_host, handle_join, handle_joining, handle_mptype, start_connection,
}

deq_tx_packet-empty : (s : Pool) → s.next_tx_packet_buffer ≡ null → deq_tx_packet s ≡ s
unfolding deq_tx_packet
deq_tx_packet-empty s e = ground arith

dequeue-Clean : (s : Pool) {rxs h : List Ptr} → OwnsAll s rxs h → OwnsAll (deq_tx_packet s) rxs h
dequeue-Clean s (fs, [], o) = rw (deq_tx_packet-empty s o.queue) (fs, [], o)
dequeue-Clean s (fs, q ∷ qs, o) = (q ∷ fs, qs, deq_tx_packet-frees q o)

leave_menu-Clean :
    (env : Env)
    → StartsNull env
    → (ret : ℕ) (s : Net) {rxs h : List Ptr} → Clean s rxs h
    → Clean (leave_menu env ret s) rxs h
unfolding leave_menu send_fin
leave_menu-Clean env starts ret s c = elim (Bool-cases (ret == 0)) [
  | inr stays ↦ rw stays c
  | inl leaves ↦ rw leaves (elim (Bool-cases (s.game.gn_state == gn_connected)) [
    | inl a ↦ rw a (clean (λ u l. send_to_remote-Kept env starts _ _ _ _ l) c)
    | inr a ↦ rw a c
  ])
]

-- The screens of the menu themselves send nothing.
handle_own_screen-pool :
    (fpu : Fpu) (env : Env) (menu_id prev : ℕ) (m : Menu) (s : Net)
    → (handle_own_screen fpu env menu_id prev m s).0.2.pool ≡ s.pool
unfolding handle_own_screen handle_mptype handle_host handle_join handle_joining start_connection
handle_own_screen-pool fpu env menu_id prev m s = ground arith

report_menu-pool :
    (fpu : Fpu) (menu_id : ℕ) (m : Menu) (s : Net) → (report_menu fpu menu_id m s).pool ≡ s.pool
unfolding report_menu
report_menu-pool fpu menu_id m s = ground arith

handle_screen-Clean :
    (env : Env)
    → StartsNull env
    → (fpu : Fpu) (pad : PadInput) (original : Menu → Menu) (m : Menu) (s : Net) {rxs h : List Ptr}
    → Clean s rxs h
    → Clean (handle_screen fpu env pad original m s).1 rxs h
unfolding handle_screen
handle_screen-Clean env starts fpu pad original m s {rxs} {h} c =
    let e = enter_menu m in
    let o = original (follow_remote fpu e.menu_id s.game e) in
    let ((id, n, t), left) = handle_own_screen fpu env e.menu_id m.menu_id_prev o s in
    let same = handle_own_screen-pool fpu env e.menu_id m.menu_id_prev o s in
    let c' : Clean t rxs h = subst (λ p. OwnsAll p rxs h) (sym same) c in
    let c'' : Clean (report_menu fpu id n t) rxs h =
      subst (λ p. OwnsAll p rxs h) (sym (report_menu-pool fpu id n t)) c' in
    elim (Bool-cases left) [
      | inl a ↦ rw a c'
      | inr a ↦ rw a (clean (λ u l. send_game_state-Kept env starts pad _ l) c'')
    ]

pub fails_iff :
    (t : Net) {h : List Ptr} (size : ℕ)
    → Balanced t h
    → ((alloc_rx_packet size t.pool).0 ≡ null) ↔ (length h ≡ 25)
fails_iff t size ([], (fs, qs, o), n) =
    (λ _. omega (arith, n), λ _. (alloc_rx_packet-fails size o).0)
fails_iff t size (p ∷ rxs, (fs, qs, o), n) = (
  λ e. absurd (o.rx.1 (sym (alloc_rx_packet-free size p o).0 ∙ e)),
  λ e. absurd (omega (arith, n)),
)

pub Serves-Balanced :
    {env : Env} {s t : Net} {h h' : List Ptr}
    → StartsNull env
    → Serves env s h t h'
    → Balanced s h
    → Balanced t h'
unfolding link_state_up link_state_down realloc_rx_packet
Serves-Balanced {s} {h} starts (gives size ne) b = gives-Balanced s h size ne b
Serves-Balanced {s} {h} starts (refuses size e) b = refuses-Balanced s h size e b
Serves-Balanced {env} {s} starts (receives before p after e e') (rxs, c, n) =
    let (fs, qs, o) = rw e at c in
    (
      p ∷ rxs,
      rw e' (clean (λ u l. enq_rx_packet-Kept env starts p s l) (fs, qs, regroup before p after o)),
      regroup-length (length rxs) before p after e e' n,
    )
Serves-Balanced {env} {s} starts (frees before p after e e') (rxs, c, n) =
    let (fs, qs, o) = rw e at c in
    (
      p ∷ rxs,
      (fs, qs, rw e' (free_rx_packet-frees p (regroup before p after o))),
      regroup-length (length rxs) before p after e e' n,
    )
Serves-Balanced starts (resizes p size) (rxs, (fs, qs, o), n) =
    (rxs, (fs, qs, fill-Owned p _ refl o), n)
Serves-Balanced {env} starts linked (rxs, c, n) =
    (rxs, clean (λ u l. begin_dhcp-Kept env starts _ l) c, n)
Serves-Balanced starts unlinked b = b
Serves-Balanced {env} starts ticked (rxs, c, n) =
    (rxs, clean (λ u l. process_dhcp-Kept env starts _ l) c, n)
Serves-Balanced {env} starts (played pad) (rxs, c, n) =
    (rxs, clean (λ u l. send_game_state-Kept env starts pad _ l) c, n)
Serves-Balanced {env} {s} starts (printed str e) (rxs, c, n) =
    (rxs, clean (λ u l. log_str-Kept env starts str s e l) c, n)
Serves-Balanced {env} {s} starts (browsed fpu pad original m) (rxs, c, n) =
    (rxs, handle_screen-Clean env starts fpu pad original m s c, n)
Serves-Balanced {env} {s} starts (closed ret) (rxs, c, n) =
    (rxs, leave_menu-Clean env starts ret s c, n)
Serves-Balanced starts handed (rxs, (fs, qs, o), n) =
    (rxs, (fs, qs, (next_tx_packet-Handed o).1), n)
Serves-Balanced starts prepared (rxs, (fs, qs, o), n) =
    (rxs, (fs, qs, (after_tx_packet-Handed o).1), n)
Serves-Balanced {s} starts dequeued (rxs, c, n) = (rxs, dequeue-Clean s.pool c, n)

ServesAll-Balanced :
    {env : Env} {s t : Net} {h : List Ptr}
    → StartsNull env
    → s.pool.next_tx_packet_buffer ≡ null
    → ServesAll env s t h
    → Balanced t h
ServesAll-Balanced {s} starts e initialised =
    (range rx_base 25, (range tx_base 16, [], init_lists-Owned s.pool e), refl)
ServesAll-Balanced starts e (followed r step) =
    Serves-Balanced starts step (ServesAll-Balanced starts e r)

-- Whatever the entry points of the network code, with the menu's, have done since InitConnection
-- set up its lists, every packet buffer has exactly one owner, no transmit buffer is lost between
-- two entry points, and AllocRxPacket fails exactly if netman holds all 25 receive buffers; if
-- no string that LogStr prints leaves its buffer, the transmit queue was empty at first, netman
-- gives back only what it holds, and AllocTxPacket's local starts as NULL.
pub ServesAll-alloc_rx_packet :
    {env : Env} {s t : Net} {h : List Ptr} (size : ℕ)
    → StartsNull env
    → s.pool.next_tx_packet_buffer ≡ null
    → ServesAll env s t h
    → Balanced t h × (((alloc_rx_packet size t.pool).0 ≡ null) ↔ (length h ≡ 25))
ServesAll-alloc_rx_packet {t} {h} size starts e r =
    let b = ServesAll-Balanced starts e r in (b, fails_iff t size b)
