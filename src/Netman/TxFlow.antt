-- ===== src/Netman/TxFlow.antt =====
-- The flow control of the transmit ring.
use net_gitaroo.Common.{
  Bool-cases, List, Option, [], ap, arith, inl, inr, leb, length, none, refl, some, sym, ℕ, ◌%◌,
  ◌++◌, ◌+◌, ◌∙◌, ◌∷◌, ◌≡◌,
}
use net_gitaroo.Netman.TxRing.{
  PktCmd, TxRing, dequeue_frame, handle_commands, handle_rx_event, next_ptr, register_network_stack,
  send_frame,
}
use net_gitaroo.IpVisual.{put_at}

-- A step of the EE's sender or of the IOP.
pub data TxStep (group_size : ℕ) : TxRing → TxRing → Type 0 where
  sends :
      {r t : TxRing} (num_tx frame length offset : ℕ)
      → send_frame group_size num_tx frame length offset r ≡ some t
      → TxStep group_size r t
  delivers : {r : TxRing} → TxStep group_size r (handle_rx_event r)
  dequeues : {r : TxRing} → TxStep group_size r (dequeue_frame r)

pub data TxRuns (group_size : ℕ) (r : TxRing) : TxRing → Type 0 where
  registered : TxRuns group_size r (register_network_stack r)
  continues : {t u : TxRing} → TxRuns group_size r t → TxStep group_size t u → TxRuns group_size r u

-- No descriptor on the EE's side is in use.
abbrev pub AllClear : TxRing → Type 0
AllClear r = (i : ℕ) → (r.ee_status i).length ≡ 0

-- A frame that is sent while all is clear goes with a command, which marks nothing.
send_frame-clear :
    (group_size num_tx frame length offset : ℕ) (r : TxRing)
    → AllClear r
    → send_frame group_size num_tx frame length offset r
      ≡ some (record r {
        frames = put_at r.frames r.wr_ptr frame;
        commands = r.commands ++ (record { id = r.wr_ptr; length = length; offset = offset } ∷ []);
        wr_ptr = next_ptr r.wr_ptr;
      })
unfolding send_frame
send_frame-clear group_size num_tx frame length offset r clear =
    rw (clear r.wr_ptr, clear (next_ptr r.wr_ptr))
      (elim (Bool-cases (leb group_size (num_tx + 1))) [ inl e ↦ rw e refl | inr e ↦ rw e refl ])

handle_commands-clear :
    (cs : List PktCmd) (r : TxRing) → (handle_commands cs r).ee_status ≡ r.ee_status
unfolding handle_commands
handle_commands-clear [] r = refl
handle_commands-clear (c ∷ cs) r = refl

abbrev ring_of : TxRing → Option TxRing → TxRing
ring_of r none = r
ring_of r (some t) = t

TxStep-AllClear : {group_size : ℕ} {r t : TxRing} → TxStep group_size r t → AllClear r → AllClear t
unfolding dequeue_frame
TxStep-AllClear {group_size} {r} (sends num_tx frame length offset e) clear i =
    let e' = sym (send_frame-clear group_size num_tx frame length offset r clear) ∙ e in
    ap (λ o. ((ring_of r o).ee_status i).length) (sym e') ∙ clear i
TxStep-AllClear {group_size} {r} delivers clear i =
    rw (handle_commands-clear r.commands r) (clear i)
TxStep-AllClear {group_size} {r} dequeues clear i = ground (arith, clear i)

TxRuns-AllClear : {group_size : ℕ} {r t : TxRing} → TxRuns group_size r t → AllClear t
unfolding register_network_stack
TxRuns-AllClear registered i = refl
TxRuns-AllClear (continues run step) i = TxStep-AllClear step (TxRuns-AllClear run) i

-- Whatever the two sides have done since the stack was registered, the EE's sender never waits for
-- the IOP: the next frame is sent at once, into the slot at the write pointer, whether the IOP
-- has taken the frame that is there or not, and the pointer moves on modulo 24.
pub send_frame-never_waits :
    {group_size : ℕ} {r t : TxRing} (num_tx frame length offset : ℕ)
    → TxRuns group_size r t
    → (u : TxRing) × (send_frame group_size num_tx frame length offset t ≡ some u)
      × (u.frames t.wr_ptr ≡ frame)
      × (u.iop_status ≡ t.iop_status)
      × (u.wr_ptr ≡ (t.wr_ptr + 1) % 24)
send_frame-never_waits {group_size} {t} num_tx frame length offset run = (
  _,
  send_frame-clear group_size num_tx frame length offset t (TxRuns-AllClear run),
  ground arith,
  refl,
  refl,
)
