-- ===== src/Util/QueueSteps.antt =====
-- SifSetRpcQueue appends a queue, and SifRemoveRpcQueue erases one.
use net_gitaroo.Common.{
  Bool-cases, List, [], arith, count, count-append, count_of_not-mem, false, inl, inr, length, mem,
  refl, subst, sym, true, ℕ, ◌++◌, ◌<◌, ◌==◌, ◌∙◌, ◌∷◌, ◌≡◌, ◌≢◌, ◌≤◌,
}
use net_gitaroo.Buffers.Owned.{Distinct}
use net_gitaroo.Packets.{Ptr, null}
use net_gitaroo.Util.QueueList.{Linked, Linked-put, erase, last_queue-Linked, remove_behind-Erased}
use net_gitaroo.Util.Queues.{
  RpcData, RpcQueue, last_queue, put_link, remove_behind, sif_remove_rpc_queue, sif_set_rpc_queue,
}
use net_gitaroo.IpVisual.{put_at}

-- The queues from active_queue on are `xs`, each once.
abbrev pub Active : RpcData → List Ptr → Type 0
Active r xs = Linked r.queues r.active_queue xs × Distinct xs

pub length-erase : (q : Ptr) (xs : List Ptr) → length (erase q xs) ≤ length xs
length-erase q [] = omega arith
length-erase q (x ∷ xs) = ground (arith, length-erase q xs)

count-erase : (a q : Ptr) (xs : List Ptr) → count a (erase q xs) ≤ count a xs
count-erase a q [] = omega arith
count-erase a q (x ∷ xs) = ground (arith, count-erase a q xs)

Distinct-append :
    (q : Ptr) (xs : List Ptr) → Distinct xs → mem q xs ≡ false → Distinct (xs ++ (q ∷ []))
Distinct-append q xs d m a = elim (Bool-cases (a == q)) [
  | inl e ↦
      let same : a ≡ q = ground arith in
      let once = count_of_not-mem a xs (rw same m) in
      ground (arith, count-append a xs (q ∷ []), once)
  | inr e ↦ ground (arith, count-append a xs (q ∷ []), d a)
]

Distinct-erase : (q : Ptr) (xs : List Ptr) → Distinct xs → Distinct (erase q xs)
Distinct-erase q xs d a = omega (arith, count-erase a q xs, d a)

abbrev fresh_queue : ℕ → RpcQueue
fresh_queue id = record {
  thread_id = id;
  active = 0;
  link = null;
  start = null;
  end_ = null;
  next = null;
}

sif_set_rpc_queue-first :
    (rounds : ℕ) (qd : Ptr) (id : ℕ) (r : RpcData)
    → r.active_queue ≡ null
    → (sif_set_rpc_queue rounds qd id r).1
      ≡ record r { queues = put_at r.queues qd (fresh_queue id); active_queue = qd }
unfolding sif_set_rpc_queue
sif_set_rpc_queue-first rounds qd id r e =
    let none_yet : (r.active_queue == null) ≡ true = ground arith in rw none_yet refl

sif_set_rpc_queue-behind :
    (rounds : ℕ) (qd : Ptr) (id : ℕ) (r : RpcData)
    → r.active_queue ≢ null
    → let h = put_at r.queues qd (fresh_queue id) in
      (sif_set_rpc_queue rounds qd id r).1
      ≡ record r { queues = put_link h (last_queue rounds h r.active_queue) qd }
unfolding sif_set_rpc_queue
sif_set_rpc_queue-behind rounds qd id r ne =
    let some_queue : (r.active_queue == null) ≡ false = ground arith in rw some_queue refl

pub sif_set_rpc_queue-Active :
    (rounds : ℕ) (qd : Ptr) (id : ℕ) (r : RpcData) (xs : List Ptr)
    → Active r xs
    → qd ≢ null
    → mem qd xs ≡ false
    → length xs < rounds
    → Active (sif_set_rpc_queue rounds qd id r).1 (xs ++ (qd ∷ []))
sif_set_rpc_queue-Active rounds qd id r [] (c, d) ne m fuel =
    let self : (qd == qd) ≡ true = ground arith in
    subst (λ u. Active u (qd ∷ [])) (sym (sif_set_rpc_queue-first rounds qd id r c))
      ((refl, ne, rw self refl), λ a. ground arith)
sif_set_rpc_queue-Active rounds qd id r (x ∷ xs) ((e, nx, c), d) ne m fuel =
    let fresh = fresh_queue id in
    let h = put_at r.queues qd fresh in
    let kept : Linked h x (x ∷ xs) = Linked-put r.queues x (x ∷ xs) qd fresh m (refl, nx, c) in
    let self : (qd == qd) ≡ true = ground arith in
    let cleared : (h qd).next ≡ null = rw self refl in
    let (l, _) =
      last_queue-Linked h rounds qd x xs kept.2 nx d m ne cleared (omega (arith, fuel)) in
    let same = sif_set_rpc_queue-behind rounds qd id r (λ k. nx (sym e ∙ k)) in
    subst (λ u. Active u ((x ∷ xs) ++ (qd ∷ []))) (sym same)
      (
        subst (λ p. Linked (put_link h (last_queue rounds h p) qd) p ((x ∷ xs) ++ (qd ∷ [])))
            (sym e) l,
        Distinct-append qd (x ∷ xs) d m,
      )

sif_remove_rpc_queue-first :
    (rounds : ℕ) (qd : Ptr) (r : RpcData)
    → r.active_queue ≡ qd
    → (sif_remove_rpc_queue rounds qd r).1
      ≡ record r { active_queue = (r.queues r.active_queue).next }
unfolding sif_remove_rpc_queue
sif_remove_rpc_queue-first rounds qd r e =
    let found : (r.active_queue == qd) ≡ true = ground arith in rw found refl

sif_remove_rpc_queue-behind :
    (rounds : ℕ) (qd : Ptr) (r : RpcData)
    → r.active_queue ≢ qd
    → (sif_remove_rpc_queue rounds qd r).1
      ≡ record r { queues = (remove_behind rounds qd r.queues r.active_queue).1 }
unfolding sif_remove_rpc_queue
sif_remove_rpc_queue-behind rounds qd r ne =
    let other : (r.active_queue == qd) ≡ false = ground arith in rw other refl

pub sif_remove_rpc_queue-Active :
    (rounds : ℕ) (qd : Ptr) (r : RpcData) (xs : List Ptr)
    → Active r xs
    → qd ≢ null
    → length xs < rounds
    → Active (sif_remove_rpc_queue rounds qd r).1 (erase qd xs)
sif_remove_rpc_queue-Active rounds qd r [] (c, d) ne fuel =
    let same = sif_remove_rpc_queue-behind rounds qd r (λ k. ne (sym k ∙ c)) in
    subst (λ u. Active u []) (sym same) (c, d)
sif_remove_rpc_queue-Active rounds qd r (x ∷ xs) ((e, nx, c), d) ne fuel =
    elim (Bool-cases (qd == x)) [
      | inl a ↦
          let found : qd ≡ x = ground arith in
          let same = sif_remove_rpc_queue-first rounds qd r (e ∙ sym found) in
          rw a (
            subst (λ u. Active u xs) (sym same)
              (
                subst (λ p. Linked r.queues (r.queues p).next xs) (sym e) c,
                λ b. let once = d b in ground arith,
              ))
      | inr a ↦
          let same =
            sif_remove_rpc_queue-behind rounds qd r
              (λ k. let f : qd ≡ x = sym k ∙ e in ground arith) in
          let (l, _) =
            remove_behind-Erased r.queues rounds qd x xs c nx d ne (omega (arith, fuel)) in
          let distinct = Distinct-erase qd (x ∷ xs) d in
          subst (λ u. Active u (erase qd (x ∷ xs))) (sym same)
            (
              subst (λ p. Linked (remove_behind rounds qd r.queues p).1 p (erase qd (x ∷ xs)))
                  (sym e) (rw a l),
              distinct,
            )
    ]
