-- ===== src/Buffers/Victim.antt =====
-- The loops of AllocTxPacket when no buffer is free: which queued buffer they choose, and how
-- they unlink it.
use net_gitaroo.Common.{
  Bool-cases, List, [], ap, arith, count, count-append, false, if◌then◌else◌, inl, inr, length,
  ne_of_count, not-mem_of_count, refl, suc, true, zero, ℕ, ◌++◌, ◌<◌, ◌==◌, ◌∙◌, ◌∷◌, ◌≡◌, ◌≢◌, ◌≤◌,
  ◌⊎◌,
}
use net_gitaroo.Packets.{Heap, PacketBuffer, Ptr, null, put_next}
use net_gitaroo.Buffers.Owned.{Distinct}
use net_gitaroo.Buffers.Chain.{Chain, Chain-put, put_ne, put_self}
use net_gitaroo.Buffers.Tx.{find_victim, is_eligible, unlink_behind}

-- None of `xs` may be evicted for a packet of this priority.
abbrev pub NoneEligible : Heap → ℕ → List Ptr → Type 0
NoneEligible h priority [] = Unit {0}
NoneEligible h priority (x ∷ xs) = (is_eligible priority (h x) ≡ false) × NoneEligible h priority xs

-- The queue `qs` is `before`, then the buffer `victim` that may be evicted, then `after`, of which
-- none may.
pub record LastEligible (h : Heap) (priority : ℕ) (qs before : List Ptr) (victim : Ptr)
    (after : List Ptr) : Type 0 where
  pub split : qs ≡ before ++ (victim ∷ after)
  pub eligible : is_eligible priority (h victim) ≡ true
  pub none_after : NoneEligible h priority after

-- Every queue has a last eligible buffer, or no eligible one.
pub LastEligible-or-none :
    (h : Heap) (priority : ℕ) (qs : List Ptr)
    → NoneEligible h priority qs
      ⊎ ((before : List Ptr) × (victim : Ptr) × (after : List Ptr) × LastEligible h priority qs
            before victim after)
LastEligible-or-none h priority [] = inl tt
LastEligible-or-none h priority (x ∷ xs) = elim (LastEligible-or-none h priority xs) [
  | inl nothing ↦ elim (Bool-cases (is_eligible priority (h x))) [
    | inl e ↦ inr ([], x, xs, record { split = refl; eligible = e; none_after = nothing })
    | inr e ↦ inl (e, nothing)
  ]
  | inr (before, victim, after, l) ↦ inr (
    x ∷ before,
    victim,
    after,
    record { split = ap (◌∷◌ x) l.split; eligible = l.eligible; none_after = l.none_after },
  )
]

module _ (h : Heap) (priority : ℕ) where
  pub find_victim-none :
      (k : ℕ) (p acc : Ptr) (xs : List Ptr)
      → Chain h p xs
      → length xs < k
      → NoneEligible h priority xs
      → find_victim k h priority p acc ≡ acc
  unfolding find_victim
  find_victim-none zero p acc xs c fuel n = absurd (omega arith)
  find_victim-none (suc k) p acc [] c fuel n = ground arith
  find_victim-none (suc k) p acc (x ∷ xs) c fuel n =
      ground (arith, find_victim-none k (h x).next acc xs c.2 (omega arith) n.1)

  pub find_victim-last :
      (k : ℕ) (p acc : Ptr) (before : List Ptr) (victim : Ptr) (after : List Ptr)
      → Chain h p (before ++ (victim ∷ after))
      → length (before ++ (victim ∷ after)) < k
      → is_eligible priority (h victim) ≡ true
      → NoneEligible h priority after
      → find_victim k h priority p acc ≡ victim
  unfolding find_victim
  find_victim-last zero p acc before v after c fuel e n = absurd (omega arith)
  find_victim-last (suc k) p acc [] v after c fuel e n =
      ground (arith, find_victim-none k (h v).next v after c.2 (omega arith) n)
  find_victim-last (suc k) p acc (x ∷ xs) v after c fuel e n =
      let acc' = if is_eligible priority (h x) then x else acc in
      ground (arith, find_victim-last k (h x).next acc' xs v after c.2 (omega arith) e n)

-- Unlinking `v` from behind `before`: one pointer is written, that of a buffer in `before`, and
-- the list then lacks `v`.
pub record Unlinked (h g : Heap) (p : Ptr) (before : List Ptr) (v : Ptr) (after : List Ptr)
    : Type 0 where
  pub place : Ptr
  pub inside : 1 ≤ count place before
  pub written : g ≡ put_next h place (h v).next
  pub chain : Chain g p (before ++ after)

unlink_behind-hit :
    (h : Heap) (k : ℕ) (x v : Ptr)
    → x ≢ null
    → (h x).next ≡ v
    → unlink_behind (suc k) h x v ≡ put_next h x (h v).next
unfolding unlink_behind
unlink_behind-hit h k x v ne e = ground arith

unlink_behind-miss :
    (h : Heap) (k : ℕ) (x y v : Ptr)
    → x ≢ null
    → (h x).next ≡ y
    → (y == v) ≡ false
    → unlink_behind (suc k) h x v ≡ unlink_behind k h y v
unfolding unlink_behind
unlink_behind-miss h k x y v ne e miss = ground (arith, ap (λ t. unlink_behind k h t v) e)

pub unlink_behind-Unlinked :
    (h : Heap) (k : ℕ) (x : Ptr) (xs : List Ptr) (v : Ptr) (after : List Ptr)
    → Chain h x ((x ∷ xs) ++ (v ∷ after))
    → Distinct ((x ∷ xs) ++ (v ∷ after))
    → length ((x ∷ xs) ++ (v ∷ after)) < k
    → Unlinked h (unlink_behind k h x v) x (x ∷ xs) v after
unlink_behind-Unlinked h zero x xs v after c d fuel = absurd (omega arith)
unlink_behind-Unlinked h (suc k) x [] v after c d fuel =
    let out = not-mem_of_count x after (ground (arith, d x)) in
    rw (unlink_behind-hit h k x v c.1 c.2.0) (record {
      place = x;
      inside = ground arith;
      written = refl;
      chain = (refl, c.1, rw put_self (Chain-put h (h v).next after x _ out c.2.2));
    })
unlink_behind-Unlinked h (suc k) x (y ∷ ys) v after c d fuel =
    let d' : Distinct ((y ∷ ys) ++ (v ∷ after)) = λ a. omega (arith, d a) in
    let miss : (y == v) ≡ false = ground (arith, d v, count-append v ys (v ∷ after)) in
    let c' : Chain h y ((y ∷ ys) ++ (v ∷ after)) = (refl, c.2.1, c.2.2) in
    let u = unlink_behind-Unlinked h k y ys v after c' d' (omega arith) in
    let other =
      ne_of_count x u.place (y ∷ ys) (ground (arith, d x, count-append x ys (v ∷ after)))
        u.inside in
    rw (unlink_behind-miss h k x y v c.1 c.2.0 miss) (record {
      place = u.place;
      inside = omega (arith, u.inside);
      written = u.written;
      chain = (
        refl,
        c.1,
        (
          ap (λ (g : Heap). (g x).next) u.written
              ∙ ap (λ (b : PacketBuffer). b.next) (put_ne h u.place x _ other)
              ∙ c.2.0,
          c.2.1,
          u.chain.2,
        ),
      );
    })
