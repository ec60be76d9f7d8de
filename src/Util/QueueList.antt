-- ===== src/Util/QueueList.antt =====
-- The RPC queues of src/util.c against lists.
use net_gitaroo.Common.{
  Bool-cases, List, [], ap, arith, false, if◌then◌else◌, inl, inr, length, mem, not-mem_of_count,
  refl, subst, suc, sym, true, zero, ℕ, ◌++◌, ◌<◌, ◌==◌, ◌∙◌, ◌∷◌, ◌≡◌, ◌≢◌,
}
use net_gitaroo.Buffers.Owned.{Distinct}
use net_gitaroo.IpVisual.{put_at}
use net_gitaroo.Packets.{Ptr, null}
use net_gitaroo.Util.Queues.{RpcQueue, last_queue, put_link, remove_behind}

-- From `p` the `next` pointers lead through exactly the queues `xs` to NULL.
abbrev pub Linked : (Ptr → RpcQueue) → Ptr → List Ptr → Type 0
Linked h p [] = p ≡ null
Linked h p (x ∷ xs) = (p ≡ x) × (x ≢ null) × Linked h (h x).next xs

pub Linked-put :
    (h : Ptr → RpcQueue) (p : Ptr) (xs : List Ptr) (a : Ptr) (b : RpcQueue)
    → mem a xs ≡ false
    → Linked h p xs
    → Linked (put_at h a b) p xs
Linked-put h p [] a b out c = c
Linked-put h p (x ∷ xs) a b out c =
    (c.0, c.1, ground (arith, Linked-put h (h x).next xs a b (ground arith) c.2))

-- The reference: queues are appended and erased.
abbrev pub erase : Ptr → List Ptr → List Ptr
erase q [] = []
erase q (x ∷ xs) = if q == x then xs else x ∷ erase q xs

mem-apart : (a b : Ptr) (xs : List Ptr) → mem a xs ≡ false → mem b xs ≡ true → (a == b) ≡ false
mem-apart a b [] out m = ground arith
mem-apart a b (x ∷ xs) out m = elim (Bool-cases (b == x)) [
  | inl e ↦ ground arith
  | inr e ↦ mem-apart a b xs (ground arith) (ground arith)
]

last_queue-last :
    (h : Ptr → RpcQueue) (rounds : ℕ) (x : Ptr)
    → (h x).next ≡ null
    → last_queue (suc rounds) h x ≡ x
unfolding last_queue
last_queue-last h rounds x e = rw e refl

last_queue-next :
    (h : Ptr → RpcQueue) (rounds : ℕ) (x y : Ptr)
    → (h x).next ≡ y
    → y ≢ null
    → last_queue (suc rounds) h x ≡ last_queue rounds h y
unfolding last_queue
last_queue-next h rounds x y e ne =
    let some_queue : (y == null) ≡ false = ground arith in rw (e, some_queue) refl

-- SifSetRpcQueue's walk and write append a queue.
pub last_queue-Linked :
    (h : Ptr → RpcQueue) (rounds : ℕ) (q x : Ptr) (xs : List Ptr)
    → Linked h (h x).next xs
    → x ≢ null
    → Distinct (x ∷ xs)
    → mem q (x ∷ xs) ≡ false
    → q ≢ null
    → (h q).next ≡ null
    → length xs < rounds
    → Linked (put_link h (last_queue rounds h x) q) x ((x ∷ xs) ++ (q ∷ []))
      × (mem (last_queue rounds h x) (x ∷ xs) ≡ true)
last_queue-Linked h zero q x xs c nx d m ne e fuel = absurd (omega (arith, fuel))
last_queue-Linked h (suc rounds) q x [] c nx d m ne e fuel =
    rw (last_queue-last h rounds x c) (ground arith)
last_queue-Linked h (suc rounds) q x (y ∷ ys) c nx d m ne e fuel =
    let (l, inside) =
      last_queue-Linked h rounds q y ys c.2 c.1 (λ a. ground (arith, d a)) (ground arith) ne e
        (omega (arith, fuel)) in
    let out = not-mem_of_count x (y ∷ ys) (ground (arith, d x)) in
    let apart = mem-apart x (last_queue rounds h y) (y ∷ ys) out inside in
    subst
      (λ w. Linked (put_link h w q) x ((x ∷ (y ∷ ys)) ++ (q ∷ [])) × (mem w (x ∷ (y ∷ ys)) ≡ true))
      (sym (last_queue-next h rounds x y c.0 c.1)) (rw (apart, c.0) (refl, nx, l), ground arith)

pub remove_behind-null :
    (rounds : ℕ) (qd : Ptr) (h : Ptr → RpcQueue) → (remove_behind rounds qd h null).1 ≡ h
unfolding remove_behind
remove_behind-null zero qd h = refl
remove_behind-null (suc rounds) qd h = refl

remove_behind-here :
    (rounds : ℕ) (qd : Ptr) (h : Ptr → RpcQueue) (x : Ptr)
    → x ≢ null
    → (h x).next ≡ qd
    → (remove_behind (suc rounds) qd h x).1 ≡ put_link h x (h qd).next
unfolding remove_behind
remove_behind-here rounds qd h x nx e =
    let some_queue : (x == null) ≡ false = ground arith in
    let found : ((h x).next == qd) ≡ true = ground arith in rw (some_queue, found) refl

remove_behind-next :
    (rounds : ℕ) (qd : Ptr) (h : Ptr → RpcQueue) (x y : Ptr)
    → x ≢ null
    → (h x).next ≡ y
    → (y == qd) ≡ false
    → (remove_behind (suc rounds) qd h x).1 ≡ (remove_behind rounds qd h y).1
unfolding remove_behind
remove_behind-next rounds qd h x y nx e ne =
    let some_queue : (x == null) ≡ false = ground arith in rw (some_queue, e, ne) refl

-- What SifRemoveRpcQueue's walk from `x` leaves of the memory `h`: it erases a queue behind `x`, and
-- writes only to queues of the list.
abbrev pub Erased : (h : Ptr → RpcQueue) (qd x : Ptr) (xs : List Ptr) (u : Ptr → RpcQueue) → Type 0
Erased h qd x xs u = Linked u x (x ∷ erase qd xs) × ((a : Ptr) → mem a (x ∷ xs) ≡ false → u a ≡ h a)

Erased-here :
    (h : Ptr → RpcQueue) (qd x y : Ptr) (ys : List Ptr)
    → Linked h (h x).next (y ∷ ys)
    → x ≢ null
    → mem x (y ∷ ys) ≡ false
    → y ≡ qd
    → Erased h qd x (y ∷ ys) (put_link h x (h qd).next)
Erased-here h qd x y ys (e, ny, c) nx out same =
    let found : (qd == y) ≡ true = ground arith in
    let kept =
      Linked-put h (h y).next ys x (record (h x) { next = (h qd).next }) (ground arith) c in
    let self : (x == x) ≡ true = ground arith in
    (
      rw (found, self)
          (refl, nx, subst (λ p. Linked (put_link h x (h qd).next) (h p).next ys) same kept),
      λ a m. let other : (a == x) ≡ false = ground arith in rw other refl,
    )

Erased-later :
    (h u : Ptr → RpcQueue) (qd x y : Ptr) (ys : List Ptr)
    → (h x).next ≡ y
    → x ≢ null
    → mem x (y ∷ ys) ≡ false
    → (y == qd) ≡ false
    → Erased h qd y ys u
    → Erased h qd x (y ∷ ys) u
Erased-later h u qd x y ys e nx out ne (l, others) =
    let other : (qd == y) ≡ false = ground arith in
    let unchanged = ap (λ b. b.next) (others x out) ∙ e in
    (
      rw other (refl, nx, subst (λ p. Linked u p (y ∷ erase qd ys)) (sym unchanged) l),
      λ a m. others a (ground arith),
    )

pub remove_behind-Erased :
    (h : Ptr → RpcQueue) (rounds : ℕ) (qd x : Ptr) (xs : List Ptr)
    → Linked h (h x).next xs
    → x ≢ null
    → Distinct (x ∷ xs)
    → qd ≢ null
    → length xs < rounds
    → Erased h qd x xs (remove_behind rounds qd h x).1
remove_behind-Erased h zero qd x xs c nx d ne fuel = absurd (omega (arith, fuel))
remove_behind-Erased h (suc rounds) qd x [] c nx d ne fuel =
    let other : (null == qd) ≡ false = ground arith in
    rw (remove_behind-next rounds qd h x null nx c other, remove_behind-null rounds qd h)
      ((refl, nx, c), λ a m. refl)
remove_behind-Erased h (suc rounds) qd x (y ∷ ys) c nx d ne fuel =
    let out = not-mem_of_count x (y ∷ ys) (ground (arith, d x)) in
    elim (Bool-cases (y == qd)) [
      | inl e ↦
          let same : y ≡ qd = ground arith in
          subst (Erased h qd x (y ∷ ys)) (sym (remove_behind-here rounds qd h x nx (c.0 ∙ same)))
            (Erased-here h qd x y ys c nx out same)
      | inr e ↦ subst (Erased h qd x (y ∷ ys)) (sym (remove_behind-next rounds qd h x y nx c.0 e)) (
          Erased-later h _ qd x y ys c.0 nx out e (
            remove_behind-Erased h rounds qd y ys c.2 c.1 (λ a. ground (arith, d a)) ne
              (omega (arith, fuel))))
    ]
