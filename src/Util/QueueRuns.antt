-- ===== src/Util/QueueRuns.antt =====
-- Sequences of SifSetRpcQueue and SifRemoveRpcQueue of src/util.c against lists.
use mathlib.Core.Option.{none-ne-some, some-injective}
use net_gitaroo.Common.{
  Bool-cases, List, Option, [], arith, false, if◌then◌else◌, inl, inr, length, length-append, mem,
  none, refl, some, subst, sym, ℕ, ◌++◌, ◌+◌, ◌<◌, ◌==◌, ◌||◌, ◌∙◌, ◌∷◌, ◌≡◌, ◌≢◌, ◌≤◌,
}
use net_gitaroo.Packets.{Ptr, null}
use net_gitaroo.Util.QueueList.{erase}
use net_gitaroo.Util.Queues.{RpcData, sif_remove_rpc_queue, sif_set_rpc_queue}
use net_gitaroo.Util.QueueSteps.{
  Active, length-erase, sif_remove_rpc_queue-Active, sif_set_rpc_queue-Active,
}

-- A call for the queue at an address.
pub data QueueCall : Type 0 where
  sets : (qd : Ptr) (thread_id : ℕ) → QueueCall
  removes : (qd : Ptr) → QueueCall

abbrev run_call : (rounds : ℕ) → QueueCall → RpcData → RpcData
run_call rounds (sets qd thread_id) r = (sif_set_rpc_queue rounds qd thread_id r).1
run_call rounds (removes qd) r = (sif_remove_rpc_queue rounds qd r).1

abbrev pub run_calls : (rounds : ℕ) → List QueueCall → RpcData → RpcData
run_calls rounds [] r = r
run_calls rounds (c ∷ cs) r = run_calls rounds cs (run_call rounds c r)

-- The reference: a call for NULL, and setting a queue that is set, is an error.
abbrev list_call : QueueCall → List Ptr → Option (List Ptr)
list_call (sets qd thread_id) xs =
    if (qd == null) || mem qd xs then none else some (xs ++ (qd ∷ []))
list_call (removes qd) xs = if qd == null then none else some (erase qd xs)

abbrev pub list_calls : List QueueCall → List Ptr → Option (List Ptr)
list_calls [] xs = some xs
list_calls (c ∷ cs) xs = elim (list_call c xs) [ none ↦ none | some ys ↦ list_calls cs ys ]

set_accepted :
    (qd : Ptr) (id : ℕ) (xs ys : List Ptr)
    → list_call (sets qd id) xs ≡ some ys
    → (qd ≢ null) × (mem qd xs ≡ false) × (ys ≡ xs ++ (qd ∷ []))
set_accepted qd id xs ys e = elim (Bool-cases (qd == null)) [
  | inl bad ↦
      let k : list_call (sets qd id) xs ≡ none = rw bad refl in absurd (none-ne-some ys (sym k ∙ e))
  | inr ok ↦ elim (Bool-cases (mem qd xs)) [
    | inl bad ↦
        let k : list_call (sets qd id) xs ≡ none = rw (ok, bad) refl in
        absurd (none-ne-some ys (sym k ∙ e))
    | inr new ↦ (
      ground arith,
      new,
      let k : list_call (sets qd id) xs ≡ some (xs ++ (qd ∷ [])) = rw (ok, new) refl in
          some-injective _ _ (sym e ∙ k),
    )
  ]
]

remove_accepted :
    (qd : Ptr) (xs ys : List Ptr)
    → list_call (removes qd) xs ≡ some ys
    → (qd ≢ null) × (ys ≡ erase qd xs)
remove_accepted qd xs ys e = elim (Bool-cases (qd == null)) [
  | inl bad ↦
      let k : list_call (removes qd) xs ≡ none = rw bad refl in absurd (none-ne-some ys (sym k ∙ e))
  | inr ok ↦ (
    ground arith,
    let k : list_call (removes qd) xs ≡ some (erase qd xs) = rw ok refl in
        some-injective _ _ (sym e ∙ k),
  )
]

run_call-Active :
    (rounds : ℕ) (c : QueueCall) (r : RpcData) (xs ys : List Ptr)
    → Active r xs
    → list_call c xs ≡ some ys
    → length xs < rounds
    → Active (run_call rounds c r) ys × (length ys ≤ length xs + 1)
run_call-Active rounds (sets qd id) r xs ys h e fuel =
    let (ne, m, same) = set_accepted qd id xs ys e in
    rw same (
      sif_set_rpc_queue-Active rounds qd id r xs h ne m fuel,
      omega (arith, length-append xs (qd ∷ [])),
    )
run_call-Active rounds (removes qd) r xs ys h e fuel =
    let (ne, same) = remove_accepted qd xs ys e in
    rw same
      (sif_remove_rpc_queue-Active rounds qd r xs h ne fuel, omega (arith, length-erase qd xs))

run_calls-Active :
    (rounds : ℕ) (cs : List QueueCall) (r : RpcData) (xs ys : List Ptr)
    → Active r xs
    → list_calls cs xs ≡ some ys
    → length xs + length cs ≤ rounds
    → Active (run_calls rounds cs r) ys
run_calls-Active rounds [] r xs ys h e fuel = subst (Active r) (some-injective _ _ e) h
run_calls-Active rounds (c ∷ cs) r xs ys h e fuel =
    after (list_call c xs) refl e (λ zs. run_calls-Active rounds cs (run_call rounds c r) zs ys)
  where
    after :
        (o : Option (List Ptr))
        → list_call c xs ≡ o
        → elim o [ none ↦ none | some zs ↦ list_calls cs zs ] ≡ some ys
        → ((zs : List Ptr)
            → Active (run_call rounds c r) zs
            → list_calls cs zs ≡ some ys
            → length zs + length cs ≤ rounds
            → Active (run_calls rounds (c ∷ cs) r) ys)
        → Active (run_calls rounds (c ∷ cs) r) ys
    after none a k rest = absurd (none-ne-some ys k)
    after (some zs) a k rest =
        let (h', l) = run_call-Active rounds c r xs zs h a (omega (arith, fuel)) in
        rest zs h' k (omega (arith, fuel, l))

-- Any sequence of calls of SifSetRpcQueue and SifRemoveRpcQueue from an empty list of queues works
-- like appending to and erasing from a list: where the calls on the list make no error, and the walks
-- get as many tests of their condition as there are calls, the queues from active_queue on are those
-- of the list, in order, each once.
pub run_calls-list_calls :
    (rounds : ℕ) (cs : List QueueCall) (r : RpcData) (ys : List Ptr)
    → r.active_queue ≡ null
    → list_calls cs [] ≡ some ys
    → length cs ≤ rounds
    → Active (run_calls rounds cs r) ys
run_calls-list_calls rounds cs r ys e k fuel =
    run_calls-Active rounds cs r [] ys (e, λ a. omega arith) k (omega (arith, fuel))
