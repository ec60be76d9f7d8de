-- ===== src/Netman/MainInterface.antt =====
-- The main interface of netman_iop/src/netman.c, and what the network stack hears of its link.
use net_gitaroo.Common.{
  Bool, Bool-cases, List, Option, [], arith, false, if◌then◌else◌, inl, inr, none, refl, some, suc,
  true, zero, ℕ, ◌++◌, ◌+◌, ◌<◌, ◌==◌, ◌∙◌, ◌∷◌, ◌≡◌, ◌≤◌,
}
use net_gitaroo.Netman.Interfaces.{
  NetCall, NetIf, NetTable, choose_main, deinits, deletes, find_index, is_used, link_of, or_else,
  told_down, told_up, update_stack_link, xmits,
}

-- The search finds an index in range that passes, or none passes.
abbrev pub Found : (n i : ℕ) → (ℕ → Bool) → Option ℕ → Type 0
Found n i test none = (j : ℕ) → i ≤ j → j < i + n → test j ≡ false
Found n i test (some j) = (j < i + n) × (test j ≡ true)

Found-later :
    (n i : ℕ) (test : ℕ → Bool) (o : Option ℕ)
    → test i ≡ false
    → Found n (suc i) test o
    → Found (suc n) i test o
Found-later n i test none h f = λ j k l. elim (Bool-cases (i == j)) [
  | inl e ↦ let same : i ≡ j = ground arith in rw (← same) h
  | inr e ↦ f j (ground arith) (omega (arith, l))
]
Found-later n i test (some j) h f = (omega (arith, f.0), f.1)

pub find_index-Found : (n i : ℕ) (test : ℕ → Bool) → Found n i test (find_index n i test)
unfolding find_index
find_index-Found zero i test = λ j h k. absurd (omega (arith, h, k))
find_index-Found (suc n) i test = elim (Bool-cases (test i)) [
  | inl yes_i ↦ rw yes_i (omega arith, yes_i)
  | inr no_i ↦
      rw no_i
        (Found-later n i test (find_index n (suc i) test) no_i (find_index-Found n (suc i) test))
]

-- The main interface is one in use, and there is none only if no interface is in use.
abbrev pub MainOk : (max_count : ℕ) → (used : ℕ → NetIf) → Option ℕ → Type 0
MainOk max_count f none = (i : ℕ) → i < max_count → (f i).in_use ≡ false
MainOk max_count f (some i) = (i < max_count) × ((f i).in_use ≡ true)

abbrev pub InTable : ℕ → Option ℕ → Type 0
InTable max_count none = Unit {0}
InTable max_count (some i) = i < max_count

-- UpdateNetIFStatus chooses such an interface, from any table whose main interface is in it.
chosen :
    (max_count : ℕ) (main searched : Option ℕ) (null_flag : Bool) (f : ℕ → NetIf)
    → InTable max_count main
    → Found max_count 0 (λ i. (f i).in_use) searched
    → let used : Bool = elim main [ none ↦ null_flag | some i ↦ (f i).in_use ] in
      MainOk max_count f (or_else (if used then main else none) searched)
chosen max_count none none null_flag f h s = elim (Bool-cases null_flag) [
  | inl e ↦ rw e (λ i l. s i (omega arith) (omega (arith, l)))
  | inr e ↦ rw e (λ i l. s i (omega arith) (omega (arith, l)))
]
chosen max_count none (some j) null_flag f h s = elim (Bool-cases null_flag) [
  | inl e ↦ rw e (omega (arith, s.0), s.1)
  | inr e ↦ rw e (omega (arith, s.0), s.1)
]
chosen max_count (some i) none null_flag f h s = elim (Bool-cases ((f i).in_use)) [
  | inl e ↦ rw e (h, e)
  | inr e ↦ rw e (λ k l. s k (omega arith) (omega (arith, l)))
]
chosen max_count (some i) (some j) null_flag f h s = elim (Bool-cases ((f i).in_use)) [
  | inl e ↦ rw e (h, e)
  | inr e ↦ rw e (omega (arith, s.0), s.1)
]

pub choose_main-MainOk :
    (max_count : ℕ) (null_flag : Bool) (r : NetTable)
    → InTable max_count r.main_net_if
    → MainOk max_count r.net_ifs (choose_main max_count null_flag r)
unfolding choose_main
choose_main-MainOk max_count null_flag r h =
    chosen max_count r.main_net_if (find_index max_count 0 (is_used r)) null_flag r.net_ifs h
      (find_index-Found max_count 0 (is_used r))

-- What the stack was told last.
abbrev pub told : NetCall → Option Bool → Option Bool
told told_up o = some true
told told_down o = some false
told (deinits i) o = o
told (xmits i) o = o
told (deletes i) o = o

abbrev pub last_told : Option Bool → List NetCall → Option Bool
last_told o [] = o
last_told o (c ∷ cs) = last_told (told c o) cs

pub last_told-append :
    (o : Option Bool) (cs : List NetCall) (c : NetCall)
    → last_told o (cs ++ (c ∷ [])) ≡ told c (last_told o cs)
last_told-append o [] c = refl
last_told-append o (x ∷ cs) c = last_told-append (told x o) cs c

-- The stack, once registered, was last told the state of netman's link.
abbrev pub Told : NetTable → Type 0
Told r = r.is_initialized ≡ true → last_told none r.calls ≡ some r.nif_link_state

-- Netman's link is that of the main interface.
abbrev pub Reports : NetTable → Type 0
Reports r = r.nif_link_state ≡ link_of r r.main_net_if

told_link : (b : Bool) (o : Option Bool) → told (if b then told_up else told_down) o ≡ some b
told_link true o = refl
told_link false o = refl

pub update_stack_link-Told : (r : NetTable) → Told (update_stack_link r)
unfolding update_stack_link
update_stack_link-Told r = elim (Bool-cases r.is_initialized) [
  | inr e ↦ rw e (λ h. cc)
  | inl e ↦ rw e (λ h. last_told-append none r.calls _ ∙ told_link r.nif_link_state _)
]

-- Everything but the calls is as before.
pub update_stack_link-same :
    (r : NetTable)
    → let t = update_stack_link r in
      (t.net_ifs ≡ r.net_ifs)
      × (t.main_net_if ≡ r.main_net_if)
      × (t.nif_link_state ≡ r.nif_link_state)
      × (t.is_initialized ≡ r.is_initialized)
      × (t.next_net_if_id ≡ r.next_net_if_id)
unfolding update_stack_link
update_stack_link-same r = ground arith
