-- ===== src/Util/Hooked.antt =====
-- CreateHook of src/hook.c: what the processor runs at the hooked function and at the trampoline.
-- The processor is written out here, as the MIPS architecture documents it, as far as the words
-- that CreateHook handles go: jr ra, j, and instructions that go on to the next word.
use net_gitaroo.Common.{
  Bool, Bool-cases, List, [], arith, false, if◌then◌else◌, inl, inr, ltb, not, refl, ℕ, ◌%◌, ◌&&◌,
  ◌*◌, ◌++◌, ◌+◌, ◌/◌, ◌<◌, ◌==◌, ◌^◌, ◌||◌, ◌∷◌, ◌≡◌, ◌≤◌, ◌⊎◌,
}
use net_gitaroo.Util.{create_hook}

-- Where a run of instructions goes on: at an address, at the caller, or nowhere that is written
-- out here.
pub data Next : Type 0 where
  goes_to : ℕ → Next
  goes_back : Next
  goes_elsewhere : Next

abbrev pub jr_ra : ℕ
jr_ra = 0x03e00008

-- A word that is a jump or a branch: jr and jalr, the branches on a sign, j, jal, the branches on
-- two registers, their likely forms, and the branches on a coprocessor.
abbrev pub is_jump : ℕ → Bool
is_jump word =
    let opcode = word / 2 ^ 26 in
    ((opcode == 0) && ((word % 2 ^ 6 == 8) || (word % 2 ^ 6 == 9)))
    || (not (opcode == 0) && ltb opcode 8)
    || (ltb 19 opcode && ltb opcode 24)
    || (ltb 15 opcode && ltb opcode 20 && (word / 2 ^ 21 % 2 ^ 5 == 8))

-- One instruction, a jump with its delay slot: the words that take effect, in order, and where the
-- processor goes on. The addresses are below 2^28.
abbrev pub run_one : (mem : ℕ → ℕ) (pc : ℕ) → List ℕ × Next
run_one mem pc =
    let word = mem pc in
    let slot = mem (pc + 4) in
    if not (is_jump word)
    then (word ∷ [], goes_to (pc + 4))
    else if is_jump slot
    then ([], goes_elsewhere)
    else if word == jr_ra
    then (slot ∷ [], goes_back)
    else if word / 2 ^ 26 == 2
    then (slot ∷ [], goes_to (word % 2 ^ 26 * 4))
    else ([], goes_elsewhere)

-- What runs behind the words `done`, where the processor goes on at `next`.
abbrev pub go_on : (mem : ℕ → ℕ) → List ℕ × Next → List ℕ × Next
go_on mem (done, goes_to pc) = (done ++ (run_one mem pc).0, (run_one mem pc).1)
go_on mem (done, goes_back) = (done, goes_back)
go_on mem (done, goes_elsewhere) = (done, goes_elsewhere)

-- The first two instructions, or the first only where it leaves.
abbrev pub run_two : (mem : ℕ → ℕ) (pc : ℕ) → List ℕ × Next
run_two mem pc = go_on mem (run_one mem pc)

run_one-plain :
    (mem : ℕ → ℕ) (pc word : ℕ)
    → mem pc ≡ word
    → is_jump word ≡ false
    → run_one mem pc ≡ (word ∷ [], goes_to (pc + 4))
run_one-plain mem pc word e plain = rw (e, plain) refl

-- A return with a plain delay slot.
run_one-returns :
    (mem : ℕ → ℕ) (pc slot : ℕ)
    → mem pc ≡ jr_ra
    → mem (pc + 4) ≡ slot
    → is_jump slot ≡ false
    → run_one mem pc ≡ (slot ∷ [], goes_back)
run_one-returns mem pc slot e e' plain = rw (e, e', plain) refl

-- The word that CreateHook writes for a jump is j.
written_jump :
    (x : ℕ) → x < 2 ^ 25 → ((0x08000000 + x) / 2 ^ 26 ≡ 2) × ((0x08000000 + x) % 2 ^ 26 ≡ x)
written_jump x h = (omega arith, omega arith)

-- A jump that CreateHook writes, with a plain delay slot.
run_one-jumps :
    (mem : ℕ → ℕ) (pc target slot : ℕ)
    → target % 4 ≡ 0
    → target < 2 ^ 27
    → mem pc ≡ 0x08000000 + target / 4
    → mem (pc + 4) ≡ slot
    → is_jump slot ≡ false
    → run_one mem pc ≡ (slot ∷ [], goes_to target)
run_one-jumps mem pc target slot whole small e e' plain =
    let (op, low) = written_jump (target / 4) (omega arith) in
    let back : target / 4 * 4 ≡ target = omega arith in
    let other : (0x08000000 + target / 4 == jr_ra) ≡ false = ground arith in
    rw (e, e', plain, op, low, back, other) refl

-- Two plain words from `p` on run like one word at `q` and a jump behind the two with the other in
-- its delay slot.
run_two-jumps :
    (m mem : ℕ → ℕ) (q p : ℕ)
    → run_one m q ≡ (mem p ∷ [], goes_to (q + 4))
    → run_one m (q + 4) ≡ (mem (p + 4) ∷ [], goes_to (p + 8))
    → is_jump (mem p) ≡ false
    → is_jump (mem (p + 4)) ≡ false
    → run_two m q ≡ run_two mem p
run_two-jumps m mem q p e e' first second =
    let behind : p + 4 + 4 ≡ p + 8 = omega arith in
    rw (e, e', run_one-plain mem p _ refl first, run_one-plain mem (p + 4) _ refl second, behind)
      refl

run_two-returns :
    (m mem : ℕ → ℕ) (q p : ℕ)
    → run_one m q ≡ (mem (p + 4) ∷ [], goes_back)
    → mem p ≡ jr_ra
    → is_jump (mem (p + 4)) ≡ false
    → run_two m q ≡ run_two mem p
run_two-returns m mem q p e e' second =
    rw (e, run_one-returns mem p (mem (p + 4)) e' refl second) refl

-- After CreateHook a call of the function goes to the hook, with nothing done on the way but a delay
-- slot of 0, which does nothing; and a call of the trampoline does what the two first words of the
-- function did before, and goes on where they went on: behind them, or, if the first is a return,
-- at the caller. As the comment on CreateHook asks, neither word is a jump or branch, except that
-- the first may be jr ra. The addresses are multiples of four below 2^27, and the trampoline's 16
-- bytes lie outside the two words of the function.
pub create_hook-runs :
    (function hook t : ℕ) (mem : ℕ → ℕ)
    → function % 4 ≡ 0
    → hook % 4 ≡ 0
    → function + 8 < 2 ^ 27
    → hook < 2 ^ 27
    → ((t + 16 ≤ function) ⊎ (function + 8 ≤ t))
    → ((mem function ≡ jr_ra) ⊎ (is_jump (mem function) ≡ false))
    → is_jump (mem (function + 4)) ≡ false
    → let m = create_hook function hook t mem in
      (run_one m function ≡ (0 ∷ [], goes_to hook)) × (run_two m t ≡ run_two mem function)
unfolding create_hook
create_hook-runs function hook t mem fa ha fb hb beside first second =
    let m = create_hook function hook t mem in
    (
      run_one-jumps m function hook 0 ha hb (ground arith) (ground arith) refl,
      elim (Bool-cases (mem function == jr_ra)) [
        | inl a ↦
            run_two-returns m mem t function
              (run_one-returns m t (mem (function + 4)) (ground (arith, a)) (ground (arith, a))
                second)
              (ground (arith, a)) second
        | inr a ↦
            run_two-jumps m mem t function
              (run_one-plain m t (mem function) (ground (arith, a)) (ground (arith, a, first)))
              (run_one-jumps m (t + 4) (function + 8) (mem (function + 4)) (omega arith) fb
                (ground (arith, a)) (ground (arith, a)) second)
              (ground (arith, a, first)) second
      ],
    )
