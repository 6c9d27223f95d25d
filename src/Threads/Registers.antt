-- ===== src/Threads/Registers.antt =====
-- `Thread::SaveUserState` and `Thread::RestoreUserState`.
use non_os.Base.{
  ℕ, zero, suc, ◌+◌, ◌<◌, ◌≤◌, ◌≡◌, refl, ap, sym, ◌∙◌, some, List, length, length-set, get_or, set,
  get_or-set_self, get_or-set_ne, same_elements, done, arith,
}
use native.Mathlib.Decide.{ℕ_discrete}
use non_os.Mips.Registers.{num_total_regs}
use non_os.Threads.{Kernel, Thread, copy_registers, save_user_state, restore_user_state, put}
use non_os.Threads.State.{thread_at, fetch_lem, thread_at-replaced_self}

length-copy_registers :
    (left i : ℕ) (from to : List ℕ) → length (copy_registers left i from to) ≡ length to
unfolding copy_registers
length-copy_registers zero i from to = refl
length-copy_registers (suc left) i from to =
    length-copy_registers left (i + 1) from (set to i (get_or from i 0))
    ∙ length-set to i (get_or from i 0)

get_or-copy_registers_below :
    (left i : ℕ) (from to : List ℕ) (j : ℕ)
    → j < i
    → get_or (copy_registers left i from to) j 0 ≡ get_or to j 0
unfolding copy_registers
get_or-copy_registers_below zero i from to j h = refl
get_or-copy_registers_below (suc left) i from to j h =
    get_or-copy_registers_below left (i + 1) from (set to i (get_or from i 0)) j (omega arith)
    ∙ get_or-set_ne to i j (get_or from i 0) 0 (omega arith)

get_or-copy_registers :
    (left i : ℕ) (from to : List ℕ) (j : ℕ)
    → i ≤ j
    → j < i + left
    → i + left ≤ length to
    → get_or (copy_registers left i from to) j 0 ≡ get_or from j 0
unfolding copy_registers
get_or-copy_registers zero i from to j p q l = absurd (omega arith)
get_or-copy_registers (suc left) i from to j p q l = elim (ℕ_discrete j i) [
  | yes e ↦
      ap (λ (x : ℕ). get_or (copy_registers (suc left) i from to) x 0) e
      ∙ get_or-copy_registers_below left (i + 1) from (set to i (get_or from i 0)) i (omega arith)
      ∙ get_or-set_self to i (get_or from i 0) 0 (omega arith)
      ∙ ap (λ (x : ℕ). get_or from x 0) (sym e)
  | no n ↦
      get_or-copy_registers left (i + 1) from (set to i (get_or from i 0)) j (omega arith)
        (omega arith) (omega (arith, length-set to i (get_or from i 0)))
]

copy_registers-all :
    (from to : List ℕ)
    → length from ≡ num_total_regs
    → length to ≡ num_total_regs
    → copy_registers num_total_regs 0 from to ≡ from
copy_registers-all from to l l' =
    same_elements _ _ (length-copy_registers num_total_regs 0 from to ∙ l' ∙ sym l) (λ j p.
      get_or-copy_registers num_total_regs 0 from to j (omega arith)
        (omega (arith, length-copy_registers num_total_regs 0 from to, l')) (omega (arith, l')))

-- The registers of a thread that are saved are in the machine again once they are restored, whatever
-- the machine's registers and the scheduler's lists are by then, as long as the thread's own copy is as
-- it was saved.
pub restore-save_user_state :
    (k : Kernel) (t : ℕ) (th : Thread)
    → thread_at k.threads t ≡ some th
    → length k.registers ≡ num_total_regs
    → length th.user_registers ≡ num_total_regs
    → (k₁ : Kernel) × (save_user_state k t ≡ done k₁)
      × ((k₂ : Kernel)
          → thread_at k₂.threads t ≡ thread_at k₁.threads t
          → length k₂.registers ≡ num_total_regs
          → (k₃ : Kernel) × (restore_user_state k₂ t ≡ done k₃) × (k₃.registers ≡ k.registers))
unfolding save_user_state restore_user_state
restore-save_user_state k t th e l l' =
    let kept : Thread = record th {
      user_registers = copy_registers num_total_regs 0 k.registers th.user_registers;
    } in
    (
      put k t kept,
      rw (fetch_lem k t th e) refl,
      λ k₂ same l₂. (
        record k₂ { registers = copy_registers num_total_regs 0 kept.user_registers k₂.registers },
        rw (fetch_lem k₂ t kept (same ∙ thread_at-replaced_self k.threads t th kept e)) refl,
        copy_registers-all kept.user_registers k₂.registers
              (length-copy_registers num_total_regs 0 k.registers th.user_registers ∙ l') l₂
            ∙ copy_registers-all k.registers th.user_registers l l',
      ),
    )
