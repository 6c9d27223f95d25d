-- ===== src/Mips/Kept.antt =====
-- What the cases of the `switch` of `OneInstruction` leave alone: the number of the registers, and
-- the ones above `LO`, the program counters among them.
use non_os.Base.{
  ℕ, ◌-◌, ◌/◌, ◌%◌, ◌<◌, ◌≤◌, ◌≡◌, refl, ap, ◌∙◌, Bool, not, ◌&&◌, ◌==◌, length, get_or, length-set,
  get_or-set_ne, Outcome, done, aborted, assert, Ends, Ends-any, arith, Bool-cases, inl, inr,
}
use Prim.Native.Nat.{bit_and, bit_xor}
use non_os.Machine.{Machine, ExceptionType, Access, success, raised}
use non_os.Machine.Unchanged.{SameRegisters, read_mem-SameRegisters, write_mem-SameRegisters}
use non_os.Mips.Words.{word, sign_bit, add32, sub32, div32, mod32, has_sign}
use non_os.Mips.Registers.{reg, set_reg, hi_reg, lo_reg}
use non_os.Mips.Decode.{Instruction}
use non_os.Mips.Steps.{Step, completed, trapped, assign, then_continue}
use non_os.Mips.Loads.{load_byte, load_half, load_word, load_part}
use non_os.Mips.Stores.{store, store_part}
use non_os.Mips.Exec.{
  exec_add, exec_sub, exec_branch, exec_div, exec_divu, exec_jump, exec_jump_register, exec_mult,
  exec_set, link,
}

-- The special registers of `m` are those of `m'`.
pub record SameAbove (m m' : Machine) : Type 0 where
  pub size : length m'.registers ≡ length m.registers
  pub above : (j : ℕ) → 34 ≤ j → reg m' j ≡ reg m j

-- A case that completes keeps them and names a general register for the delayed load; one that traps
-- keeps every register.
pub data Kept (m : Machine) : Step → Type 0 where
  kept_completed :
      {m' : Machine} {pc r v : ℕ} → SameAbove m m' → r < 32 → Kept m (completed m' pc r v)
  kept_trapped :
      {m' : Machine} {e : ExceptionType} {addr : ℕ}
      → m'.registers ≡ m.registers
      → Kept m (trapped e addr m')

pub SameAbove-self : (m : Machine) → SameAbove m m
SameAbove-self m = record { size = refl; above = λ j h. refl }

SameAbove-set : (m m' : Machine) (i v : ℕ) → SameAbove m m' → i < 34 → SameAbove m (set_reg m' i v)
SameAbove-set m m' i v s h = record {
  size = length-set m'.registers i v ∙ s.size;
  above = λ j p. get_or-set_ne m'.registers i j v 0 (omega arith) ∙ s.above j p;
}

SameAbove-registers : (m m' : Machine) → m'.registers ≡ m.registers → SameAbove m m'
SameAbove-registers m m' h = record { size = ap length h; above = λ j p. ap (λ r. get_or r j 0) h }

pub assign-Kept : (m : Machine) (pc i v : ℕ) → i < 34 → Ends (Kept m) (assign m pc i v)
assign-Kept m pc i v h = kept_completed (SameAbove-set m m i v (SameAbove-self m) h) (omega arith)

pub then_continue-Kept {ℓ} :
    {A : Type ℓ} (m m' : Machine) (r : Outcome (Access A × Machine))
    (k : A → Machine → Outcome Step)
    → m'.registers ≡ m.registers
    → Ends (SameRegisters m') r
    → ((a : A) (m'' : Machine) → m''.registers ≡ m.registers → Ends (Kept m) (k a m''))
    → Ends (Kept m) (then_continue r k)
then_continue-Kept m m' (done (raised e addr, m'')) k s h f = kept_trapped (h ∙ s)
then_continue-Kept m m' (done (success a, m'')) k s h f = f a m'' (h ∙ s)
then_continue-Kept m m' aborted k s h f = tt

-- A case that completes without a store to a register.
completed-Kept :
    (m m' : Machine) (pc r v : ℕ)
    → m'.registers ≡ m.registers
    → r < 32
    → Ends (Kept m) (done (completed m' pc r v))
completed-Kept m m' pc r v s h = kept_completed (SameAbove-registers m m' s) h

pub exec_add-Kept :
    (m : Machine) (pc target a b of : ℕ) → target < 34 → Ends (Kept m) (exec_add m pc target a b of)
unfolding exec_add
exec_add-Kept m pc target a b of h =
    elim (Bool-cases (not (has_sign (bit_xor a b)) && has_sign (bit_xor of (add32 a b)))) [
      | inl e ↦ rw e (kept_trapped refl)
      | inr e ↦ rw e (assign-Kept m pc target (add32 a b) h)
    ]

pub exec_sub-Kept :
    (m : Machine) (pc target a b : ℕ) → target < 34 → Ends (Kept m) (exec_sub m pc target a b)
unfolding exec_sub
exec_sub-Kept m pc target a b h =
    elim (Bool-cases (has_sign (bit_xor a b) && has_sign (bit_xor a (sub32 a b)))) [
      | inl e ↦ rw e (kept_trapped refl)
      | inr e ↦ rw e (assign-Kept m pc target (sub32 a b) h)
    ]

pub exec_branch-Kept :
    (i : Instruction) (m m' : Machine) (pc : ℕ) (taken : Bool)
    → SameAbove m m'
    → Ends (Kept m) (exec_branch i m' pc taken)
unfolding exec_branch
exec_branch-Kept i m m' pc taken s = kept_completed s (omega arith)

pub link-SameAbove : (m : Machine) (target : ℕ) → target < 34 → SameAbove m (link m target)
link-SameAbove m target h = SameAbove-set m m target _ (SameAbove-self m) h

-- A store to both halves of the double register.
double-Kept :
    (m : Machine) (pc i j v w : ℕ)
    → i < 34
    → j < 34
    → Kept m (completed (set_reg (set_reg m i v) j w) pc 0 0)
double-Kept m pc i j v w h k =
    kept_completed (SameAbove-set m _ j w (SameAbove-set m m i v (SameAbove-self m) h) k)
      (omega arith)

pub exec_div-Kept : (m : Machine) (pc a b : ℕ) → Ends (Kept m) (exec_div m pc a b)
unfolding exec_div
exec_div-Kept m pc a b = elim (Bool-cases (b == 0)) [
  | inl e ↦ rw e (double-Kept m pc lo_reg hi_reg 0 0 (omega arith) (omega arith))
  | inr e ↦ elim (Bool-cases (a == sign_bit && b == word - 1)) [
    | inl o ↦ rw (e, o) tt
    | inr o ↦
        rw (e, o)
          (double-Kept m pc lo_reg hi_reg (div32 a b) (mod32 a b) (omega arith) (omega arith))
  ]
]

pub exec_divu-Kept : (m : Machine) (pc a b : ℕ) → Ends (Kept m) (exec_divu m pc a b)
unfolding exec_divu
exec_divu-Kept m pc a b = elim (Bool-cases (b == 0)) [
  | inl e ↦ rw e (double-Kept m pc lo_reg hi_reg 0 0 (omega arith) (omega arith))
  | inr e ↦ rw e (double-Kept m pc lo_reg hi_reg (a / b) (a % b) (omega arith) (omega arith))
]

pub exec_mult-Kept :
    (i : Instruction) (m : Machine) (pc : ℕ) (signed_arith : Bool)
    → Ends (Kept m) (exec_mult i m pc signed_arith)
unfolding exec_mult
exec_mult-Kept i m pc signed_arith = double-Kept m pc hi_reg lo_reg _ _ (omega arith) (omega arith)

pub exec_jump-Kept :
    (i : Instruction) (m m' : Machine) (pc : ℕ) → SameAbove m m' → Ends (Kept m) (exec_jump i m' pc)
unfolding exec_jump
exec_jump-Kept i m m' pc s = kept_completed s (omega arith)

pub exec_jump_register-Kept :
    (i : Instruction) (m m' : Machine) → SameAbove m m' → Ends (Kept m) (exec_jump_register i m')
unfolding exec_jump_register
exec_jump_register-Kept i m m' s = kept_completed s (omega arith)

pub exec_set-Kept :
    (m : Machine) (pc target : ℕ) (test : Bool)
    → target < 34
    → Ends (Kept m) (exec_set m pc target test)
unfolding exec_set
exec_set-Kept m pc target test h = assign-Kept m pc target _ h

module _ (i : Instruction) (m : Machine) (pc : ℕ) (h : i.rt < 32) where
  pub load_byte-Kept : (is_signed : Bool) → Ends (Kept m) (load_byte i m pc is_signed)
  unfolding load_byte
  load_byte-Kept is_signed =
      then_continue-Kept m m _ _ refl (read_mem-SameRegisters m _ 1)
        (λ v m' s. completed-Kept m m' pc i.rt _ s h)

  pub load_half-Kept : (is_signed : Bool) → Ends (Kept m) (load_half i m pc is_signed)
  unfolding load_half
  load_half-Kept is_signed = elim (Bool-cases (bit_and (add32 (reg m i.rs) i.extra) 1 == 0)) [
    | inl e ↦ rw e (
        then_continue-Kept m m _ _ refl (read_mem-SameRegisters m _ 2)
          (λ v m' s. completed-Kept m m' pc i.rt _ s h))
    | inr e ↦ rw e (kept_trapped refl)
  ]

  pub load_word-Kept : Ends (Kept m) (load_word i m pc)
  unfolding load_word
  load_word-Kept = elim (Bool-cases (bit_and (add32 (reg m i.rs) i.extra) 3 == 0)) [
    | inl e ↦ rw e (
        then_continue-Kept m m _ _ refl (read_mem-SameRegisters m _ 4)
          (λ v m' s. completed-Kept m m' pc i.rt _ s h))
    | inr e ↦ rw e (kept_trapped refl)
  ]

  pub load_part-Kept : (merge : ℕ → ℕ → ℕ → ℕ) → Ends (Kept m) (load_part i m pc merge)
  unfolding load_part
  load_part-Kept merge = Ends-any (assert (bit_and (add32 (reg m i.rs) i.extra) 3 == 0)) _ _ (λ u.
      then_continue-Kept m m _ _ refl (read_mem-SameRegisters m _ 4)
        (λ v m' s. completed-Kept m m' pc i.rt _ s h))

pub store-Kept : (i : Instruction) (m : Machine) (pc size : ℕ) → Ends (Kept m) (store i m pc size)
unfolding store
store-Kept i m pc size =
    then_continue-Kept m m _ _ refl (write_mem-SameRegisters m _ size _)
      (λ v m' s. completed-Kept m m' pc 0 0 s (omega arith))

pub store_part-Kept :
    (i : Instruction) (m : Machine) (pc : ℕ) (split : ℕ → ℕ → ℕ → ℕ)
    → Ends (Kept m) (store_part i m pc split)
unfolding store_part
store_part-Kept i m pc split =
    Ends-any (assert (bit_and (add32 (reg m i.rs) i.extra) 3 == 0)) _ _ (λ u.
      then_continue-Kept m m _ _ refl (read_mem-SameRegisters m _ 4) (λ v m' s.
        then_continue-Kept m m' _ _ s (write_mem-SameRegisters m' _ 4 _)
          (λ _ m'' s'. completed-Kept m m'' pc 0 0 s' (omega arith))))
