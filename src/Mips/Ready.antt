-- ===== src/Mips/Ready.antt =====
-- A step of the processor: the program counters, the delayed load, register 0 and what an exception
-- leaves.
use non_os.Base.{
  ℕ, ◌/◌, ◌^◌, ◌<◌, ◌≤◌, ◌≡◌, ◌≢◌, ap, ◌∙◌, length, get_or, length-set, get_or-set_ne,
  get_or-set_self, done, ◌>>=◌, Ends, Ends->>=, arith,
}
use non_os.Base.Bits.{bit_and-low}
use non_os.Machine.{Machine, ExceptionType, Access, success, raised, read_mem}
use non_os.Machine.Unchanged.{SameRegisters, read_mem-SameRegisters}
use non_os.Mips.{Ran, executed, exception, finish, one_instruction}
use non_os.Mips.Words.{add32}
use non_os.Mips.Registers.{
  reg, set_reg, delayed_load, load_reg, load_value_reg, pc_reg, next_pc_reg, prev_pc_reg,
  num_total_regs,
}
use non_os.Mips.Decode.{decode}
use non_os.Mips.Exec.{execute}
use non_os.Mips.Steps.{Step, completed, trapped}
use non_os.Mips.Kept.{Kept, kept_completed, kept_trapped}
use non_os.Mips.Cases.{HasGeneral, execute-Kept}

-- All registers are there, register 0 is 0, and the delayed load goes to a general register.
pub record IsReady (m : Machine) : Type 0 where
  pub size : length m.registers ≡ num_total_regs
  pub zero_register : reg m 0 ≡ 0
  pub pending : reg m load_reg < 32

-- A step that ran an instruction moves the program counters; one that raised an exception changed no
-- register.
pub data Advances (m : Machine) : Ran × Machine → Type 0 where
  advanced :
      {m' : Machine}
      → reg m' pc_reg ≡ reg m next_pc_reg
      → reg m' prev_pc_reg ≡ reg m pc_reg
      → IsReady m'
      → Advances m (executed, m')
  stopped :
      {m' : Machine} {e : ExceptionType} {addr : ℕ}
      → m'.registers ≡ m.registers
      → Advances m (exception e addr, m')

decode-HasGeneral : (value : ℕ) → HasGeneral (decode value)
unfolding decode
decode-HasGeneral value = record {
  rt = omega (arith, bit_and-low 5 (value / 2 ^ 16));
  rd = omega (arith, bit_and-low 5 (value / 2 ^ 11));
}

reg-set_ne : (m : Machine) (i j v : ℕ) → i ≢ j → reg (set_reg m i v) j ≡ reg m j
reg-set_ne m i j v h = get_or-set_ne m.registers i j v 0 h

reg-set_self : (m : Machine) (i v : ℕ) → i < length m.registers → reg (set_reg m i v) i ≡ v
reg-set_self m i v h = get_or-set_self m.registers i v 0 h

-- `DelayedLoad` leaves the program counters alone.
delayed_load-above :
    (m : Machine) (r v j : ℕ)
    → reg m load_reg < 32
    → 34 ≤ j
    → j < load_reg
    → reg (delayed_load m r v) j ≡ reg m j
unfolding delayed_load
delayed_load-above m r v j p h k =
    get_or-set_ne _ 0 j 0 0 (omega arith)
    ∙ get_or-set_ne _ load_value_reg j v 0 (omega arith)
    ∙ get_or-set_ne _ load_reg j r 0 (omega arith)
    ∙ get_or-set_ne m.registers (reg m load_reg) j _ 0 (omega arith)

length-delayed_load :
    (m : Machine) (r v : ℕ) → length (delayed_load m r v).registers ≡ length m.registers
unfolding delayed_load
length-delayed_load m r v =
    length-set _ 0 0
    ∙ length-set _ load_value_reg v
    ∙ length-set _ load_reg r
    ∙ length-set m.registers (reg m load_reg) _

delayed_load-IsReady :
    (m : Machine) (r v : ℕ)
    → length m.registers ≡ num_total_regs
    → r < 32
    → IsReady (delayed_load m r v)
unfolding delayed_load
delayed_load-IsReady m r v s h = record {
  size = length-delayed_load m r v ∙ s;
  zero_register = reg-set_self m₃ 0 0 (omega (arith, length₃));
  pending = omega (arith, loaded);
}
  where
    m₁ : Machine
    m₁ = set_reg m (reg m load_reg) (reg m load_value_reg)

    m₂ : Machine
    m₂ = set_reg m₁ load_reg r

    m₃ : Machine
    m₃ = set_reg m₂ load_value_reg v

    length₁ : length m₁.registers ≡ num_total_regs
    length₁ = length-set m.registers (reg m load_reg) _ ∙ s

    length₃ : length m₃.registers ≡ num_total_regs
    length₃ =
        length-set m₂.registers load_value_reg v ∙ length-set m₁.registers load_reg r ∙ length₁

    loaded : reg (set_reg m₃ 0 0) load_reg ≡ r
    loaded =
        reg-set_ne m₃ 0 load_reg 0 (omega arith)
        ∙ reg-set_ne m₂ load_value_reg load_reg v (omega arith)
        ∙ reg-set_self m₁ load_reg r (omega (arith, length₁))

-- A write to a program counter.
set_reg-IsReady :
    (m : Machine) (i v : ℕ) → IsReady m → 34 ≤ i → i < load_reg → IsReady (set_reg m i v)
set_reg-IsReady m i v r h k = record {
  size = length-set m.registers i v ∙ r.size;
  zero_register = reg-set_ne m i 0 v (omega arith) ∙ r.zero_register;
  pending = omega (arith, reg-set_ne m i load_reg v (omega arith), r.pending);
}

-- The end of `OneInstruction`, after the delayed load.
advance-Advances :
    (m m₁ : Machine) (pc : ℕ)
    → IsReady m₁
    → reg m₁ pc_reg ≡ reg m pc_reg
    → reg m₁ next_pc_reg ≡ reg m next_pc_reg
    → let m₂ = set_reg m₁ prev_pc_reg (reg m₁ pc_reg) in
      let m₃ = set_reg m₂ pc_reg (reg m₂ next_pc_reg) in
      Advances m (executed, set_reg m₃ next_pc_reg pc)
advance-Advances m m₁ pc r p n =
    advanced
      (reg-set_ne m₃ next_pc_reg pc_reg pc (omega arith)
        ∙ reg-set_self m₂ pc_reg _ (omega (arith, r₂.size))
        ∙ reg-set_ne m₁ prev_pc_reg next_pc_reg _ (omega arith)
        ∙ n)
      (reg-set_ne m₃ next_pc_reg prev_pc_reg pc (omega arith)
        ∙ reg-set_ne m₂ pc_reg prev_pc_reg _ (omega arith)
        ∙ reg-set_self m₁ prev_pc_reg _ (omega (arith, r.size))
        ∙ p)
      (set_reg-IsReady m₃ next_pc_reg pc r₃ (omega arith) (omega arith))
  where
    m₂ : Machine
    m₂ = set_reg m₁ prev_pc_reg (reg m₁ pc_reg)

    m₃ : Machine
    m₃ = set_reg m₂ pc_reg (reg m₂ next_pc_reg)

    r₂ : IsReady m₂
    r₂ = set_reg-IsReady m₁ prev_pc_reg _ r (omega arith) (omega arith)

    r₃ : IsReady m₃
    r₃ = set_reg-IsReady m₂ pc_reg _ r₂ (omega arith) (omega arith)

finish-Advances : (m : Machine) (s : Step) → IsReady m → Kept m s → Advances m (finish s)
unfolding finish
finish-Advances m (trapped e addr m') r (kept_trapped h) = stopped h
finish-Advances m (completed m' pc lr v) r (kept_completed a h) =
    advance-Advances m (delayed_load m' lr v) pc (delayed_load-IsReady m' lr v (a.size ∙ r.size) h)
      (delayed_load-above m' lr v pc_reg pending (omega arith) (omega arith)
        ∙ a.above pc_reg (omega arith))
      (delayed_load-above m' lr v next_pc_reg pending (omega arith) (omega arith)
        ∙ a.above next_pc_reg (omega arith))
  where
    pending : reg m' load_reg < 32
    pending = omega (arith, a.above load_reg (omega arith), r.pending)

IsReady-registers : (m m' : Machine) → m'.registers ≡ m.registers → IsReady m → IsReady m'
IsReady-registers m m' h r = record {
  size = ap length h ∙ r.size;
  zero_register = ap (λ xs. get_or xs 0 0) h ∙ r.zero_register;
  pending = omega (arith, ap (λ xs. get_or xs load_reg 0) h, r.pending);
}

-- The registers at the start of a step are all that matters.
Advances-registers :
    (m m' : Machine) (r : Ran × Machine) → m'.registers ≡ m.registers → Advances m' r → Advances m r
Advances-registers m m' r h (advanced {m' = n} p q k) =
    advanced (p ∙ ap (λ xs. get_or xs next_pc_reg 0) h) (q ∙ ap (λ xs. get_or xs pc_reg 0) h) k
Advances-registers m m' r h (stopped {m' = n} e) = stopped (e ∙ h)

run_fetched-Advances :
    (m : Machine) (f : Access ℕ × Machine)
    → IsReady m
    → SameRegisters m f
    → Ends (Advances m) (elim f.0 [
      | raised e addr ↦ done (exception e addr, f.1)
      | success raw ↦
          execute (decode raw) f.1 (add32 (reg f.1 next_pc_reg) 4) >>= λ step. done (finish step)
    ])
run_fetched-Advances m (raised e addr, m') r h = stopped h
run_fetched-Advances m (success raw, m') r h =
    Ends->>= (execute (decode raw) m' _) _ _
      (execute-Kept (decode raw) m' _ (decode-HasGeneral raw))
      (λ step k.
        Advances-registers m m' (finish step) h
          (finish-Advances m' step (IsReady-registers m m' h r) k))

-- A step of a processor with all its registers, 0 in register 0 and a general register for the
-- delayed load, when it does not abort: either it ran an instruction, PCReg is the old NextPCReg,
-- PrevPCReg the old PCReg, and the registers are in such a state again; or it raised an exception and
-- every register is as before the step.
pub one_instruction-Advances : (m : Machine) → IsReady m → Ends (Advances m) (one_instruction m)
unfolding one_instruction
one_instruction-Advances m r =
    Ends->>= (read_mem m (reg m pc_reg) 4) _ _ (read_mem-SameRegisters m (reg m pc_reg) 4)
      (λ f h. run_fetched-Advances m f r h)
