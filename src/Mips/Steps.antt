-- ===== src/Mips/Steps.antt =====
-- How a case of the `switch` of `Machine::OneInstruction` ends.
use non_os.Base.{ℕ, Outcome, done, ◌>>=◌}
use non_os.Machine.{Machine, ExceptionType, Access, success, raised}
use non_os.Mips.Registers.{set_reg}

-- By `break`, with the machine, `pcAfter`, `nextLoadReg` and `nextLoadValue`; or by `return` after
-- `RaiseException`, which is called here or in `ReadMem` or `WriteMem`.
pub data Step : Type 0 where
  completed : Machine → ℕ → ℕ → ℕ → Step
  trapped : ExceptionType → ℕ → Machine → Step

-- `registers[i] = v; break;`
abbrev pub assign : Machine → ℕ → ℕ → ℕ → Outcome Step
assign m pc i v = done (completed (set_reg m i v) pc 0 0)

-- `if (!machine->ReadMem(…)) return;` and the like, with what follows.
abbrev pub then_continue {ℓ} :
    {A : Type ℓ} → Outcome (Access A × Machine) → (A → Machine → Outcome Step) → Outcome Step
then_continue r k =
    r >>= λ p. elim p.0 [ raised e addr ↦ done (trapped e addr p.1) | success a ↦ k a p.1 ]
