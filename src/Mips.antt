-- ===== src/Mips.antt =====
-- code/machine/mipssim.h and code/machine/mipssim.cc: the simulated processor. `Exec` holds the
-- cases of the `switch` of `Machine::OneInstruction`.
pub mod Words
pub mod Decode
pub mod Mult
pub mod Registers
pub mod Steps
pub mod Loads
pub mod Stores
pub mod Exec
pub mod Multiply
pub mod Product
pub mod Overflow
pub mod Kept
pub mod Cases
pub mod Ready
mod Tests
use non_os.Base.{ℕ, ◌+◌, Outcome, done, ◌>>=◌}
use non_os.Machine.{Machine, ExceptionType, Access, success, raised, read_mem}
use Words.{add32}
use Decode.{decode}
use Registers.{reg, set_reg, delayed_load, pc_reg, next_pc_reg, prev_pc_reg}
use Exec.{execute}
use Steps.{Step, completed, trapped}

-- What `OneInstruction` has done when it returns: run an instruction, or called `RaiseException` with
-- an exception and an address and returned. The call itself, which enters the kernel, is the caller's.
pub data Ran : Type 0 where
  executed : Ran
  exception : ExceptionType → ℕ → Ran

-- After the `switch`: the delayed load, and the program counters.
pub finish : Step → Ran × Machine
finish (trapped e addr m) = (exception e addr, m)
finish (completed m pc_after load_reg load_value) =
    let m₁ = delayed_load m load_reg load_value in
    let m₂ = set_reg m₁ prev_pc_reg (reg m₁ pc_reg) in
    let m₃ = set_reg m₂ pc_reg (reg m₂ next_pc_reg) in (executed, set_reg m₃ next_pc_reg pc_after)

pub one_instruction : Machine → Outcome (Ran × Machine)
one_instruction m = read_mem m (reg m pc_reg) 4 >>= λ fetched. elim fetched.0 [
  | raised e addr ↦ done (exception e addr, fetched.1)
  | success raw ↦ execute (decode raw) fetched.1 (add32 (reg fetched.1 next_pc_reg) 4) >>= λ step.
      done (finish step)
]
