-- ===== src/Mips/Registers.antt =====
-- The register file, and `Machine::DelayedLoad`.
use non_os.Base.{ℕ, get_or, set}
use non_os.Machine.{Machine}

-- The special registers of code/machine/machine.h, and R31 of code/machine/mipssim.h.
abbrev pub hi_reg : ℕ
hi_reg = 32

abbrev pub lo_reg : ℕ
lo_reg = 33

abbrev pub pc_reg : ℕ
pc_reg = 34

abbrev pub next_pc_reg : ℕ
next_pc_reg = 35

abbrev pub prev_pc_reg : ℕ
prev_pc_reg = 36

abbrev pub load_reg : ℕ
load_reg = 37

abbrev pub load_value_reg : ℕ
load_value_reg = 38

abbrev pub bad_vaddr_reg : ℕ
bad_vaddr_reg = 39

abbrev pub num_total_regs : ℕ
num_total_regs = 40

abbrev pub r31 : ℕ
r31 = 31

-- `registers[i]`
abbrev pub reg : Machine → ℕ → ℕ
reg m i = get_or m.registers i 0

-- `registers[i] = v`
abbrev pub set_reg : Machine → ℕ → ℕ → Machine
set_reg m i v = record m { registers = set m.registers i v }

unfoldable pub delayed_load : Machine → ℕ → ℕ → Machine
delayed_load m next_reg next_value =
    let m₁ = set_reg m (reg m load_reg) (reg m load_value_reg) in
    let m₂ = set_reg m₁ load_reg next_reg in
    let m₃ = set_reg m₂ load_value_reg next_value in set_reg m₃ 0 0
