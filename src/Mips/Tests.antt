-- ===== src/Mips/Tests.antt =====
-- Concrete runs of the processor, and the theorems about it at concrete inputs.
use non_os.Base.{
  ℕ, ◌*◌, ◌%◌, ◌≡◌, refl, true, false, some, none, [], ◌∷◌, replicate, ◌++◌, inr, done, Ends, arith,
}
use non_os.Machine.{Machine, overflow_exception}
use non_os.Machine.Tests.{entry_for}
use non_os.Mips.{one_instruction}
use non_os.Mips.Mult.{mult}
use non_os.Mips.Multiply.{double_word, value}
use non_os.Mips.Product.{extend, mult_unsigned, mult_two_complement}
use non_os.Mips.Overflow.{Adds, exec_add-Adds}
use non_os.Mips.Exec.{execute, execute_op, exec_add}
use non_os.Mips.Steps.{assign, trapped}
use non_os.Mips.Decode.{decode, decode_op, decode_extra, op_table, special_table, op_add}
use non_os.Mips.Ready.{IsReady, Advances, one_instruction-Advances}

-- `add $3,$1,$2` is 0x00221820.
abbrev adding : ℕ → ℕ → Machine
adding a b = record {
  main_memory = 0x20 ∷ 0x18 ∷ 0x22 ∷ 0 ∷ replicate 124 0;
  registers = 0 ∷ a ∷ b ∷ replicate 32 0 ++ (4 ∷ 0 ∷ 0 ∷ 0 ∷ 0 ∷ []);
  tlb = none;
  page_table = some (entry_for 0 0 false ∷ []);
  page_table_size = 1;
}

adding-IsReady : IsReady (adding 5 7)
adding-IsReady = record { size = refl; zero_register = refl; pending = omega arith }

add_word : decode 0x00221820 ≡ record { op_code = op_add; rs = 1; rt = 2; rd = 3; extra = 0 }
unfolding decode decode_op decode_extra op_table special_table
add_word = refl

add_executed : execute (decode 0x00221820) (adding 5 7) 8 ≡ assign (adding 5 7) 8 3 12
unfolding decode decode_op decode_extra op_table special_table execute execute_op exec_add
add_executed = refl

add_trapped :
    execute (decode 0x00221820) (adding 0x7fffffff 1) 8
    ≡ done (trapped overflow_exception 0 (adding 0x7fffffff 1))
unfolding decode decode_op decode_extra op_table special_table execute execute_op exec_add
add_trapped = refl

one_instruction-Advances_example : Ends (Advances (adding 5 7)) (one_instruction (adding 5 7))
one_instruction-Advances_example = one_instruction-Advances (adding 5 7) adding-IsReady

mult_unsigned_example : value (mult 0xffffffff 0xffffffff false) ≡ 0xffffffff * 0xffffffff
mult_unsigned_example = mult_unsigned 0xffffffff 0xffffffff (omega arith) (omega arith)

-- -3 times 5.
mult_two_complement_example :
    value (mult 0xfffffffd 5 true) ≡ extend 0xfffffffd * extend 5 % double_word
mult_two_complement_example = mult_two_complement 0xfffffffd 5 (omega arith) (omega arith)

exec_add-Adds_example :
    Adds (adding 0 0) 8 3 0x7fffffff 1 (exec_add (adding 0 0) 8 3 0x7fffffff 1 1)
exec_add-Adds_example =
    exec_add-Adds (adding 0 0) 8 3 0x7fffffff 1 1 (omega arith) (omega arith) (inr refl)
