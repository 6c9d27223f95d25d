-- ===== src/Interrupt.antt =====
-- code/machine/interrupt.h and code/machine/interrupt.cc: the simulated clock and the queue of hardware
-- interrupts that are to come. The queue is the linked list of code/threads/list.cc, sorted by time.
-- An interrupt handler is code of a device, called through a pointer: `call` stands for it.
pub mod Queue
pub mod Due
mod Tests
use non_os.Base.{
  ℕ, zero, suc, ◌+◌, ◌-◌, Bool, true, false, not, ◌&&◌, Option, none, some, [], ltb, if◌then◌else◌,
  Outcome, done, aborted, assert, ◌>>=◌, ◌>>◌,
}
use non_os.LinkedList.{LinkedList, Store, is_empty, sorted_remove, sorted_insert}
use non_os.Machine.{Machine}
use non_os.Mips.Registers.{delayed_load}

pub data MachineStatus : Type 0 where
  idle_mode system_mode user_mode : MachineStatus

pub data IntType : Type 0 where
  timer_int disk_int console_write_int console_read_int network_send_int network_recv_int : IntType

-- `handler` is the address of the procedure.
pub record PendingInterrupt : Type 0 where
  pub handler : ℕ
  pub arg : ℕ
  pub when : ℕ
  pub kind : IntType

-- The fields of `Interrupt`, with the statistics that it counts, the store of the queue's elements and
-- the machine, which a kernel without user programs does not have. `level` is true for IntOn.
pub record Interrupt : Type 0 where
  pub level : Bool
  pub pending : LinkedList
  pub store : Store PendingInterrupt
  pub in_handler : Bool
  pub yield_on_return : Bool
  pub status : MachineStatus
  pub total_ticks : ℕ
  pub idle_ticks : ℕ
  pub machine : Option Machine

abbrev pub is_idle : MachineStatus → Bool
is_idle idle_mode = true
is_idle _ = false

abbrev pub is_user : MachineStatus → Bool
is_user user_mode = true
is_user _ = false

abbrev pub is_timer : IntType → Bool
is_timer timer_int = true
is_timer _ = false

-- The constructor.
pub init : Option Machine → Interrupt
init machine = record {
  level = false;
  pending = record { first = none; last = none };
  store = [];
  in_handler = false;
  yield_on_return = false;
  status = system_mode;
  total_ticks = 0;
  idle_ticks = 0;
  machine = machine;
}

pub yield_on_return : Interrupt → Outcome Interrupt
yield_on_return s = assert s.in_handler >> done (record s { yield_on_return = true })

-- The queue with an interrupt in it at a time.
abbrev pub enqueue : Interrupt → PendingInterrupt → ℕ → Outcome Interrupt
enqueue s to_occur when = sorted_insert s.pending s.store to_occur when >>= λ r.
    done (record s { pending = r.0; store = r.1 })

pub schedule : Interrupt → ℕ → ℕ → ℕ → IntType → Outcome Interrupt
schedule s handler arg from_now kind =
    let when = s.total_ticks + from_now in
    assert (ltb 0 from_now)
    >> enqueue s (record { handler = handler; arg = arg; when = when; kind = kind }) when

-- `machine->DelayedLoad(0, 0)`, if a user program was running.
abbrev pub apply_load : Interrupt → Interrupt
apply_load s = elim s.machine [
  | none ↦ s
  | some m ↦ if is_user s.status then record s { machine = some (delayed_load m 0 0) } else s
]

module _ (call : PendingInterrupt → Interrupt → Outcome Interrupt) where
  -- The end of `CheckIfDue`: the handler's call.
  pub fire : Interrupt → PendingInterrupt → Outcome (Bool × Interrupt)
  fire s to_occur =
      call to_occur (record (apply_load s) { in_handler = true; status = system_mode }) >>= λ s'.
      done (true, record s' { status = s.status; in_handler = false })

  abbrev pub put_back : Interrupt → ℕ → PendingInterrupt → Outcome (Bool × Interrupt)
  put_back s when to_occur = enqueue s to_occur when >>= λ s'. done (false, s')

  -- From `if ((status == IdleMode) …` on.
  pub fire_unless_idle : Interrupt → ℕ → PendingInterrupt → Outcome (Bool × Interrupt)
  fire_unless_idle s when to_occur =
      if is_idle s.status && (is_timer to_occur.kind && is_empty s.pending)
      then put_back s when to_occur
      else fire s to_occur

  -- `CheckIfDue` once an interrupt is taken off the queue.
  pub check_time : Interrupt → Bool → ℕ → PendingInterrupt → Outcome (Bool × Interrupt)
  check_time s advance_clock when to_occur =
      if advance_clock && ltb s.total_ticks when
      then fire_unless_idle
          (record s { idle_ticks = s.idle_ticks + (when - s.total_ticks); total_ticks = when }) when
          to_occur
      else if ltb s.total_ticks when
      then put_back s when to_occur
      else fire_unless_idle s when to_occur

  pub check_if_due : Interrupt → Bool → Outcome (Bool × Interrupt)
  check_if_due s advance_clock =
      assert (not s.level)
      >> (sorted_remove s.pending s.store >>= λ r. elim r.0 [
        | none ↦ done (false, s)
        | some e ↦ check_time (record s { pending = r.1; store = r.2 }) advance_clock e.0 e.1
      ])
