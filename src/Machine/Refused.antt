-- ===== src/Machine/Refused.antt =====
-- `Machine::WriteMem` on a page table, of any address: it writes, or it raises an exception.
use non_os.Base.{
  ℕ, ◌/◌, ◌%◌, ◌<◌, ◌≤◌, ◌≡◌, ◌≢◌, refl, ap, subst, sym, ◌∙◌, inl, inr, ◌⊎◌, true, false, ◌&&◌,
  none, some, List, length, get_or, set, Outcome, done, arith,
}
use non_os.FrameProvider.{page_size}
use non_os.Machine.{
  Machine, TranslationEntry, ExceptionType, Translation, failed, no_entry, memory_size, translate,
  write_mem, raised, read_only_exception, bus_error_exception, address_error_exception,
  page_fault_exception,
}
use non_os.Machine.Translate.{
  IsSize, Uses, protected, no_frame, hit, Translates, unaligned, no_table, two_tables, past_table,
  not_valid, by_table, tlb_miss, by_tlb, translate-Translates,
}
use non_os.Machine.Memory.{IsMapped}

-- A machine that runs on a page table.
pub record HasTable (m : Machine) (table : List TranslationEntry) : Type 0 where
  pub no_tlb : m.tlb ≡ none
  pub page_table : m.page_table ≡ some table
  pub table_size : m.page_table_size ≤ length table
  pub memory : length m.main_memory ≡ memory_size

none_ne_some : {A : Type 0} {a : A} → none ≢ some a
none_ne_some e = cc

some_inj : {A : Type 0} {a b : A} → some a ≡ some b → a ≡ b
some_inj e = cc

true_ne_false : true ≢ false
true_ne_false e = cc

-- A write is refused: it raises an exception for its address, and changes nothing.
abbrev pub Refuses : Machine → ℕ → ℕ → ℕ → Type 0
Refuses m addr size v = (e : ExceptionType) × (write_mem m addr size v ≡ done (raised e addr, m))

module _ (m : Machine) (table : List TranslationEntry) (addr size v : ℕ)
    (h : HasTable m table) where
  refused :
      (e : ExceptionType) → translate m addr size true ≡ done (failed e, m) → Refuses m addr size v
  unfolding write_mem
  refused e r = (e, rw r refl)

  with_entry :
      (put : TranslationEntry → Machine) (r : Outcome (Translation × Machine))
      → addr % size ≡ 0
      → addr / page_size < m.page_table_size
      → (get_or table (addr / page_size) no_entry).valid ≡ true
      → translate m addr size true ≡ r
      → Uses m put (get_or table (addr / page_size) no_entry) addr true r
      → IsMapped m table addr size true
        ⊎ (¬ IsMapped m table addr size true × Refuses m addr size v)
  with_entry put r a fits good e (protected ro _ q) = inr (
    (λ i. true_ne_false (ap (λ b. b && true) (sym ro) ∙ i.allowed)),
    refused read_only_exception (e ∙ q),
  )
  with_entry put r a fits good e (no_frame _ big q) =
      inr ((λ i. absurd (omega (arith, i.frame, big))), refused bus_error_exception (e ∙ q))
  with_entry put r a fits good e (hit allowed frame _) = inl (record {
    no_tlb = h.no_tlb;
    page_table = h.page_table;
    table_size = h.table_size;
    memory = h.memory;
    aligned = a;
    in_table = fits;
    valid = good;
    allowed = allowed;
    frame = frame;
  })

  -- What a write needs is what `IsMapped` says.
  pub write_mem-cases :
      IsSize size
      → IsMapped m table addr size true
        ⊎ (¬ IsMapped m table addr size true × Refuses m addr size v)
  write_mem-cases s = go (translate m addr size true) refl (translate-Translates m addr size true s)
    where
      go :
          (r : Outcome (Translation × Machine))
          → translate m addr size true ≡ r
          → Translates m addr size true r
          → IsMapped m table addr size true
            ⊎ (¬ IsMapped m table addr size true × Refuses m addr size v)
      go r e (unaligned n q) = inr ((λ i. n i.aligned), refused address_error_exception (e ∙ q))
      go r e (no_table _ _ p _) = absurd (none_ne_some (sym p ∙ h.page_table))
      go r e (two_tables _ _ _ t _ _) = absurd (none_ne_some (sym h.no_tlb ∙ t))
      go r e (past_table _ _ _ _ big q) =
          inr (
            (λ i. absurd (omega (arith, i.in_table, big))),
            refused address_error_exception (e ∙ q),
          )
      go r e (not_valid other _ _ p _ bad q) = inr (
        (λ i. true_ne_false (
            sym i.valid
            ∙ ap (λ ts. (get_or ts (addr / page_size) no_entry).valid)
                (some_inj (sym h.page_table ∙ p))
            ∙ bad)),
        refused page_fault_exception (e ∙ q),
      )
      go r e (by_table other a _ p fits good u) =
          let same : other ≡ table = some_inj (sym p ∙ h.page_table) in
          with_entry _ r a fits
            (subst
              (λ (ts : List TranslationEntry). (get_or ts (addr / page_size) no_entry).valid ≡ true)
              same good)
            e
            (subst
              (λ (ts : List TranslationEntry).
                Uses m (λ x. record m { page_table = some (set other (addr / page_size) x) })
                  (get_or ts (addr / page_size) no_entry) addr true r)
              same u)
      go r e (tlb_miss _ _ t _ _ _) = absurd (none_ne_some (sym h.no_tlb ∙ t))
      go r e (by_tlb _ _ _ t _ _ _ _ _) = absurd (none_ne_some (sym h.no_tlb ∙ t))
