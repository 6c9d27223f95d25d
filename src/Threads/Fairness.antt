-- ===== src/Threads/Fairness.antt =====
-- The order in which threads that yield get the processor.
use non_os.Base.{
  ℕ, zero, suc, ◌≡◌, ◌≢◌, refl, ap, sym, ◌∙◌, inl, inr, List, [], ◌∷◌, ◌++◌, append_assoc, length,
  Outcome, done, ◌>>=◌,
}
use non_os.Threads.{Kernel, yield_thread}
use non_os.Threads.State.{IsRunning}
use non_os.Threads.Calls.{yield_thread-Yields}

-- `n` calls of `Yield`, each by the thread that runs then.
pub yield_times : ℕ → Kernel → Outcome Kernel
yield_times zero k = done k
yield_times (suc n) k = yield_thread k k.current_thread >>= yield_times n

cons_inj : {x y : ℕ} {xs ys : List ℕ} → x ∷ xs ≡ y ∷ ys → (x ≡ y) × (xs ≡ ys)
cons_inj e = (cc, cc)

not_nil : (before : List ℕ) (t : ℕ) (after : List ℕ) → [] ≢ before ++ t ∷ after
not_nil [] t after e = cc
not_nil (x ∷ before) t after e = cc

-- A thread with `before` ahead of it on the ready list gets the processor when each of these, and the
-- one that runs now, has yielded once; they stand behind it then in the order in which they ran.
pub yield_times-reaches :
    (before after : List ℕ) (t : ℕ) (k : Kernel)
    → IsRunning k
    → k.ready_list ≡ before ++ t ∷ after
    → (k' : Kernel) × (yield_times (suc (length before)) k ≡ done k')
      × (k'.current_thread ≡ t)
      × (k'.ready_list ≡ after ++ k.current_thread ∷ before)
      × IsRunning k'
unfolding yield_times
yield_times-reaches [] after t k r e = elim (yield_thread-Yields k r) [
  | inl (empty, _) ↦ absurd (not_nil [] t after (sym empty ∙ e))
  | inr (next, rest, k', l, y, c, l', r') ↦
      let (p, q) = cons_inj (sym l ∙ e) in
      (k', rw y refl, c ∙ p, l' ∙ ap (λ xs. xs ++ k.current_thread ∷ []) q, r')
]
yield_times-reaches (x ∷ before) after t k r e = elim (yield_thread-Yields k r) [
  | inl (empty, _) ↦ absurd (not_nil (x ∷ before) t after (sym empty ∙ e))
  | inr (next, rest, k', l, y, c, l', r') ↦
      let (p, q) = cons_inj (sym l ∙ e) in
      let list : k'.ready_list ≡ before ++ t ∷ (after ++ k.current_thread ∷ []) =
        l'
        ∙ ap (λ xs. xs ++ k.current_thread ∷ []) q
        ∙ append_assoc before (t ∷ after) (k.current_thread ∷ []) in
      let (k'', y', c', l'', r'') =
        yield_times-reaches before (after ++ k.current_thread ∷ []) t k' r' list in
      (
        k'',
        rw y y',
        c',
        l''
            ∙ append_assoc after (k.current_thread ∷ []) (k'.current_thread ∷ before)
            ∙ ap (λ (y : ℕ). after ++ k.current_thread ∷ y ∷ before) (c ∙ p),
        r'',
      )
]
