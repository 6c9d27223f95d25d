-- ===== src/Threads/Created.antt =====
-- The constructor of a thread, with the id that it is given.
use non_os.Base.{
  ℕ, zero, suc, ◌+◌, ◌%◌, ◌<◌, ◌≡◌, ◌≢◌, ap, subst, inl, inr, Option, none, some, [], ◌∷◌, ◌++◌,
  length, All-map, Outcome, done, ◌>>=◌, >>=-eq-done,
}
use non_os.BitMap.View.{IsValid}
use non_os.BitMap.Find.{Finds, find_start-Finds}
use non_os.BitMap.{BitMap, find_start}
use non_os.Threads.{
  Kernel, Thread, ThreadIds, ThreadStatus, constructed, enter, get_new_thread_id, running, ready,
  new_thread,
}
use non_os.Threads.State.{Threads, thread_at, HasStatus, IsFenced, IsRunning}

pub done_inj : {A : Type 0} {a b : A} → done a ≡ done b → a ≡ b
done_inj e = cc

-- The constructor of a thread.
thread_at-append :
    (ths : Threads) (o : Option Thread) (t : ℕ) (th : Thread)
    → thread_at ths t ≡ some th
    → thread_at (ths ++ o ∷ []) t ≡ some th
thread_at-append [] o t th e = absurd (differs e)
  where
    differs : none ≢ some th
    differs q = cc
thread_at-append (x ∷ ths) o zero th e = e
thread_at-append (x ∷ ths) o (suc t) th e = thread_at-append ths o t th e

IsFenced-append :
    (ths : Threads) (x : Thread)
    → IsFenced x.stack
    → ((t : ℕ) (th : Thread) → thread_at ths t ≡ some th → IsFenced th.stack)
    → (t : ℕ) (th : Thread) → thread_at (ths ++ some x ∷ []) t ≡ some th
    → IsFenced th.stack
IsFenced-append [] x good f zero th e = subst (λ (y : Thread). IsFenced y.stack) (same e) good
  where
    same : some x ≡ some th → x ≡ th
    same q = cc
IsFenced-append [] x good f (suc t) th e = absurd (differs e)
  where
    differs : none ≢ some th
    differs q = cc
IsFenced-append (y ∷ ths) x good f zero th e = f 0 th e
IsFenced-append (y ∷ ths) x good f (suc t) th e =
    IsFenced-append ths x good (λ j z q. f (suc j) z q) t th e

constructed-IsRunning :
    (k : Kernel) (memory : Thread) (tid : Option ℕ) (ids : ThreadIds)
    → IsRunning k
    → IsRunning (record k { threads = k.threads ++ some (constructed memory tid) ∷ []; ids = ids })
unfolding constructed
constructed-IsRunning k memory tid ids r = record {
  kernel = record {
    all_ready = All-map (λ t s. keeps t ready s) k.ready_list r.kernel.all_ready;
    distinct = r.kernel.distinct;
    fenced = IsFenced-append k.threads _ tt r.kernel.fenced;
  };
  current = keeps k.current_thread running r.current;
  destroyed = r.destroyed;
}
  where
    keeps :
        (t : ℕ) (st : ThreadStatus)
        → HasStatus k.threads t st
        → HasStatus (k.threads ++ some (constructed memory tid) ∷ []) t st
    keeps t st s = record {
      thread = s.thread;
      there = thread_at-append k.threads _ t s.thread s.there;
      status = s.status;
    }

pub new_thread-IsRunning :
    (k k' : Kernel) (memory : Thread) (t : ℕ)
    → new_thread k memory ≡ done (t, k')
    → IsRunning k
    → IsRunning k'
unfolding new_thread
new_thread-IsRunning k k' memory t e r =
    let (x, _, q) = >>=-eq-done (get_new_thread_id k.ids (length k.threads)) _ e in
    subst IsRunning (ap (λ (y : ℕ × Kernel). y.1) (done_inj q))
      (constructed-IsRunning k memory x.0 x.1 r)

-- What a call that returns is followed by.
then_returns :
    {A B : Type 0} (m : Outcome A) (f : A → B) (a : A)
    → m ≡ done a
    → (b : B) × ((m >>= λ x. done (f x)) ≡ done b)
then_returns m f a e = (f a, ap (λ m. m >>= λ x. done (f x)) e)

-- The constructor returns, with an id or with -1.
pub new_thread-returns :
    (k : Kernel) (memory : Thread)
    → IsValid k.ids.tid_map
    → 0 < k.ids.tid_map.num_bits
    → (r : ℕ × Kernel) × (new_thread k memory ≡ done r)
unfolding new_thread get_new_thread_id
new_thread-returns k memory v pos =
    let (id, e) = found (find_start-Finds k.ids.last_id k.ids.tid_map v pos).0 in
    let (entered, e') = then_returns _ (λ r. (r.0, enter k.ids r.1 r.0 (length k.threads))) id e in
    then_returns _
      (λ r. (
        length k.threads,
        record k { threads = k.threads ++ some (constructed memory r.0) ∷ []; ids = r.1 },
      ))
      entered e'
  where
    found :
        Finds
          (λ j. (k.ids.last_id + j) % k.ids.tid_map.num_bits)
          0
          k.ids.tid_map.num_bits
          k.ids.tid_map
          (find_start k.ids.tid_map k.ids.last_id)
        → (r : Option ℕ × BitMap) × (find_start k.ids.tid_map k.ids.last_id ≡ done r)
    found (inl (_, e)) = (_, e)
    found (inr (_, _, _, _, _, _, _, e)) = (_, e)
