-- ===== src/Queue/Pool.antt =====
-- `AQueueModuleInit` of os/queue.c: every link of the pool is free.
use ece695os_lab.Prelude.{
  ℕ, zero, suc, ◌+◌, ◌≤◌, ◌<◌, ◌≡◌, ◌≢◌, false, List, [], ◌∷◌, ◌++◌, refl, some, arith, has,
  has-append, update-ne, update, ◌∙◌,
}
use mathlib.Core.Path.{subst}
use mathlib.Core.Bool.{true}
use ece695os_lab.Queue.{
  Ptr, null, success, Store, queue_max_links, free_links, with_links, init, insert_last, fill_pool,
  module_init,
}
use ece695os_lab.Queue.IsQueue.{IsQueue, IsQueue-frame}
use ece695os_lab.Queue.Insert.{Inserts, insert_last-Inserts}

-- The first links of the pool, in order.
abbrev pub pool_upto : ℕ → List Ptr
pool_upto zero = []
pool_upto (suc i) = pool_upto i ++ suc i ∷ []

pub pool_upto-bound : (a i : ℕ) → i < a → has a (pool_upto i) ≡ false
pool_upto-bound a zero h = refl
pool_upto-bound a (suc i) h =
    ground (arith, has-append a (pool_upto i) (suc i ∷ []), pool_upto-bound a i)

-- What the initialisation leaves: the links of the pool up to `n` are free, and the queues that
-- were empty still are.
pub record Filled (s t : Store) (n : ℕ) : Type 0 where
  pub free : IsQueue t free_links (pool_upto n)
  pub others : (p : Ptr) → p ≢ free_links → IsQueue s p [] → IsQueue t p []

abbrev blank : ℕ → Store → Store
blank l s =
    with_links s (update s.links l (record (s.links l) { next = null; prev = null; object = null }))

blank-Filled : (s0 s : Store) (i : ℕ) → Filled s0 s i → Filled s0 (blank (suc i) s) i
blank-Filled s0 s i f = record {
  free =
      IsQueue-frame f.free (blank (suc i) s) refl
        (λ a m. update-ne s.links (suc i) _ (λ e. absurd-has a e m));
  others = λ p ne v. IsQueue-frame (f.others p ne v) (blank (suc i) s) refl (λ a m. cc);
}
  where
    absurd-has : (a : ℕ) → a ≡ suc i → has a (pool_upto i) ≡ true → ⊥
    absurd-has a e m = ground (arith, pool_upto-bound a i)

insert-Filled :
    (s0 s : Store) (i : ℕ)
    → suc i ≤ queue_max_links
    → Filled s0 s i
    → let (st, t) = insert_last free_links (suc i) s in (st ≡ success) × Filled s0 t (suc i)
insert-Filled s0 s i room f =
    let done : Inserts s free_links (suc i) (pool_upto i) [] (insert_last free_links (suc i) s) =
      insert_last-Inserts (λ z. absurd (omega arith)) (pool_upto i) f.free
        (record {
          ne_null = omega arith;
          in_pool = room;
          absent = pool_upto-bound (suc i) i (omega arith);
        }) in
    (
      done.0,
      record {
        free = done.1.queue;
        others = λ p ne v. done.1.others p [] ne (f.others p ne v) refl;
      },
    )

fill_pool-suc :
    (k i : ℕ) (s : Store)
    → (insert_last free_links (suc i) (blank (suc i) s)).0 ≡ success
    → fill_pool (suc k) i s
      ≡ fill_pool k (suc i) (insert_last free_links (suc i) (blank (suc i) s)).1
unfolding fill_pool
fill_pool-suc k i s e = rw (e, fill_pool)

fill_pool-Filled :
    (k i : ℕ) (s0 s : Store)
    → k + i ≡ queue_max_links
    → Filled s0 s i
    → (t : Store) × (fill_pool k i s ≡ some t) × Filled s0 t queue_max_links
unfolding fill_pool
fill_pool-Filled zero i s0 s e f =
    let n : i ≡ queue_max_links = omega arith in (s, refl, subst (Filled s0 s) n f)
fill_pool-Filled (suc k) i s0 s e f =
    let done = insert-Filled s0 (blank (suc i) s) i (omega arith) (blank-Filled s0 s i f) in
    let (t, run, filled) =
      fill_pool-Filled k (suc i) s0 (insert_last free_links (suc i) (blank (suc i) s)).1
        (omega arith) done.1 in
    (t, fill_pool-suc k i s done.0 ∙ run, filled)

-- `AQueueModuleInit` never exits: from any store it returns one whose free queue holds the whole
-- pool in order, and the queues that were empty are empty.
pub module_init-Filled :
    (s : Store) → (t : Store) × (module_init s ≡ some t) × Filled s t queue_max_links
unfolding module_init init
module_init-Filled s = fill_pool-Filled queue_max_links 0 s _ refl (record {
  free = record { first_eq = refl; last_eq = refl; nitems_eq = refl; chain = tt; distinct = tt };
  others = λ p ne v. IsQueue-frame v _ (update-ne s.queues free_links _ ne) (λ a m. refl);
})
