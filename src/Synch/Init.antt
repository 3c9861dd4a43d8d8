-- ===== src/Synch/Init.antt =====
-- `SynchModuleInit` of os/synch.c: every semaphore is free.
use ece695os_lab.Prelude.{
  ℕ, zero, suc, ◌+◌, ◌≤◌, ◌<◌, ◌≡◌, ◌⊎◌, inl, inr, ◌==◌, refl, arith, update, Bool-cases,
}
use ece695os_lab.Kernel.{Os}
use ece695os_lab.Synch.{clear_sems, module_init, max_sems, sync_success}

clear_sems-inuse :
    (k i a : ℕ) (s : Os)
    → ((s.sems (suc a)).inuse ≡ 0) ⊎ ((i ≤ a) × (a < i + k))
    → ((clear_sems k i s).sems (suc a)).inuse ≡ 0
unfolding clear_sems
clear_sems-inuse zero i a s (inl e) = e
clear_sems-inuse zero i a s (inr (l, h)) = absurd (omega (arith, l, h))
clear_sems-inuse (suc k) i a s h =
    let t : Os = record s {
      sems = update s.sems (suc i) (record (s.sems (suc i)) { inuse = 0 });
    } in
    let next : ((t.sems (suc a)).inuse ≡ 0) ⊎ ((suc i ≤ a) × (a < suc i + k)) =
      elim (Bool-cases (suc a == suc i)) [
        | inl e ↦ inl (rw e refl)
        | inr e ↦ elim h [
          | inl z ↦ inl (rw e z)
          | inr (l, u) ↦ inr (ground arith, omega (arith, u))
        ]
      ] in
    clear_sems-inuse k (suc i) a t next

clear_sems-rest :
    (k i : ℕ) (s : Os) → clear_sems k i s ≡ record s { sems = (clear_sems k i s).sems }
unfolding clear_sems
clear_sems-rest zero i s = refl
clear_sems-rest (suc k) i s =
    clear_sems-rest k (suc i)
      (record s { sems = update s.sems (suc i) (record (s.sems (suc i)) { inuse = 0 }) })

-- `SynchModuleInit` succeeds, frees every semaphore, and changes nothing else.
pub module_init-free :
    (s : Os)
    → let (r, t) = module_init s in
      (r ≡ sync_success)
      × ((a : ℕ) → a < max_sems → (t.sems (suc a)).inuse ≡ 0)
      × (t ≡ record s { sems = t.sems })
unfolding module_init
module_init-free s = (
  refl,
  λ a h. clear_sems-inuse max_sems 0 a s (inr (omega arith, omega (arith, h))),
  clear_sems-rest max_sems 0 s,
)
