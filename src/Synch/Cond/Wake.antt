-- ===== src/Synch/Cond/Wake.antt =====
-- `CondSignal` and `CondBroadcast` of os/synch.c.
use mathlib.Core.List.{append-nil, append_assoc}
use mathlib.Core.Path.{ap₂, subst}
use ece695os_lab.Prelude.{
  ℕ, zero, suc, ◌+◌, ◌%◌, ◌<◌, ◌≡◌, ◌≢◌, true, false, List, [], ◌∷◌, ◌++◌, ◌==◌, refl, some, arith,
  ap, ◌∙◌, length, if◌then◌else◌, Bool-cases, inl, inr, has,
}
use ece695os_lab.Queue
use ece695os_lab.Queue.{Ptr, null, Store, free_links}
use ece695os_lab.Queue.IsQueue.{IsQueue, length-le, is_empty-nil, is_empty-cons}
use ece695os_lab.Kernel.{Os, ◌⨾◌, cond_waiting, wait_queue, run_queue}
use ece695os_lab.Process
use ece695os_lab.Process.Holds.{Holds, IsElsewhere, Holds-same}
use ece695os_lab.Task.{done, act}
use ece695os_lab.Task.Waiters.{
  Waiting, Waiting-same, take_waiter-Taken, Woken, Woken-same, wakeup-Woken,
}
use ece695os_lab.Synch.{sync_success, sync_fail}
use ece695os_lab.Synch.Cond.{signal, broadcast, wake_first, wake_all, owns_lock}

wake_first-Woken :
    (c x p : Ptr) (xs us vs rs fs : List Ptr) (s : Os)
    → Waiting s (cond_waiting c) x p xs us vs rs fs
    → (t : Os) × (wake_first c s ≡ some t)
      × (t ≡ record s { store = t.store; pcbs = t.pcbs })
      × Woken s t (cond_waiting c) p xs us vs rs (length fs)
unfolding wake_first
wake_first-Woken c x p xs us vs rs fs s w =
    let (t, et, k) = take_waiter-Taken w in
    let (v, ev, rest, z) = wakeup-Woken {u = t} w.synch k refl refl in
    (
      v,
      rw (wake_first, et) ev,
      rest ∙ ap (λ (o : Os). record o { store = v.store; pcbs = v.pcbs }) k.rest,
      z,
    )

signal-steps :
    (c : Ptr) (s t : Os)
    → c ≢ null
    → owns_lock c s ≡ true
    → Queue.is_empty s.store (cond_waiting c) ≡ false
    → wake_first c (record s { intrs = 15 }) ≡ some t
    → signal c s ≡ done sync_success (record t { intrs = s.intrs % 16 })
unfolding signal Process.get_current_pid
signal-steps c s t n mine waits et =
    let e : (c == null) ≡ false = ground arith in rw (e, mine, waits) (rw (act, et) refl)

-- `CondSignal` by the owner of the lock, with a process waiting: the first one becomes runnable.
pub signal-Woken :
    (c x p : Ptr) (xs us vs rs fs : List Ptr) (s : Os)
    → c ≢ null
    → owns_lock c s ≡ true
    → Waiting s (cond_waiting c) x p xs us vs rs fs
    → (t : Os) × (signal c s ≡ done sync_success t)
      × (t ≡ record s { store = t.store; pcbs = t.pcbs; intrs = s.intrs % 16 })
      × Woken s t (cond_waiting c) p xs us vs rs (length fs)
signal-Woken c x p xs us vs rs fs s n mine w =
    let w2 : Waiting (record s { intrs = 15 }) (cond_waiting c) x p xs us vs rs fs =
      Waiting-same refl refl w in
    let (v, ev, rest, z) = wake_first-Woken c x p xs us vs rs fs (record s { intrs = 15 }) w2 in
    (
      record v { intrs = s.intrs % 16 },
      signal-steps c s v n mine (is_empty-cons w.queue) ev,
      ap (λ (o : Os). record o { intrs = s.intrs % 16 }) rest,
      Woken-same refl refl refl refl z,
    )

-- The processes of the links of a queue.
abbrev pub objects_of : Store → List Ptr → List Ptr
objects_of s [] = []
objects_of s (x ∷ xs) = (s.links x).object ∷ objects_of s xs

objects_of-same :
    (s t : Store) (xs : List Ptr)
    → ((a : Ptr) → has a xs ≡ true → (t.links a).object ≡ (s.links a).object)
    → objects_of t xs ≡ objects_of s xs
objects_of-same s t [] same = refl
objects_of-same s t (x ∷ xs) same =
    ap₂ ◌∷◌ (same x (ground arith)) (objects_of-same s t xs (λ a m. same a (ground arith)))

-- The processes `ps` leave the list `ws` one by one, and `zs` remains.
abbrev pub Leaves : List Ptr → List Ptr → List Ptr → Type 0
Leaves ws [] zs = ws ≡ zs
Leaves ws (p ∷ ps) zs =
    (us : List Ptr) × (vs : List Ptr) × (ws ≡ us ++ p ∷ vs) × Leaves (us ++ vs) ps zs

-- No process waits for the condition variable any more; the processes `ps` have left the waiting
-- queue of the scheduler, which holds `zs`, for the end of the run queue, in order.
pub record AllWoken (s t : Os) (q : Ptr) (ps zs rs : List Ptr) (n : ℕ) : Type 0 where
  pub queue : IsQueue t.store q []
  pub asleep : Holds t wait_queue zs
  pub ready : Holds t run_queue (rs ++ ps)
  pub free : (gs : List Ptr) × IsQueue t.store free_links gs × (length gs ≡ n + length ps)
  pub others :
      (u : Ptr) (ws : List Ptr)
      → IsElsewhere u
      → u ≢ q
      → IsQueue s.store u ws
      → IsQueue t.store u ws
  pub rest : t ≡ record s { store = t.store; pcbs = t.pcbs }

wake_all-suc :
    (fuel : ℕ) (c : Ptr) (s t : Os)
    → Queue.is_empty s.store (cond_waiting c) ≡ false
    → wake_first c s ≡ some t
    → wake_all (suc fuel) c s ≡ wake_all fuel c t
unfolding wake_all
wake_all-suc fuel c s t e et = rw e (rw (et, ◌⨾◌) refl)

wake_all-nil :
    (fuel : ℕ) (c : Ptr) (s : Os)
    → IsQueue s.store (cond_waiting c) []
    → wake_all (suc fuel) c s ≡ some s
unfolding wake_all
wake_all-nil fuel c s w = rw (is_empty-nil w) refl

wake_all-AllWoken :
    (fuel : ℕ) (c : Ptr) (xs ws zs rs fs : List Ptr) (s : Os)
    → length xs < fuel
    → IsQueue s.store (cond_waiting c) xs
    → Leaves ws (objects_of s.store xs) zs
    → Holds s wait_queue ws
    → Holds s run_queue rs
    → IsQueue s.store free_links fs
    → (t : Os) × (wake_all fuel c s ≡ some t)
      × AllWoken s t (cond_waiting c) (objects_of s.store xs) zs rs (length fs)
unfolding wake_all
wake_all-AllWoken zero c xs ws zs rs fs s enough w l a r f = absurd (omega arith)
wake_all-AllWoken (suc fuel) c [] ws zs rs fs s enough w l a r f = (
  s,
  wake_all-nil fuel c s w,
  record {
    queue = w;
    asleep = subst (Holds s wait_queue) l a;
    ready = rw append-nil r;
    free = (fs, f, omega arith);
    others = λ u vs big ne h. h;
    rest = refl;
  },
)
wake_all-AllWoken (suc fuel) c (x ∷ xs) ws zs rs fs s enough w (us, vs, e, l) a r f =
    let p = (s.store.links x).object in
    let waits : Waiting s (cond_waiting c) x p xs us vs rs fs = record {
      synch = omega arith;
      queue = w;
      object = refl;
      asleep = subst (Holds s wait_queue) e a;
      ready = r;
      free = f;
    } in
    let (t, et, rest, m) = wake_first-Woken c x p xs us vs rs fs s waits in
    let same = objects_of-same s.store t.store xs m.objects in
    let (gs, free, n) = m.free in
    let (v, ev, k) =
      wake_all-AllWoken fuel c xs (us ++ vs) zs (rs ++ p ∷ []) gs t (omega arith) m.queue
        (rw same l) m.asleep m.ready free in
    (
      v,
      wake_all-suc fuel c s t (is_empty-cons w) et ∙ ev,
      record {
        queue = k.queue;
        asleep = k.asleep;
        ready = rw (append_assoc, same) at (k.ready);
        free = let (hs, h, len) = k.free in (hs, h, omega (arith, len, n, ap length same));
        others = λ u vs big ne h. k.others u vs big ne (m.others u vs big ne h).0;
        rest = k.rest ∙ ap (λ (o : Os). record o { store = v.store; pcbs = v.pcbs }) rest;
      },
    )

broadcast-steps :
    (c : Ptr) (s t : Os)
    → c ≢ null
    → owns_lock c s ≡ true
    → wake_all (suc Queue.queue_max_links) c (record s { intrs = 15 }) ≡ some t
    → broadcast c s ≡ done sync_success (record t { intrs = s.intrs % 16 })
unfolding broadcast Process.get_current_pid
broadcast-steps c s t n mine et =
    let e : (c == null) ≡ false = ground arith in rw (e, mine) (rw (act, et) refl)

Holds-intrs :
    (s : Os) (q : Ptr) (ps : List Ptr) (i : ℕ) → Holds s q ps → Holds (record s { intrs = i }) q ps
Holds-intrs s q ps i h = Holds-same q ps refl (λ a. refl) h

-- `CondBroadcast` by the owner of the lock ends with success, however many processes wait: all of
-- them are runnable, in the order in which they waited.
pub broadcast-AllWoken :
    (c : Ptr) (xs ws zs rs fs : List Ptr) (s : Os)
    → c ≢ null
    → owns_lock c s ≡ true
    → IsQueue s.store (cond_waiting c) xs
    → Leaves ws (objects_of s.store xs) zs
    → Holds s wait_queue ws
    → Holds s run_queue rs
    → IsQueue s.store free_links fs
    → (t : Os) × (broadcast c s ≡ done sync_success (record t { intrs = s.intrs % 16 }))
      × AllWoken
          (record s { intrs = 15 })
          t
          (cond_waiting c)
          (objects_of s.store xs)
          zs
          rs
          (length fs)
broadcast-AllWoken c xs ws zs rs fs s n mine w l a r f =
    let s' = record s { intrs = 15 } in
    let (t, et, k) =
      wake_all-AllWoken (suc Queue.queue_max_links) c xs ws zs rs fs s'
        (let room = length-le w in omega arith) w l (Holds-intrs s wait_queue ws 15 a)
        (Holds-intrs s run_queue rs 15 r) f in
    (t, broadcast-steps c s t n mine et, k)

-- `CondSignal` and `CondBroadcast` with no process waiting do the same: the owner of the lock gets
-- SYNC_SUCCESS and the low four bits of the interrupt level, any other process gets SYNC_FAIL and
-- leaves the interrupts disabled.
pub signal-broadcast :
    (c : Ptr) (s : Os)
    → c ≢ null
    → IsQueue s.store (cond_waiting c) []
    → let result =
        if owns_lock c s
        then done sync_success (record s { intrs = s.intrs % 16 })
        else done sync_fail (record s { intrs = 15 }) in
      (signal c s ≡ result) × (broadcast c s ≡ result)
unfolding signal broadcast Process.get_current_pid
signal-broadcast c s n w =
    let e : (c == null) ≡ false = ground arith in
    elim (Bool-cases (owns_lock c s)) [
      | inl m ↦ (
        rw (e, m, is_empty-nil w) refl,
        rw m (
            broadcast-steps c s _ n m
              (wake_all-nil Queue.queue_max_links c (record s { intrs = 15 }) w)),
      )
      | inr m ↦ (rw (e, m) refl, rw (e, m) refl)
    ]
