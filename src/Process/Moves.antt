-- ===== src/Process/Moves.antt =====
-- `ProcessSuspend`, `ProcessWakeup` and `ProcessDestroy` move a process between the queues.
use mathlib.Core.Path.{subst}
use mathlib.Core.List.{append-nil}
use ece695os_lab.Prelude.{
  ℕ, ◌≡◌, ◌≢◌, true, false, List, [], ◌∷◌, ◌++◌, ◌==◌, refl, some, arith, has, length, sym, ◌∙◌,
  ==_self, ne_of_has_not,
}
use ece695os_lab.Queue
use ece695os_lab.Queue.{Ptr, null, success, Store, free_links}
use ece695os_lab.Queue.IsQueue.{IsQueue}
use ece695os_lab.Queue.Insert.{
  Inserted, IsFresh, Inserts, insert_last-Inserts, insert_first-Inserts,
}
use ece695os_lab.Kernel.{Os, ◌⨾◌, ⨾-some, run_queue, wait_queue, zombie_queue}
use ece695os_lab.Process.{
  remove_link, alloc_link, insert_last, insert_first, set_status, with_status, suspend, wakeup,
  destroy, status_waiting, status_runnable, status_zombie,
}
use ece695os_lab.Process.Holds.{
  Holds, links_of, links_of-append, Owned-append, Owned-split, Owned-same, Holds-same,
}
use ece695os_lab.Process.Transfer.{
  Relinked, relink, relink-some, relink-Relinked, insert_last-some, insert_first-some,
}

-- The process `p` has left the queue `q`, which now holds `zs`, for the queue `r`, which now holds
-- `rs`; its flags are `flags`, and `n` links are free, as before.
pub record Transferred (s t : Os) (q r p : Ptr) (zs rs : List Ptr) (flags n : ℕ) : Type 0 where
  pub source : Holds t q zs
  pub target : Holds t r rs
  pub free : (gs : List Ptr) × IsQueue t.store free_links gs × (length gs ≡ n)
  -- Every other queue of processes holds what it held.
  pub others :
      (u : Ptr) (ws : List Ptr)
      → u ≢ null
      → u ≢ q
      → u ≢ r
      → u ≢ free_links
      → Holds s u ws
      → Holds t u ws
  -- So does every other queue, such as those of the semaphores.
  pub waiting :
      (u : Ptr) (ws : List Ptr)
      → u ≢ null
      → u ≢ q
      → u ≢ r
      → u ≢ free_links
      → IsQueue s.store u ws
      → IsQueue t.store u ws
        × ((a : Ptr) → has a ws ≡ true → (t.store.links a).object ≡ (s.store.links a).object)
  pub pcbs : (a : Ptr) → (a == p) ≡ false → t.pcbs a ≡ s.pcbs a
  pub pcb : t.pcbs p ≡ record (s.pcbs p) { link = (t.pcbs p).link; flags = flags }
  pub rest : t ≡ record s { store = t.store; pcbs = t.pcbs }

-- The arrival between the two parts of the queue.
module _ {s t : Os} {q p : Ptr} {zs : List Ptr} {n : ℕ} (v : Store) (r : Ptr) (xs ys : List Ptr)
    (k : Relinked s t q p zs n) (nr : r ≢ null) (nq : q ≢ null) (ne : r ≢ q) (nf : q ≢ free_links)
    (rf : r ≢ free_links) (h : Holds t r (xs ++ ys))
    (i : Inserted t.store v r (t.pcbs p).link (links_of t.pcbs xs) (links_of t.pcbs ys)) where
  abbrev arrived : Os
  arrived = record t { store = v }

  arrived_target : Holds arrived r (xs ++ p ∷ ys)
  arrived_target =
      let (ox, oy) = Owned-split t.pcbs t.store xs ys h.owned in
      let objects = λ (a : Ptr). i.objects a in
      record {
        queue = subst (IsQueue v r) (sym (links_of-append t.pcbs xs (p ∷ ys))) i.queue;
        owned =
            Owned-append t.pcbs v xs (p ∷ ys)
              (Owned-same t.pcbs t.pcbs t.store v xs (λ a. refl) objects ox)
              (
                objects (t.pcbs p).link ∙ k.object,
                Owned-same t.pcbs t.pcbs t.store v ys (λ a. refl) objects oy,
              );
      }

  arrived_others : (u : Ptr) (ws : List Ptr) → u ≢ null → u ≢ r → Holds t u ws → Holds arrived u ws
  arrived_others u ws nu nur w = record {
    queue =
        i.others u (links_of t.pcbs ws) nur w.queue
          (k.fresh u (links_of t.pcbs ws) nu w.queue).absent;
    owned = Owned-same t.pcbs t.pcbs t.store v ws (λ a. refl) (λ a. i.objects a) w.owned;
  }

  pub arrived-Transferred : Transferred s arrived q r p zs (xs ++ p ∷ ys) (s.pcbs p).flags n
  arrived-Transferred = record {
    source = arrived_others q zs nq (λ e. ne (sym e)) k.source;
    target = arrived_target;
    free =
        let (gs, w, len) = k.free in
        (
          gs,
          i.others free_links gs (λ e. rf (sym e)) w
              (k.fresh free_links gs (λ e. absurd (omega arith)) w).absent,
          len,
        );
    others = λ u ws nu nuq nur nuf w. arrived_others u ws nu nur (k.others u ws nu nuq nuf w).0;
    waiting = λ u ws nu nuq nur nuf w.
        let w' = k.waiting u ws nuq nuf w in
        let f = k.fresh u ws nu w' in
        (
          i.others u ws nur w' f.absent,
          λ a m. i.objects a ∙ k.objects a (ne_of_has_not a (t.pcbs p).link ws f.absent m),
        );
    pcbs = k.pcbs;
    pcb = k.pcb;
    rest = rw (k.rest);
  }

-- The three steps, to the end of the other queue.
module _ (s : Os) (q r p : Ptr) (xs ys rs fs : List Ptr) (nq : q ≢ null) (nf : q ≢ free_links)
    (nr : r ≢ null) (rf : r ≢ free_links) (ne : r ≢ q) (h : Holds s q (xs ++ p ∷ ys))
    (k : Holds s r rs) (free : IsQueue s.store free_links fs) where
  between : Relinked s (relink p s) q p (xs ++ ys) (length fs)
  between = relink-Relinked s q p xs ys fs nq nf h free

  between_target : Holds (relink p s) r rs
  between_target = (between.others r rs nr ne rf k).0

  fresh : IsFresh ((relink p s).pcbs p).link (links_of (relink p s).pcbs rs)
  fresh = between.fresh r (links_of (relink p s).pcbs rs) nr between_target.queue

  pub transfer_last :
      (t : Os) × ((remove_link p ⨾ alloc_link p ⨾ insert_last r p) s ≡ some t)
      × Transferred s t q r p (xs ++ ys) (rs ++ p ∷ []) (s.pcbs p).flags (length fs)
  transfer_last =
      let m = ((relink p s).pcbs p).link in
      let i : Inserts (relink p s).store r m (links_of (relink p s).pcbs rs) []
          (Queue.insert_last r m (relink p s).store) =
        insert_last-Inserts nr (links_of (relink p s).pcbs rs) between_target.queue fresh in
      (
        record (relink p s) { store = (Queue.insert_last r m (relink p s).store).1 },
        ⨾-some (remove_link p) (alloc_link p) (insert_last r p) s
              (relink-some s q p xs ys fs nq nf h free)
            ∙ insert_last-some r p (relink p s) i.0,
        arrived-Transferred _ r rs [] between nr nq ne nf rf (rw append-nil between_target) i.1,
      )

  pub transfer_first :
      (t : Os) × ((remove_link p ⨾ alloc_link p ⨾ insert_first r p) s ≡ some t)
      × Transferred s t q r p (xs ++ ys) (p ∷ rs) (s.pcbs p).flags (length fs)
  transfer_first =
      let m = ((relink p s).pcbs p).link in
      let i : Inserts (relink p s).store r m [] (links_of (relink p s).pcbs rs)
          (Queue.insert_first r m (relink p s).store) =
        insert_first-Inserts nr (links_of (relink p s).pcbs rs) between_target.queue fresh in
      (
        record (relink p s) { store = (Queue.insert_first r m (relink p s).store).1 },
        ⨾-some (remove_link p) (alloc_link p) (insert_first r p) s
              (relink-some s q p xs ys fs nq nf h free)
            ∙ insert_first-some r p (relink p s) i.0,
        arrived-Transferred _ r [] rs between nr nq ne nf rf between_target i.1,
      )

set_status-link :
    (p : Ptr) (status : ℕ) (s : Os) (a : Ptr)
    → ((set_status p status s).pcbs a).link ≡ (s.pcbs a).link
unfolding set_status
set_status-link p status s a = ground arith

set_status-Holds :
    (p : Ptr) (status : ℕ) (s : Os) (u : Ptr) (ws : List Ptr)
    → Holds s u ws
    → Holds (set_status p status s) u ws
unfolding set_status
set_status-Holds p status s u ws h = Holds-same u ws refl (set_status-link p status s) h

set_status-IsQueue :
    (p : Ptr) (status : ℕ) (s : Os) (u : Ptr) (ws : List Ptr)
    → IsQueue s.store u ws
    → IsQueue (set_status p status s).store u ws
unfolding set_status
set_status-IsQueue p status s u ws w = w

-- The step before the transfer changes the flags alone.
set_status-Transferred :
    (s t : Os) (q r p : Ptr) (zs rs : List Ptr) (status n : ℕ)
    → Transferred (set_status p status s) t q r p zs rs ((set_status p status s).pcbs p).flags n
    → Transferred s t q r p zs rs (with_status (s.pcbs p).flags status) n
unfolding set_status
set_status-Transferred s t q r p zs rs status n k = record {
  source = k.source;
  target = k.target;
  free = k.free;
  others =
      λ u ws nu nuq nur nuf w. k.others u ws nu nuq nur nuf (set_status-Holds p status s u ws w);
  waiting = k.waiting;
  pcbs = λ a e. k.pcbs a e ∙ rw e;
  pcb = rw (==_self p) at (k.pcb);
  rest = k.rest;
}

module _ (s : Os) (p : Ptr) (xs ys rs fs : List Ptr) (free : IsQueue s.store free_links fs) where
  -- `ProcessSuspend` never exits for a process on the run queue: it stands at the end of the
  -- waiting queue then, marked as waiting, and all else is as before.
  pub suspend-Transferred :
      Holds s run_queue (xs ++ p ∷ ys)
      → Holds s wait_queue rs
      → (t : Os) × (suspend p s ≡ some t)
        × Transferred s t run_queue wait_queue p
            (xs ++ ys)
            (rs ++ p ∷ [])
            (with_status (s.pcbs p).flags status_waiting)
            (length fs)
  unfolding suspend
  suspend-Transferred h k =
      let s' = set_status p status_waiting s in
      let (t, e, done) =
        transfer_last s' run_queue wait_queue p xs ys rs fs (λ e. absurd (omega arith))
          (λ e. absurd (omega arith)) (λ e. absurd (omega arith)) (λ e. absurd (omega arith))
          (λ e. absurd (omega arith))
          (set_status-Holds p status_waiting s run_queue (xs ++ p ∷ ys) h)
          (set_status-Holds p status_waiting s wait_queue rs k)
          (set_status-IsQueue p status_waiting s free_links fs free) in
      (
        t,
        e,
        set_status-Transferred s t run_queue wait_queue p (xs ++ ys) (rs ++ p ∷ []) status_waiting
            (length fs) done,
      )

  -- `ProcessWakeup` never exits for a process on the waiting queue: it stands at the end of the run
  -- queue then, marked as runnable, and all else is as before.
  pub wakeup-Transferred :
      Holds s wait_queue (xs ++ p ∷ ys)
      → Holds s run_queue rs
      → (t : Os) × (wakeup p s ≡ some t)
        × Transferred s t wait_queue run_queue p
            (xs ++ ys)
            (rs ++ p ∷ [])
            (with_status (s.pcbs p).flags status_runnable)
            (length fs)
  unfolding wakeup
  wakeup-Transferred h k =
      let s' = set_status p status_runnable s in
      let (t, e, done) =
        transfer_last s' wait_queue run_queue p xs ys rs fs (λ e. absurd (omega arith))
          (λ e. absurd (omega arith)) (λ e. absurd (omega arith)) (λ e. absurd (omega arith))
          (λ e. absurd (omega arith))
          (set_status-Holds p status_runnable s wait_queue (xs ++ p ∷ ys) h)
          (set_status-Holds p status_runnable s run_queue rs k)
          (set_status-IsQueue p status_runnable s free_links fs free) in
      (
        t,
        e,
        set_status-Transferred s t wait_queue run_queue p (xs ++ ys) (rs ++ p ∷ []) status_runnable
            (length fs) done,
      )

  -- `ProcessDestroy` never exits for a process on the run queue: it stands at the front of the
  -- zombie queue then, marked as a zombie, and all else is as before.
  pub destroy-Transferred :
      Holds s run_queue (xs ++ p ∷ ys)
      → Holds s zombie_queue rs
      → (t : Os) × (destroy p s ≡ some t)
        × Transferred s t run_queue zombie_queue p
            (xs ++ ys)
            (p ∷ rs)
            (with_status (s.pcbs p).flags status_zombie)
            (length fs)
  unfolding destroy
  destroy-Transferred h k =
      let s' = set_status p status_zombie s in
      let (t, e, done) =
        transfer_first s' run_queue zombie_queue p xs ys rs fs (λ e. absurd (omega arith))
          (λ e. absurd (omega arith)) (λ e. absurd (omega arith)) (λ e. absurd (omega arith))
          (λ e. absurd (omega arith))
          (set_status-Holds p status_zombie s run_queue (xs ++ p ∷ ys) h)
          (set_status-Holds p status_zombie s zombie_queue rs k)
          (set_status-IsQueue p status_zombie s free_links fs free) in
      (
        t,
        e,
        set_status-Transferred s t run_queue zombie_queue p (xs ++ ys) (p ∷ rs) status_zombie
            (length fs) done,
      )
