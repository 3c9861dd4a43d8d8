-- ===== src/Process/Stocked.antt =====
-- The loop of `ProcessModuleInit` in os/process.c: one process after the other joins the free list.
use mathlib.Core.Path.{subst}
use ece695os_lab.Prelude.{
  ℕ, zero, suc, ◌+◌, ◌<◌, ◌≡◌, ◌≢◌, true, false, List, [], ◌∷◌, ◌==◌, refl, some, arith, has,
  length, ap, sym, ◌∙◌, ==_self,
}
use ece695os_lab.Queue
use ece695os_lab.Queue.{Ptr, null, success, Store, queue_max_links, free_links}
use ece695os_lab.Queue.IsQueue.{IsQueue, not-has_of_queue}
use ece695os_lab.Queue.Insert.{Inserts, insert_first-Inserts}
use ece695os_lab.Queue.Remove.{Allocated, alloc_link-Allocated}
use ece695os_lab.Kernel.{Os, ◌⨾◌, set_pcb, free_pcbs}
use ece695os_lab.Process.{init_pcb, init_pcbs, status_free}
use ece695os_lab.Process.Holds.{Holds, links_of, links_of-frame, Owned-frame}
use ece695os_lab.Process.Transfer.{alloc_link-some, insert_first-some}

-- The first processes, the last of them in front.
abbrev pub down_from : ℕ → List Ptr
down_from zero = []
down_from (suc i) = suc i ∷ down_from i

down_from-bound : (a i : ℕ) → i < a → has a (down_from i) ≡ false
down_from-bound a zero h = refl
down_from-bound a (suc i) h = ground (arith, down_from-bound a i)

-- The first `i` processes are free and on the free list; `n` links are free then, and the queues
-- that were empty still are.
pub record Stocked (s t : Os) (i n : ℕ) : Type 0 where
  pub processes : Holds t free_pcbs (down_from i)
  pub free : (gs : List Ptr) × IsQueue t.store free_links gs × (length gs ≡ n)
  pub others :
      (u : Ptr) → u ≢ free_pcbs → u ≢ free_links → IsQueue s.store u [] → IsQueue t.store u []
  pub flags : (a : Ptr) → has a (down_from i) ≡ true → (t.pcbs a).flags ≡ status_free
  pub rest : t ≡ record s { store = t.store; pcbs = t.pcbs }

module _ (s t : Os) (i : ℕ) (m : Ptr) (gs : List Ptr) (k : Stocked s t i (suc (length gs)))
    (w : IsQueue t.store free_links (m ∷ gs)) where
  abbrev p : Ptr
  p = suc i

  abbrev l : Ptr
  l = (Queue.alloc_link p t.store).0

  abbrev taken : Store
  taken = (Queue.alloc_link p t.store).1

  abbrev linked : Os
  linked = set_pcb p (record (t.pcbs p) { link = l }) (record t { store = taken })

  abbrev flagged : Os
  flagged = set_pcb p (record (linked.pcbs p) { flags = status_free }) linked

  abbrev listed : Os
  listed = record flagged { store = (Queue.insert_first free_pcbs (flagged.pcbs p).link taken).1 }

  at_front : l ≡ m
  at_front = (alloc_link-Allocated t.store p m gs w).0

  allocated : Allocated t.store taken l p gs
  allocated =
      subst (λ x. Allocated t.store taken x p gs) (sym at_front)
        (alloc_link-Allocated t.store p m gs w).1

  some_link : (l == null) ≡ false
  some_link = let a = w.chain.0.ne_null in let e = at_front in ground arith

  own_link : (flagged.pcbs p).link ≡ l
  own_link = rw (==_self p) refl

  same_links : (a : Ptr) → (a == p) ≡ false → (flagged.pcbs a).link ≡ (t.pcbs a).link
  same_links a e = rw e refl

  absent : has p (down_from i) ≡ false
  absent = down_from-bound (suc i) i (omega arith)

  kept : links_of flagged.pcbs (down_from i) ≡ links_of t.pcbs (down_from i)
  kept = links_of-frame flagged.pcbs t.pcbs p (down_from i) absent same_links

  before : IsQueue taken free_pcbs (links_of t.pcbs (down_from i))
  before = allocated.others free_pcbs _ (λ e. absurd (omega arith)) k.processes.queue

  unlisted : has l (links_of t.pcbs (down_from i)) ≡ false
  unlisted = not-has_of_queue before l (λ e. absurd (
      let z = allocated.cleared in let n : (taken.links l).queue ≡ null = rw z refl in omega arith))

  inserted :
      Inserts taken free_pcbs l []
        (links_of t.pcbs (down_from i))
        (Queue.insert_first free_pcbs l taken)
  inserted =
      insert_first-Inserts (λ e. absurd (omega arith)) (links_of t.pcbs (down_from i)) before
        (record {
          ne_null = ground (arith, some_link);
          in_pool = let a = w.chain.0.in_pool in let e = at_front in omega arith;
          absent = unlisted;
        })

  listed_store : listed.store ≡ (Queue.insert_first free_pcbs l taken).1
  listed_store = ap (λ (x : Ptr). (Queue.insert_first free_pcbs x taken).1) own_link

  init_pcb-run : init_pcb (suc i) t ≡ some listed
  unfolding init_pcb
  init_pcb-run =
      rw (alloc_link-some p t some_link, ◌⨾◌)
        (insert_first-some free_pcbs p flagged
          (ap (λ (x : Ptr). (Queue.insert_first free_pcbs x taken).0) own_link ∙ inserted.0))

  listed-Holds : Holds listed free_pcbs (down_from (suc i))
  listed-Holds = record {
    queue = rw (listed_store, own_link, kept) inserted.1.queue;
    owned = (
      rw (listed_store, own_link) (inserted.1.objects l ∙ rw (allocated.cleared) refl),
      Owned-frame flagged.pcbs t.pcbs t.store listed.store p l (down_from i) absent unlisted
          same_links (λ a e. rw listed_store (inserted.1.objects a ∙ allocated.objects a e))
          k.processes.owned,
    );
  }

  init_pcb-Stocked : Stocked s listed (suc i) (length gs)
  init_pcb-Stocked = record {
    processes = listed-Holds;
    free = (
      gs,
      rw listed_store (
          inserted.1.others free_links gs (λ e. absurd (omega arith)) allocated.free
            (not-has_of_queue allocated.free l (λ e. absurd (
              let z = allocated.cleared in
              let n : (taken.links l).queue ≡ null = rw z refl in omega arith)))),
      refl,
    );
    others = λ u nu nf e.
        rw listed_store
          (inserted.1.others u [] nu (allocated.others u [] nf (k.others u nu nf e)) refl);
    flags = λ a h. ground (arith, k.flags a);
    rest = rw (k.rest) refl;
  }

-- One round of the loop: with a link free, the process joins the free list.
init_pcb-some :
    (i n : ℕ) (s t : Os)
    → Stocked s t i (suc n)
    → (u : Os) × (init_pcb (suc i) t ≡ some u) × Stocked s u (suc i) n
init_pcb-some i n s t h = let (fs, w, e) = h.free in first_free fs w e
  where
    first_free :
        (fs : List Ptr)
        → IsQueue t.store free_links fs
        → length fs ≡ suc n
        → (u : Os) × (init_pcb (suc i) t ≡ some u) × Stocked s u (suc i) n
    first_free [] w e = absurd (omega (arith, e))
    first_free (m ∷ gs) w e =
        let size : n ≡ length gs = omega arith in
        let full : Stocked s t i (suc (length gs)) = subst (λ x. Stocked s t i (suc x)) size h in
        let next = init_pcb-Stocked s t i m gs full w in
        (
          listed s t i m gs full w,
          init_pcb-run s t i m gs full w,
          subst (λ x. Stocked s (listed s t i m gs full w) (suc i) x) (sym size) next,
        )

pub init_pcbs-Stocked :
    (k i n : ℕ) (s t : Os)
    → Stocked s t i (k + n)
    → (u : Os) × (init_pcbs k i t ≡ some u) × Stocked s u (k + i) n
unfolding init_pcbs
init_pcbs-Stocked zero i n s t h =
    let links : 0 + n ≡ n = omega arith in
    let same = subst (λ x. Stocked s t i x) links h in
    (t, refl, subst (λ x. Stocked s t x n) (omega arith) same)
init_pcbs-Stocked (suc k) i n s t h =
    let size : suc k + n ≡ suc (k + n) = omega arith in
    let (v, run, next) = init_pcb-some i (k + n) s t (subst (λ x. Stocked s t i x) size h) in
    let (u, runs, done) = init_pcbs-Stocked k (suc i) n s v next in
    (u, rw (run, init_pcbs) runs, subst (λ x. Stocked s u x n) (omega arith) done)
