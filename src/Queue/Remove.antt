-- ===== src/Queue/Remove.antt =====
-- `AQueueRemove` and `AQueueAllocLink` of os/queue.c.
use mathlib.Core.List.{append-nil}
use ece695os_lab.Prelude.{
  ℕ, ◌≤◌, ◌≡◌, ◌≢◌, true, false, List, [], ◌∷◌, ◌++◌, ◌==◌, if◌then◌else◌, Option, some, refl,
  arith, head_or, last_or, has, length, Distinct, Distinct-join, Distinct-split, Apart-tail,
  Apart-has_right, ne_of_has_not, last_or-ne, head_or-ne, has-append, has-last_or, last_or-append,
  length-append, sym, ◌∙◌, ==_self, update-ne, update_self, update,
}
use ece695os_lab.Queue.{
  Ptr, null, Status, success, Links, Store, queue_max_links, free_links, fix_next, fix_prev, decr,
  drop_ends, with_queue, with_links, unlink, insert_last, alloc_link, remove,
}
use ece695os_lab.Queue.Chain.{Chain-frame, Chain-split}
use ece695os_lab.Queue.Splice.{bypass, bypass-Chain, unlink_lem}
use ece695os_lab.Queue.IsQueue.{
  IsQueue, length-le, IsQueue-ne_null, IsQueue-frame, not-has_of_IsQueue, first-head_or,
  is_empty-nil, is_empty-cons, bypass-ne,
}
use ece695os_lab.Queue.Insert.{Inserts, insert_last-Inserts}

pub Distinct-delete :
    (l : Ptr) (xs ys : List Ptr)
    → Distinct (xs ++ l ∷ ys)
    → Distinct (xs ++ ys) × (has l xs ≡ false) × (has l ys ≡ false)
Distinct-delete l xs ys d =
    let (dx, dy, apart) = Distinct-split xs (l ∷ ys) d in
    (
      Distinct-join xs ys dx dy.1 (Apart-tail l xs ys apart),
      Apart-has_right l xs (l ∷ ys) apart (ground arith),
      dy.0,
    )

pub bypass-object :
    (before after : Ptr) (h : Links) (a : Ptr) → (bypass before after h a).object ≡ (h a).object
unfolding fix_next fix_prev
bypass-object before after h a = ground arith

-- The ends of a queue that loses the link `l`.
pub dropped_first :
    (l f n : Ptr) (xs ys : List Ptr)
    → f ≡ head_or (xs ++ l ∷ ys) null
    → n ≡ head_or ys null
    → has l xs ≡ false
    → (if f == l then n else f) ≡ head_or (xs ++ ys) null
dropped_first l f n [] ys e k h = ground arith
dropped_first l f n (x ∷ xs) ys e k h = ground arith

dropped_last :
    (l b p : Ptr) (xs ys : List Ptr)
    → b ≡ last_or (xs ++ l ∷ ys) null
    → p ≡ last_or xs null
    → has l ys ≡ false
    → (if b == l then p else b) ≡ last_or (xs ++ ys) null
dropped_last l b p xs [] e k h = rw (append-nil, e, last_or-append xs (l ∷ []) null, ==_self l) k
dropped_last l b p xs (y ∷ ys) e k h = rw (
  e,
  last_or-append xs (l ∷ y ∷ ys) null,
  last_or-append xs (y ∷ ys) null,
  ne_of_has_not (last_or ys y) l (y ∷ ys) h (has-last_or y ys),
)

decr-length :
    (n : ℕ) (l : Ptr) (xs ys : List Ptr)
    → n ≡ length (xs ++ l ∷ ys)
    → n ≤ queue_max_links
    → decr n ≡ length (xs ++ ys)
decr-length n l xs ys e small = omega (arith, length-append xs ys, length-append xs (l ∷ ys))

-- The store once `l` is taken out of the queue `q`, before it is put anywhere else.
abbrev pub detach : Ptr → Ptr → Store → Store
detach q l s = with_links (with_queue s q (drop_ends s.links l (s.queues q))) (unlink l s.links)

module _ {s : Store} {q : Ptr} (l : Ptr) (xs ys : List Ptr) (w : IsQueue s q (xs ++ l ∷ ys)) where
  detach_links :
      (a : Ptr) → unlink l s.links a ≡ bypass (last_or xs null) (head_or ys null) s.links a
  detach_links =
      let (front, back) = Chain-split s.links q null xs (l ∷ ys) null w.chain in
      let (d, outx, outy) = Distinct-delete l xs ys w.distinct in
      unlink_lem (last_or xs null) l (head_or ys null) s.links back.0.prev_eq back.0.next_eq
        (last_or-ne l null xs (ground (arith, back.0.ne_null)) outx)

  pub detach-IsQueue : IsQueue (detach q l s) q (xs ++ ys)
  detach-IsQueue =
      let (front, back) = Chain-split s.links q null xs (l ∷ ys) null w.chain in
      let (d, outx, outy) = Distinct-delete l xs ys w.distinct in
      let v = s.queues q in
      record {
        first_eq = rw (==_self q) (dropped_first l v.first _ xs ys w.first_eq back.0.next_eq outx);
        last_eq = rw (==_self q) (dropped_last l v.last _ xs ys w.last_eq back.0.prev_eq outy);
        nitems_eq =
            rw (==_self q)
              (decr-length v.nitems l xs ys w.nitems_eq (rw w.nitems_eq (length-le w)));
        chain =
            Chain-frame (bypass (last_or xs null) (head_or ys null) s.links) q (unlink l s.links)
              null (xs ++ ys) null (bypass-Chain s.links q l xs ys w.chain w.distinct)
              (λ a m. detach_links a);
        distinct = d;
      }

  pub detach-others :
      (p : Ptr) (ws : List Ptr) → p ≢ q → IsQueue s p ws → IsQueue (detach q l s) p ws
  detach-others p ws ne v = IsQueue-frame v (detach q l s) (update-ne s.queues q _ ne) λ a m.
      let z = IsQueue-ne_null v a m in
      let away = not-has_of_IsQueue w a v ne m in
      let (outx, outy) = outside a away in
      detach_links a
      ∙ bypass-ne (last_or xs null) (head_or ys null) s.links a (last_or-ne a null xs z outx)
          (head_or-ne a ys z outy)
    where
      outside : (a : Ptr) → has a (xs ++ l ∷ ys) ≡ false → (has a xs ≡ false) × (has a ys ≡ false)
      outside a m = ground (arith, has-append a xs (l ∷ ys))

  pub detach-objects : (a : Ptr) → ((detach q l s).links a).object ≡ (s.links a).object
  detach-objects a =
      rw (detach_links a) (bypass-object (last_or xs null) (head_or ys null) s.links a)

  pub has_self : has l (xs ++ l ∷ ys) ≡ true
  has_self = ground (arith, has-append l xs (l ∷ ys))

-- What the removal of `l` leaves: it stands at the end of the free links.
pub record Removed (s t : Store) (q l : Ptr) (xs ys fs : List Ptr) : Type 0 where
  pub queue : IsQueue t q (xs ++ ys)
  pub freed : IsQueue t free_links (fs ++ l ∷ [])
  pub others : (p : Ptr) (ws : List Ptr) → p ≢ q → p ≢ free_links → IsQueue s p ws → IsQueue t p ws
  pub objects : (a : Ptr) → (t.links a).object ≡ (s.links a).object

abbrev pub Removes :
    Store → Ptr → Ptr → List Ptr → List Ptr → List Ptr → Status × Option Ptr × Store → Type 0
Removes s q l xs ys fs (st, slot, t) =
    (st ≡ success) × (slot ≡ some null) × Removed s t q l xs ys fs

-- `AQueueRemove` of a link of a queue other than the free links succeeds: the link leaves the queue
-- and stands at the end of the free links, the link variable is null, every other queue and all
-- objects are as before.
pub remove-Removes :
    {s : Store} {q l : Ptr} (xs ys fs : List Ptr)
    → q ≢ null
    → q ≢ free_links
    → IsQueue s q (xs ++ l ∷ ys)
    → IsQueue s free_links fs
    → Removes s q l xs ys fs (remove (some l) s)
unfolding remove
remove-Removes {s} {q} {l} xs ys fs nq nf w free =
    let (front, back) = Chain-split s.links q null xs (l ∷ ys) null w.chain in
    let (d, outx, outy) = Distinct-delete l xs ys w.distinct in
    let t = detach q l s in
    let e1 : (l == null) ≡ false = ground (arith, back.0.ne_null) in
    let e2 : (q == null) ≡ false = ground arith in
    let out : has l fs ≡ false = not-has_of_IsQueue free l w nf (has_self l xs ys w) in
    let freed : Inserts t free_links l fs [] (insert_last free_links l t) =
      insert_last-Inserts (λ z. absurd (omega arith)) fs
        (detach-others l xs ys w free_links fs (λ e. nf (sym e)) free)
        (record { ne_null = back.0.ne_null; in_pool = back.0.in_pool; absent = out }) in
    rw (e1, back.0.queue_eq, e2)
      (
        refl,
        refl,
        record {
          queue =
              freed.1.others q (xs ++ ys) nf (detach-IsQueue l xs ys w)
                (ground (arith, has-append l xs ys));
          freed = freed.1.queue;
          others = λ p ws ne nfree v.
              freed.1.others p ws nfree (detach-others l xs ys w p ws ne v)
                (not-has_of_IsQueue v l w (λ e. ne (sym e)) (has_self l xs ys w));
          objects = λ a. freed.1.objects a ∙ detach-objects l xs ys w a;
        },
      )

-- `AQueueAllocLink` without a free link gives null and changes nothing.
pub alloc_link-none :
    (s : Store) (obj : Ptr) → IsQueue s free_links [] → alloc_link obj s ≡ (null, s)
unfolding alloc_link
alloc_link-none s obj w = rw (is_empty-nil w)

-- What the allocation of the first free link leaves.
pub record Allocated (s t : Store) (l obj : Ptr) (fs : List Ptr) : Type 0 where
  pub free : IsQueue t free_links fs
  pub cleared : t.links l ≡ record { next = null; prev = null; queue = null; object = obj }
  pub others : (p : Ptr) (ws : List Ptr) → p ≢ free_links → IsQueue s p ws → IsQueue t p ws
  pub objects : (a : Ptr) → (a == l) ≡ false → (t.links a).object ≡ (s.links a).object

-- The store with `l` off the free links and blank but for its object.
abbrev claim : Ptr → Ptr → Store → Store
claim l obj s =
    with_queue
      (with_links s (
        update (unlink l s.links) l
          (record { next = null; prev = null; queue = null; object = obj })))
      free_links (drop_ends s.links l (s.queues free_links))

module _ (s : Store) (obj l : Ptr) (fs : List Ptr) (w : IsQueue s free_links (l ∷ fs)) where
  alloc_link-claim : alloc_link obj s ≡ (l, claim l obj s)
  unfolding alloc_link
  alloc_link-claim =
      let e1 : (l == null) ≡ false = ground (arith, w.chain.0.ne_null) in
      rw (first-head_or w, is_empty-cons w, e1)

  claim-spared :
      (p : Ptr) (ws : List Ptr)
      → IsQueue (detach free_links l s) p ws
      → has l ws ≡ false
      → IsQueue (claim l obj s) p ws
  claim-spared p ws v out = IsQueue-frame v _ refl (λ a m. rw (ne_of_has_not a l ws out m))

  claim-Allocated : Allocated s (claim l obj s) l obj fs
  claim-Allocated = record {
    free = claim-spared free_links fs (detach-IsQueue l [] fs w) w.distinct.0;
    cleared = update_self (unlink l s.links) l _;
    others = λ p ws ne v.
        claim-spared p ws (detach-others l [] fs w p ws ne v)
          (not-has_of_IsQueue v l w (λ e. ne (sym e)) (has_self l [] fs w));
    objects = λ a e. rw e (detach-objects l [] fs w a);
  }

  -- `AQueueAllocLink` hands out the first free link.
  pub alloc_link-Allocated : let (got, t) = alloc_link obj s in (got ≡ l) × Allocated s t l obj fs
  alloc_link-Allocated = rw alloc_link-claim (refl, claim-Allocated)
