-- ===== src/Queue/Claim.antt =====
-- A removal followed by an allocation, as each change of a process's state makes them.
use ece695os_lab.Prelude.{
  ℕ, ◌≤◌, ◌≡◌, ◌≢◌, false, List, [], ◌∷◌, ◌++◌, ◌==◌, refl, some, arith, has, length, length-append,
  ◌∙◌, sym,
}
use ece695os_lab.Queue.{Ptr, null, success, Store, queue_max_links, free_links, alloc_link, remove}
use ece695os_lab.Queue.IsQueue.{IsQueue, not-has_of_queue}
use ece695os_lab.Queue.Insert.{IsFresh}
use ece695os_lab.Queue.Remove.{Removes, remove-Removes, Allocated, alloc_link-Allocated}

-- The link `l` has left the queue `q`, and `m` is handed out for the object.
pub record Claimed (s t : Store) (q m obj : Ptr) (xs : List Ptr) (n : ℕ) : Type 0 where
  pub queue : IsQueue t q xs
  pub free : (gs : List Ptr) × IsQueue t free_links gs × (length gs ≡ n)
  pub others : (p : Ptr) (ws : List Ptr) → p ≢ q → p ≢ free_links → IsQueue s p ws → IsQueue t p ws
  pub ne_null : m ≢ null
  pub in_pool : m ≤ queue_max_links
  pub unmarked : (t.links m).queue ≡ null
  pub object : (t.links m).object ≡ obj
  pub objects : (a : Ptr) → (a == m) ≡ false → (t.links a).object ≡ (s.links a).object

module _ {s t : Store} {q m obj : Ptr} {xs : List Ptr} {n : ℕ} (c : Claimed s t q m obj xs n) where
  -- The link that was handed out is on no queue.
  pub Claimed-absent : {p : Ptr} {ws : List Ptr} → p ≢ null → IsQueue t p ws → has m ws ≡ false
  Claimed-absent np v = not-has_of_queue v m (λ e. np (sym e ∙ c.unmarked))

  pub Claimed-IsFresh : {p : Ptr} {ws : List Ptr} → p ≢ null → IsQueue t p ws → IsFresh m ws
  Claimed-IsFresh np v = record {
    ne_null = c.ne_null;
    in_pool = c.in_pool;
    absent = Claimed-absent np v;
  }

claim_free :
    (s t u : Store) (q l obj m : Ptr) (xs ys fs gs : List Ptr)
    → IsQueue t free_links (m ∷ gs)
    → length gs ≡ length fs
    → Removes s q l xs ys fs (success, some null, t)
    → q ≢ free_links
    → Allocated t u m obj gs
    → Claimed s u q m obj (xs ++ ys) (length fs)
claim_free s t u q l obj m xs ys fs gs free n r nf a = record {
  queue = a.others q (xs ++ ys) nf r.2.queue;
  free = (gs, a.free, n);
  others = λ p ws ne nfree v. a.others p ws nfree (r.2.others p ws ne nfree v);
  ne_null = free.chain.0.ne_null;
  in_pool = free.chain.0.in_pool;
  unmarked = rw (a.cleared);
  object = rw (a.cleared);
  objects = λ b e. a.objects b e ∙ r.2.objects b;
}

abbrev pub freed_store : Ptr → Store → Store
freed_store l s = (remove (some l) s).2

-- After the removal of a link from a queue other than the free links there is always a link to hand
-- out, if no other the one that was just given back; it is on no queue and holds the object, as many
-- links are free as before the two, and the other queues are as before.
pub remove-alloc_link :
    {s : Store} {q : Ptr} (l obj : Ptr) (xs ys fs : List Ptr)
    → q ≢ null
    → q ≢ free_links
    → IsQueue s q (xs ++ l ∷ ys)
    → IsQueue s free_links fs
    → let (m, t) = alloc_link obj (freed_store l s) in Claimed s t q m obj (xs ++ ys) (length fs)
remove-alloc_link {s} {q} l obj xs ys [] nq nf w free =
    let r = remove-Removes xs ys [] nq nf w free in
    let (e, a) = alloc_link-Allocated (freed_store l s) obj l [] r.2.freed in
    rw e
      (claim_free s (freed_store l s) _ q l obj l xs ys [] [] r.2.freed refl (refl, refl, r.2) nf a)
remove-alloc_link {s} {q} l obj xs ys (f ∷ fs) nq nf w free =
    let r = remove-Removes xs ys (f ∷ fs) nq nf w free in
    let (e, a) = alloc_link-Allocated (freed_store l s) obj f (fs ++ l ∷ []) r.2.freed in
    rw e (
      claim_free s (freed_store l s) _ q l obj f xs ys (f ∷ fs) (fs ++ l ∷ []) r.2.freed
        (omega (arith, length-append fs (l ∷ []))) (refl, refl, r.2) nf a)
