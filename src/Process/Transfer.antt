-- ===== src/Process/Transfer.antt =====
-- A process leaves one queue for another with a new link: the common part of `ProcessSuspend`,
-- `ProcessWakeup`, `ProcessDestroy` and the burial of zombies.
use mathlib.Core.Path.{subst}
use ece695os_lab.Prelude.{
  ℕ, ◌≡◌, ◌≢◌, false, List, ◌∷◌, ◌++◌, ◌==◌, refl, some, arith, has, has-append, length, ap, sym,
  ==_self,
}
use ece695os_lab.Queue
use ece695os_lab.Queue.{Ptr, null, success, Store, free_links}
use ece695os_lab.Queue.IsQueue.{IsQueue, not-has_of_IsQueue}
use ece695os_lab.Queue.Insert.{IsFresh}
use ece695os_lab.Queue.Remove.{remove-Removes, Distinct-delete, has_self}
use ece695os_lab.Queue.Claim.{
  Claimed, Claimed-IsFresh, Claimed-absent, freed_store, remove-alloc_link,
}
use ece695os_lab.Kernel.{Pcb, Os, ◌⨾◌, set_pcb}
use ece695os_lab.Process.{remove_link, alloc_link, insert_last, insert_first}
use ece695os_lab.Process.Holds.{
  Holds, links_of, Owned, links_of-append, Owned-append, Owned-split, absent_of_link,
  links_of-frame, Owned-frame,
}

-- The state once the process `p` has left the queue `q` and has a new link, on no queue yet.
pub record Relinked (s t : Os) (q p : Ptr) (zs : List Ptr) (n : ℕ) : Type 0 where
  pub source : Holds t q zs
  pub others :
      (u : Ptr) (ws : List Ptr)
      → u ≢ null
      → u ≢ q
      → u ≢ free_links
      → Holds s u ws
      → Holds t u ws × (has p ws ≡ false)
  pub waiting :
      (u : Ptr) (ws : List Ptr)
      → u ≢ q
      → u ≢ free_links
      → IsQueue s.store u ws
      → IsQueue t.store u ws
  pub free : (gs : List Ptr) × IsQueue t.store free_links gs × (length gs ≡ n)
  pub fresh :
      (u : Ptr) (ws : List Ptr) → u ≢ null → IsQueue t.store u ws → IsFresh (t.pcbs p).link ws
  pub absent : has p zs ≡ false
  pub object : (t.store.links (t.pcbs p).link).object ≡ p
  pub objects :
      (a : Ptr)
      → (a == (t.pcbs p).link) ≡ false
      → (t.store.links a).object ≡ (s.store.links a).object
  pub pcbs : (a : Ptr) → (a == p) ≡ false → t.pcbs a ≡ s.pcbs a
  pub pcb : t.pcbs p ≡ record (s.pcbs p) { link = (t.pcbs p).link }
  pub rest : t ≡ record s { store = t.store; pcbs = t.pcbs }

-- The state behind `remove_link` and `alloc_link`.
abbrev pub relink : Ptr → Os → Os
relink p s =
    let t1 = freed_store (s.pcbs p).link s.store in
    let s1 = set_pcb p (record (s.pcbs p) { link = null }) (record s { store = t1 }) in
    let (m, t2) = Queue.alloc_link p t1 in
    set_pcb p (record (s1.pcbs p) { link = m }) (record s1 { store = t2 })

relink-pcb : (p : Ptr) (s : Os) (a : Ptr) → (a == p) ≡ false → (relink p s).pcbs a ≡ s.pcbs a
relink-pcb p s a e = rw e

pub remove_link-some :
    (p : Ptr) (s : Os)
    → (Queue.remove (some (s.pcbs p).link) s.store).0 ≡ success
    → (Queue.remove (some (s.pcbs p).link) s.store).1 ≡ some null
    → remove_link p s
      ≡ some (
          set_pcb p
            (record (s.pcbs p) { link = null })
            (record s { store = freed_store (s.pcbs p).link s.store }))
unfolding remove_link
remove_link-some p s e e' = rw (e, e', remove_link)

pub alloc_link-some :
    (p : Ptr) (s : Os)
    → ((Queue.alloc_link p s.store).0 == null) ≡ false
    → alloc_link p s
      ≡ some (
          set_pcb p
            (record (s.pcbs p) { link = (Queue.alloc_link p s.store).0 })
            (record s { store = (Queue.alloc_link p s.store).1 }))
unfolding alloc_link
alloc_link-some p s e = rw e

pub insert_last-some :
    (r p : Ptr) (s : Os)
    → (Queue.insert_last r (s.pcbs p).link s.store).0 ≡ success
    → insert_last r p s
      ≡ some (record s { store = (Queue.insert_last r (s.pcbs p).link s.store).1 })
unfolding insert_last
insert_last-some r p s e = rw (e, insert_last)

pub insert_first-some :
    (r p : Ptr) (s : Os)
    → (Queue.insert_first r (s.pcbs p).link s.store).0 ≡ success
    → insert_first r p s
      ≡ some (record s { store = (Queue.insert_first r (s.pcbs p).link s.store).1 })
unfolding insert_first
insert_first-some r p s e = rw (e, insert_first)

module _ (s : Os) (q p : Ptr) (xs ys fs : List Ptr) (nq : q ≢ null) (nf : q ≢ free_links)
    (h : Holds s q (xs ++ p ∷ ys)) (free : IsQueue s.store free_links fs) where
  at_link : IsQueue s.store q (links_of s.pcbs xs ++ (s.pcbs p).link ∷ links_of s.pcbs ys)
  at_link = subst (IsQueue s.store q) (links_of-append s.pcbs xs (p ∷ ys)) h.queue

  claimed :
      let (m, t) = Queue.alloc_link p (freed_store (s.pcbs p).link s.store) in
      Claimed s.store t q m p (links_of s.pcbs xs ++ links_of s.pcbs ys) (length fs)
  claimed =
      remove-alloc_link (s.pcbs p).link p (links_of s.pcbs xs) (links_of s.pcbs ys) fs nq nf at_link
        free

  pub relink-some : (remove_link p ⨾ alloc_link p) s ≡ some (relink p s)
  relink-some =
      let r = remove-Removes (links_of s.pcbs xs) (links_of s.pcbs ys) fs nq nf at_link free in
      rw (remove_link-some p s r.0 r.1, ◌⨾◌)
        (alloc_link-some p
          (set_pcb p (record (s.pcbs p) { link = null })
            (record s { store = freed_store (s.pcbs p).link s.store }))
          (ground (arith, claimed.ne_null)))

  relink_link :
      ((relink p s).pcbs p).link ≡ (Queue.alloc_link p (freed_store (s.pcbs p).link s.store)).0
  relink_link = rw (==_self p)

  relink_absent : has p (xs ++ ys) ≡ false
  relink_absent =
      let (d, outx, outy) =
        Distinct-delete (s.pcbs p).link (links_of s.pcbs xs) (links_of s.pcbs ys)
          at_link.distinct in
      ground (
        arith,
        has-append p xs ys,
        absent_of_link s.pcbs p xs outx,
        absent_of_link s.pcbs p ys outy,
      )

  -- Processes that stand elsewhere keep their links and those keep their objects.
  relink-Holds :
      (u : Ptr) (ws : List Ptr)
      → u ≢ null
      → has p ws ≡ false
      → Owned s.pcbs s.store ws
      → IsQueue (relink p s).store u (links_of s.pcbs ws)
      → Holds (relink p s) u ws
  relink-Holds u ws nu out o v =
      let same =
        λ (a : Ptr) (e : (a == p) ≡ false). ap (λ (v : Pcb). v.link) (relink-pcb p s a e) in
      let e : links_of (relink p s).pcbs ws ≡ links_of s.pcbs ws =
        links_of-frame (relink p s).pcbs s.pcbs p ws out same in
      record {
        queue = rw e v;
        owned =
            Owned-frame (relink p s).pcbs s.pcbs s.store (relink p s).store p _ ws out
              (Claimed-absent claimed nu v) same claimed.objects o;
      }

  pub relink-Relinked : Relinked s (relink p s) q p (xs ++ ys) (length fs)
  relink-Relinked =
      let (ox, oy) = Owned-split s.pcbs s.store xs (p ∷ ys) h.owned in
      record {
        source =
            relink-Holds q (xs ++ ys) nq relink_absent (Owned-append s.pcbs s.store xs ys ox oy.1) (
              subst (IsQueue (relink p s).store q) (sym (links_of-append s.pcbs xs ys))
                claimed.queue);
        others = λ u ws nu ne nfree v.
            let out = other_absent u ws ne v in
            (
              relink-Holds u ws nu out v.owned
                  (claimed.others u (links_of s.pcbs ws) ne nfree v.queue),
              out,
            );
        waiting = λ u ws ne nfree v. claimed.others u ws ne nfree v;
        free = claimed.free;
        fresh = λ u ws nu v. rw relink_link (Claimed-IsFresh claimed nu v);
        absent = relink_absent;
        object = rw relink_link claimed.object;
        objects = λ a e. claimed.objects a (rw relink_link at e);
        pcbs = relink-pcb p s;
        pcb = rw (==_self p);
        rest = refl;
      }
    where
      other_absent : (u : Ptr) (ws : List Ptr) → u ≢ q → Holds s u ws → has p ws ≡ false
      other_absent u ws ne v = absent_of_link s.pcbs p ws (
          not-has_of_IsQueue v.queue (s.pcbs p).link at_link (λ e. ne (sym e))
            (has_self (s.pcbs p).link (links_of s.pcbs xs) (links_of s.pcbs ys) at_link))
