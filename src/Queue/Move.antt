-- ===== src/Queue/Move.antt =====
-- `AQueueMoveAfter` of os/queue.c.
use mathlib.Core.List.{append-nil}
use mathlib.Core.Path.{subst}
use ece695os_lab.Prelude.{
  ◌≡◌, ◌≢◌, true, false, List, [], ◌∷◌, ◌++◌, ◌==◌, if◌then◌else◌, refl, arith, head_or, last_or,
  has, length, Distinct, Distinct-split, Apart-has, ne_of_has_not, last_or-ne, head_or-ne,
  has-append, has-last_or, last_or-append, length-append, sym, ◌∙◌, ==_self, update-ne, ap,
}
use ece695os_lab.Queue.{
  Ptr, null, success, Links, Store, fix_next, fix_prev, with_queue, with_links, first, last,
  unlink_back, relink, move_after,
}
use ece695os_lab.Queue.Chain.{Chain, Chain-frame, Chain-split, Chain-last_next, ne_of_has}
use ece695os_lab.Queue.Splice.{spliced, spliced-Chain, bypass, bypass-Chain, unlink_back_lem}
use ece695os_lab.Queue.IsQueue.{
  IsQueue, IsQueue-queue, IsQueue-ne_null, IsQueue-frame, not-has_of_IsQueue, first-head_or,
  last-last_or, spliced-ne, bypass-ne,
}
use ece695os_lab.Queue.Insert.{moved_last, Distinct-insert, spliced-object}
use ece695os_lab.Queue.Remove.{dropped_first, Distinct-delete, bypass-object}

-- The queue keeps its links in a new order, and nothing else changes.
pub record Moved (s t : Store) (q : Ptr) (zs : List Ptr) : Type 0 where
  pub queue : IsQueue t q zs
  pub others : (p : Ptr) (ws : List Ptr) → p ≢ q → IsQueue s p ws → IsQueue t p ws
  pub objects : (a : Ptr) → (t.links a).object ≡ (s.links a).object

relink_lem :
    (q at l after : Ptr) (h : Links)
    → (h at).next ≡ after
    → (h l).queue ≡ q
    → (l == at) ≡ false
    → (at == null) ≡ false
    → (x : Ptr) → relink at l h x ≡ spliced q at l after h x
unfolding relink fix_next fix_prev
relink_lem q at l after h n e ne z x = ground arith

abbrev move_store : Store → Ptr → Ptr → Ptr → Store
move_store s q at l =
    let v = s.queues q in
    with_queue (with_links s (relink at l (unlink_back l s.links))) q (record v {
      first = if v.first == l then (s.links l).next else v.first;
      last = if v.last == at then l else v.last;
    })

-- The link `l`, not the last one, goes behind the link that ends `c ∷ cs`.
module _ (s : Store) (q l : Ptr) (xs : List Ptr) (y : Ptr) (ys : List Ptr) (c : Ptr)
    (cs ds : List Ptr) (nq : q ≢ null) (w : IsQueue s q (xs ++ l ∷ y ∷ ys))
    (same : xs ++ y ∷ ys ≡ c ∷ cs ++ ds) where
  has-at : has (last_or cs c) (xs ++ y ∷ ys) ≡ true
  has-at = rw (same, has-append (last_or cs c) (c ∷ cs) ds, has-last_or c cs)

  has-at_full : has (last_or cs c) (xs ++ l ∷ y ∷ ys) ≡ true
  has-at_full =
      let m = has-at in
      ground
        (arith, has-append (last_or cs c) xs (y ∷ ys), has-append (last_or cs c) xs (l ∷ y ∷ ys))

  absent : has l (c ∷ cs ++ ds) ≡ false
  absent =
      let (d, outx, outy) = Distinct-delete l xs (y ∷ ys) w.distinct in
      subst (λ zs. has l zs ≡ false) same (rw (has-append l xs (y ∷ ys), outx) outy)

  removed : (a : Ptr) → unlink_back l s.links a ≡ bypass (last_or xs null) y s.links a
  removed =
      let (front, back) = Chain-split s.links q null xs (l ∷ y ∷ ys) null w.chain in
      let (d, outx, outy) = Distinct-delete l xs (y ∷ ys) w.distinct in
      unlink_back_lem (last_or xs null) l y s.links back.0.prev_eq back.0.next_eq (ground arith)

  rest : Chain (unlink_back l s.links) q null (c ∷ cs ++ ds) null
  rest =
      subst (λ zs. Chain (unlink_back l s.links) q null zs null) same
        (Chain-frame (bypass (last_or xs null) y s.links) q (unlink_back l s.links) null
          (xs ++ y ∷ ys) null (bypass-Chain s.links q l xs (y ∷ ys) w.chain w.distinct)
          (λ a m. removed a))

  moved :
      (a : Ptr)
      → relink (last_or cs c) l (unlink_back l s.links) a
        ≡ spliced q (last_or cs c) l (head_or ds null) (unlink_back l s.links) a
  moved =
      let (front, back) = Chain-split s.links q null xs (l ∷ y ∷ ys) null w.chain in
      let (front', back') = Chain-split (unlink_back l s.links) q null (c ∷ cs) ds null rest in
      let (d, outx, outy) = Distinct-delete l xs (y ∷ ys) w.distinct in
      relink_lem q (last_or cs c) l (head_or ds null) (unlink_back l s.links)
        (Chain-last_next (unlink_back l s.links) q null c cs (head_or ds null) front')
        (rw
          (
            removed l,
            bypass-ne (last_or xs null) y s.links l
                (last_or-ne l null xs (ground (arith, back.0.ne_null)) outx) (ground arith),
          )
          back.0.queue_eq)
        (ne_of_has l (last_or cs c) (c ∷ cs ++ ds) absent
          (subst (λ zs. has (last_or cs c) zs ≡ true) same has-at))
        (IsQueue-ne_null w (last_or cs c) has-at_full)

  moved-ne :
      (a : Ptr)
      → (a == null) ≡ false
      → has a (xs ++ l ∷ y ∷ ys) ≡ false
      → relink (last_or cs c) l (unlink_back l s.links) a ≡ s.links a
  moved-ne a z out =
      let outside : has a (c ∷ cs ++ ds) ≡ false =
        subst (λ zs. has a zs ≡ false) same
          (ground (arith, has-append a xs (y ∷ ys), has-append a xs (l ∷ y ∷ ys))) in
      moved a
      ∙ spliced-ne q (last_or cs c) l (head_or ds null) (unlink_back l s.links) a
          (ground (arith, has-append a xs (l ∷ y ∷ ys)))
          (last_or-ne a null (c ∷ cs) z (ground (arith, has-append a (c ∷ cs) ds)))
          (head_or-ne a ds z (ground (arith, has-append a (c ∷ cs) ds)))
      ∙ removed a
      ∙ bypass-ne (last_or xs null) y s.links a
          (last_or-ne a null xs z (ground (arith, has-append a xs (l ∷ y ∷ ys))))
          (ground (arith, has-append a xs (l ∷ y ∷ ys)))

  move_store-IsQueue : IsQueue (move_store s q (last_or cs c) l) q (c ∷ cs ++ l ∷ ds)
  move_store-IsQueue =
      let (front, back) = Chain-split s.links q null xs (l ∷ y ∷ ys) null w.chain in
      let (d, outx, outy) = Distinct-delete l xs (y ∷ ys) w.distinct in
      let d' = subst Distinct same d in
      let (dx, dy, apart) = Distinct-split (c ∷ cs) ds d' in
      let v = s.queues q in
      record {
        first_eq = rw (==_self q) (
            dropped_first l v.first _ xs (y ∷ ys) w.first_eq back.0.next_eq outx
            ∙ ap (λ zs. head_or zs null) same);
        last_eq =
            rw (==_self q, last_or-append cs (l ∷ ds) c)
              (moved_last (last_or cs c) l v.last ds
                (w.last_eq
                  ∙ last_or-append xs (l ∷ y ∷ ys) null
                  ∙ sym (last_or-append xs (y ∷ ys) null)
                  ∙ ap (λ zs. last_or zs null) same
                  ∙ last_or-append cs ds c)
                (Apart-has (last_or cs c) (c ∷ cs) ds apart (has-last_or c cs)));
        nitems_eq = rw (==_self q) (
            w.nitems_eq
            ∙ omega (
              arith,
              length-append xs (l ∷ y ∷ ys),
              length-append xs (y ∷ ys),
              ap length same,
              length-append cs (l ∷ ds),
              length-append cs ds,
            ));
        chain =
            Chain-frame (spliced q (last_or cs c) l (head_or ds null) (unlink_back l s.links)) q
              (relink (last_or cs c) l (unlink_back l s.links)) null (c ∷ cs ++ l ∷ ds) null
              (spliced-Chain (unlink_back l s.links) q l (c ∷ cs) ds rest d' back.0.ne_null
                back.0.in_pool (ground (arith, absent, has-append l (c ∷ cs) ds))
                (ground (arith, absent, has-append l (c ∷ cs) ds)))
              (λ a m. moved a);
        distinct = Distinct-insert l (c ∷ cs) ds d' absent;
      }

  move_store-Moved : Moved s (move_store s q (last_or cs c) l) q (c ∷ cs ++ l ∷ ds)
  move_store-Moved = record {
    queue = move_store-IsQueue;
    others = λ p ws ne v.
        IsQueue-frame v (move_store s q (last_or cs c) l) (update-ne s.queues q _ ne)
          (λ a m. moved-ne a (IsQueue-ne_null v a m) (not-has_of_IsQueue w a v ne m));
    objects = λ a.
        rw
          (
            moved a,
            spliced-object q (last_or cs c) l (head_or ds null) (unlink_back l s.links) a,
            removed a,
          )
          (bypass-object (last_or xs null) y s.links a);
  }

  -- `AQueueMoveAfter` of a link that is not the last of its queue succeeds and moves it behind any
  -- other link of the queue; the other queues and all objects are as before.
  pub move_after-Moved :
      let (st, t) = move_after q (last_or cs c) l s in
      (st ≡ success) × Moved s t q (c ∷ cs ++ l ∷ ds)
  unfolding move_after
  move_after-Moved =
      let (d, outx, outy) = Distinct-delete l xs (y ∷ ys) w.distinct in
      let m : has l (xs ++ l ∷ y ∷ ys) ≡ true = ground (arith, has-append l xs (l ∷ y ∷ ys)) in
      let e1 : (q == null) ≡ false = ground arith in
      let e2 : (l == null) ≡ false = IsQueue-ne_null w l m in
      let e3 : (last_or cs c == null) ≡ false = IsQueue-ne_null w (last_or cs c) has-at_full in
      let e4 : (last_or cs c == l) ≡ false =
        ne_of_has_not (last_or cs c) l (c ∷ cs ++ ds) absent
          (subst (λ zs. has (last_or cs c) zs ≡ true) same has-at) in
      let e5 : (last s q == l) ≡ false =
        rw (last-last_or w, last_or-append xs (l ∷ y ∷ ys) null)
          (ne_of_has_not (last_or ys y) l (y ∷ ys) outy (has-last_or y ys)) in
      rw
        (
          e1,
          e2,
          IsQueue-queue w l m,
          e3,
          IsQueue-queue w (last_or cs c) has-at_full,
          ==_self q,
          e4,
          e5,
        )
        (refl, move_store-Moved)

-- A link behind itself stays where it is.
move_after_self :
    (s : Store) (q l : Ptr) (xs : List Ptr)
    → q ≢ null
    → IsQueue s q xs
    → has l xs ≡ true
    → move_after q l l s ≡ (success, s)
unfolding move_after
move_after_self s q l xs nq w m =
    let e1 : (q == null) ≡ false = ground arith in
    rw (e1, IsQueue-ne_null w l m, IsQueue-queue w l m, ==_self q, ==_self l)

-- The move of the scheduler, of the first link behind the last one, succeeds on any queue that is
-- not empty and rotates it.
pub move_after-rotate :
    (s : Store) (q l : Ptr) (ys : List Ptr)
    → q ≢ null
    → IsQueue s q (l ∷ ys)
    → let (st, t) = move_after q (last s q) (first s q) s in
      (st ≡ success) × Moved s t q (ys ++ l ∷ [])
move_after-rotate s q l [] nq w =
    rw (first-head_or w, last-last_or w, move_after_self s q l (l ∷ []) nq w (ground arith))
      (refl, record { queue = w; others = λ p ws ne v. v; objects = λ a. refl })
move_after-rotate s q l (y ∷ ys) nq w =
    rw (first-head_or w, last-last_or w)
      (move_after-Moved s q l [] y ys y ys [] nq w (sym (append-nil _)))
