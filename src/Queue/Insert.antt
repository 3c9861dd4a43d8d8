-- ===== src/Queue/Insert.antt =====
-- The four insertions of os/queue.c.
use ece695os_lab.Prelude.{
  ℕ, ◌≤◌, ◌≡◌, ◌≢◌, true, false, List, [], ◌∷◌, ◌++◌, ◌==◌, refl, arith, head_or, last_or, has,
  length, Distinct, Distinct-split, Apart-has, Apart-has_right, last_or-ne, head_or-ne,
  ne_of_has_not, has-append, has-last_or, last_or-append, ==_self, update-ne, length-append,
  if◌then◌else◌, ◌∙◌,
}
use mathlib.Core.List.{append-nil}
use ece695os_lab.Queue.{
  Ptr, null, Status, success, Links, Store, queue_max_links, fix_next, fix_prev, incr, may_insert,
  insert_after, insert_before, insert_first, insert_last,
}
use ece695os_lab.Queue.Chain.{Chain-frame, Chain-split, Chain-last_next, ne_of_has}
use ece695os_lab.Queue.Splice.{spliced, spliced-Chain, splice_after_lem, splice_before_lem}
use ece695os_lab.Queue.IsQueue.{
  IsQueue, length-le, IsQueue-queue, IsQueue-ne_null, IsQueue-frame, not-has_of_IsQueue, spliced-ne,
}

-- What an insertion of `l` between the parts `xs` and `ys` of the queue `q` leaves.
pub record Inserted (s t : Store) (q l : Ptr) (xs ys : List Ptr) : Type 0 where
  pub queue : IsQueue t q (xs ++ l ∷ ys)
  pub others :
      (p : Ptr) (ws : List Ptr) → p ≢ q → IsQueue s p ws → has l ws ≡ false → IsQueue t p ws
  pub objects : (a : Ptr) → (t.links a).object ≡ (s.links a).object

-- A link that may be inserted: of the pool, and not on the list.
pub record IsFresh (l : Ptr) (zs : List Ptr) : Type 0 where
  pub ne_null : l ≢ null
  pub in_pool : l ≤ queue_max_links
  pub absent : has l zs ≡ false

pub Distinct-insert :
    (l : Ptr) (xs ys : List Ptr)
    → Distinct (xs ++ ys)
    → has l (xs ++ ys) ≡ false
    → Distinct (xs ++ l ∷ ys)
Distinct-insert l [] ys d h = (h, d)
Distinct-insert l (x ∷ xs) ys d h = (
  ground (arith, has-append x xs (l ∷ ys), has-append x xs ys, d.0),
  Distinct-insert l xs ys d.1 (ground arith),
)

pub spliced-object :
    (q before l after : Ptr) (h : Links) (a : Ptr)
    → (spliced q before l after h a).object ≡ (h a).object
unfolding fix_next fix_prev
spliced-object q before l after h a = ground arith

module _ {s : Store} {q l : Ptr} (xs ys : List Ptr) (w : IsQueue s q (xs ++ ys))
    (fresh : IsFresh l (xs ++ ys)) where
  insert-others :
      (t : Store) (p : Ptr) (ws : List Ptr)
      → ((a : Ptr) → t.links a ≡ spliced q (last_or xs null) l (head_or ys null) s.links a)
      → t.queues p ≡ s.queues p
      → p ≢ q
      → IsQueue s p ws
      → has l ws ≡ false
      → IsQueue t p ws
  insert-others t p ws links e ne v out = IsQueue-frame v t e λ a m.
      let z = IsQueue-ne_null v a m in
      let away = not-has_of_IsQueue w a v ne m in
      let (outx, outy) = outside a away in
      links a
      ∙ spliced-ne q (last_or xs null) l (head_or ys null) s.links a (ne_of_has_not a l ws out m)
          (last_or-ne a null xs z outx) (head_or-ne a ys z outy)
    where
      outside : (a : Ptr) → has a (xs ++ ys) ≡ false → (has a xs ≡ false) × (has a ys ≡ false)
      outside a m = ground (arith, has-append a xs ys)

  Inserted-of :
      (t : Store)
      → ((a : Ptr) → t.links a ≡ spliced q (last_or xs null) l (head_or ys null) s.links a)
      → ((p : Ptr) → p ≢ q → t.queues p ≡ s.queues p)
      → (t.queues q).first ≡ head_or (xs ++ l ∷ ys) null
      → (t.queues q).last ≡ last_or (xs ++ l ∷ ys) null
      → (t.queues q).nitems ≡ length (xs ++ l ∷ ys)
      → Inserted s t q l xs ys
  Inserted-of t links heads f b n = record {
    queue = record {
      first_eq = f;
      last_eq = b;
      nitems_eq = n;
      chain =
          Chain-frame (spliced q (last_or xs null) l (head_or ys null) s.links) q t.links null
            (xs ++ l ∷ ys) null
            (spliced-Chain s.links q l xs ys w.chain w.distinct fresh.ne_null fresh.in_pool
              (ground (arith, has-append l xs ys, fresh.absent))
              (ground (arith, has-append l xs ys, fresh.absent)))
            (λ a m. links a);
      distinct = Distinct-insert l xs ys w.distinct fresh.absent;
    };
    others = λ p ws ne. insert-others t p ws links (heads p ne) ne;
    objects = λ a. rw (links a) (spliced-object q (last_or xs null) l (head_or ys null) s.links a);
  }

-- An insertion that succeeds, between the two parts.
abbrev pub Inserts : Store → Ptr → Ptr → List Ptr → List Ptr → Status × Store → Type 0
Inserts s q l xs ys (st, t) = (st ≡ success) × Inserted s t q l xs ys

may_insert_empty : (s : Store) (q : Ptr) → IsQueue s q [] → may_insert s q null ≡ true
unfolding may_insert
may_insert_empty s q w = ground (arith, w.first_eq, w.last_eq, w.nitems_eq)

may_insert_at :
    (s : Store) (q at : Ptr)
    → (at == null) ≡ false
    → (s.links at).queue ≡ q
    → may_insert s q at ≡ true
unfolding may_insert
may_insert_at s q at z e = ground arith

-- The end of the queue moves when the neighbour was the end.
pub moved_last :
    (at l b : Ptr) (ys : List Ptr)
    → b ≡ last_or ys at
    → has at ys ≡ false
    → (if b == at then l else b) ≡ last_or ys l
moved_last at l b [] e h = ground arith
moved_last at l b (y ∷ ys) e h =
    ground (arith, ne_of_has_not (last_or ys y) at (y ∷ ys) h (has-last_or y ys))

moved_first :
    (y l b : Ptr) (xs ys : List Ptr)
    → b ≡ head_or (xs ++ y ∷ ys) null
    → has y xs ≡ false
    → (if b == y then l else b) ≡ head_or (xs ++ l ∷ y ∷ ys) null
moved_first y l b [] ys e h = ground arith
moved_first y l b (x ∷ xs) ys e h = ground arith

incr-length :
    (n : ℕ) (l : Ptr) (xs ys : List Ptr)
    → n ≡ length (xs ++ ys)
    → n ≤ queue_max_links
    → incr n ≡ length (xs ++ l ∷ ys)
incr-length n l xs ys e small = omega (arith, length-append xs ys, length-append xs (l ∷ ys))

module _ {s : Store} {q l : Ptr} (nq : q ≢ null) where
  nil-insert_after : IsQueue s q [] → IsFresh l [] → Inserts s q l [] [] (insert_after q null l s)
  unfolding insert_after
  nil-insert_after w fresh =
      let e1 : (l == null) ≡ false = ground (arith, fresh.ne_null) in
      let e2 : (q == null) ≡ false = ground arith in
      rw (e1, e2, may_insert_empty s q w)
        (
          refl,
          Inserted-of [] [] w fresh _
              (splice_after_lem q null l null s.links (λ n. absurd (n refl)) (λ z. refl) e1)
              (λ p ne. ground arith) (ground arith) (ground arith) (ground arith),
        )

  nil-insert_before : IsQueue s q [] → IsFresh l [] → Inserts s q l [] [] (insert_before q null l s)
  unfolding insert_before
  nil-insert_before w fresh =
      let e1 : (l == null) ≡ false = ground (arith, fresh.ne_null) in
      let e2 : (q == null) ≡ false = ground arith in
      rw (e1, e2, may_insert_empty s q w)
        (
          refl,
          Inserted-of [] [] w fresh _
              (splice_before_lem q null l null s.links (λ n. absurd (n refl)) (λ z. refl) e1)
              (λ p ne. ground arith) (ground arith) (ground arith) (ground arith),
        )

  -- `AQueueInsertAfter` of a fresh link on a queue that is not empty succeeds and puts the link
  -- between two parts of the queue, the neighbour being the last link of the first part.
  pub cons-insert_after :
      (x : Ptr) (xs ys : List Ptr)
      → IsQueue s q (x ∷ xs ++ ys)
      → IsFresh l (x ∷ xs ++ ys)
      → Inserts s q l (x ∷ xs) ys (insert_after q (last_or xs x) l s)
  unfolding insert_after
  cons-insert_after x xs ys w fresh =
      let at = last_or xs x in
      let m : has at (x ∷ xs ++ ys) ≡ true =
        ground (arith, has-append at (x ∷ xs) ys, has-last_or x xs) in
      let e1 : (l == null) ≡ false = ground (arith, fresh.ne_null) in
      let e2 : (q == null) ≡ false = ground arith in
      let e3 : (at == null) ≡ false = IsQueue-ne_null w at m in
      let (front, back) = Chain-split s.links q null (x ∷ xs) ys null w.chain in
      let (dx, dy, apart) = Distinct-split (x ∷ xs) ys w.distinct in
      let v = s.queues q in
      rw (e1, e2, may_insert_at s q at e3 (IsQueue-queue w at m), e3)
        (
          refl,
          Inserted-of (x ∷ xs) ys w fresh _
              (splice_after_lem q at l (head_or ys null) s.links
                (λ n. Chain-last_next s.links q null x xs (head_or ys null) front)
                (λ z. absurd (ground (arith, z, e3)))
                (ne_of_has l at (x ∷ xs ++ ys) fresh.absent m))
              (λ p ne. update-ne s.queues q _ ne) (rw (==_self q) w.first_eq)
              (rw (==_self q, last_or-append xs (l ∷ ys) x)
                (moved_last at l v.last ys (w.last_eq ∙ last_or-append xs ys x)
                  (Apart-has at (x ∷ xs) ys apart (has-last_or x xs))))
              (rw (==_self q)
                (incr-length v.nitems l (x ∷ xs) ys w.nitems_eq (rw w.nitems_eq (length-le w)))),
        )

  -- `AQueueInsertBefore` of a fresh link on a queue that is not empty succeeds and puts the link
  -- between two parts of the queue, the neighbour being the first link of the second part.
  pub cons-insert_before :
      (xs : List Ptr) (y : Ptr) (ys : List Ptr)
      → IsQueue s q (xs ++ y ∷ ys)
      → IsFresh l (xs ++ y ∷ ys)
      → Inserts s q l xs (y ∷ ys) (insert_before q y l s)
  unfolding insert_before
  cons-insert_before xs y ys w fresh =
      let m : has y (xs ++ y ∷ ys) ≡ true = ground (arith, has-append y xs (y ∷ ys)) in
      let e1 : (l == null) ≡ false = ground (arith, fresh.ne_null) in
      let e2 : (q == null) ≡ false = ground arith in
      let e3 : (y == null) ≡ false = IsQueue-ne_null w y m in
      let (front, back) = Chain-split s.links q null xs (y ∷ ys) null w.chain in
      let (dx, dy, apart) = Distinct-split xs (y ∷ ys) w.distinct in
      let v = s.queues q in
      rw (e1, e2, may_insert_at s q y e3 (IsQueue-queue w y m), e3)
        (
          refl,
          Inserted-of xs (y ∷ ys) w fresh _
              (splice_before_lem q (last_or xs null) l y s.links (λ n. back.0.prev_eq)
                (λ z. absurd (ground (arith, z, e3))) (ne_of_has l y (xs ++ y ∷ ys) fresh.absent m))
              (λ p ne. update-ne s.queues q _ ne)
              (rw (==_self q) (
                moved_first y l v.first xs ys w.first_eq
                  (Apart-has_right y xs (y ∷ ys) apart (ground arith))))
              (rw (==_self q, last_or-append xs (l ∷ y ∷ ys) null)
                (w.last_eq ∙ last_or-append xs (y ∷ ys) null))
              (rw (==_self q)
                (incr-length v.nitems l xs (y ∷ ys) w.nitems_eq (rw w.nitems_eq (length-le w)))),
        )

  -- `AQueueInsertLast` of a fresh link puts it at the end of any queue.
  pub insert_last-Inserts :
      (xs : List Ptr) → IsQueue s q xs → IsFresh l xs → Inserts s q l xs [] (insert_last q l s)
  unfolding insert_last
  insert_last-Inserts [] w fresh =
      let e1 : (l == null) ≡ false = ground (arith, fresh.ne_null) in
      let e2 : (q == null) ≡ false = ground arith in
      rw (e1, e2, w.last_eq) (nil-insert_after w fresh)
  insert_last-Inserts (x ∷ xs) w fresh =
      let e1 : (l == null) ≡ false = ground (arith, fresh.ne_null) in
      let e2 : (q == null) ≡ false = ground arith in
      rw (e1, e2, w.last_eq) (cons-insert_after x xs [] (rw append-nil w) (rw append-nil fresh))

  -- `AQueueInsertFirst` of a fresh link puts it at the front of any queue.
  pub insert_first-Inserts :
      (xs : List Ptr) → IsQueue s q xs → IsFresh l xs → Inserts s q l [] xs (insert_first q l s)
  unfolding insert_first
  insert_first-Inserts [] w fresh =
      let e1 : (l == null) ≡ false = ground (arith, fresh.ne_null) in
      let e2 : (q == null) ≡ false = ground arith in
      rw (e1, e2, w.first_eq) (nil-insert_before w fresh)
  insert_first-Inserts (x ∷ xs) w fresh =
      let e1 : (l == null) ≡ false = ground (arith, fresh.ne_null) in
      let e2 : (q == null) ≡ false = ground arith in
      rw (e1, e2, w.first_eq) (cons-insert_before [] x xs w fresh)
