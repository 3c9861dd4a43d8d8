-- ===== src/Queue/Chain.antt =====
-- Which links a queue of os/queue.c holds, and how its pointer surgery changes that.
use ece695os_lab.Prelude.{
  ◌≤◌, ◌≡◌, ◌≢◌, true, false, List, [], ◌∷◌, ◌++◌, ◌==◌, refl, arith, head_or, last_or, has,
  has-last_or, ne_of_has_not, Distinct,
}
use ece695os_lab.Queue.{Ptr, null, Links, queue_max_links, fix_next, fix_prev}

-- The link `x` stands on the queue `q` between `before` and `after`.
pub record IsLinked (h : Links) (q x before after : Ptr) : Type 0 where
  pub ne_null : x ≢ null
  pub in_pool : x ≤ queue_max_links
  pub prev_eq : (h x).prev ≡ before
  pub next_eq : (h x).next ≡ after
  pub queue_eq : (h x).queue ≡ q

-- From `before` on, the links of the list follow one another up to `stop`.
abbrev pub Chain : Links → Ptr → Ptr → List Ptr → Ptr → Type 0
Chain h q before [] stop = Unit
Chain h q before (x ∷ xs) stop = IsLinked h q x before (head_or xs stop) × Chain h q x xs stop

pub IsLinked-frame :
    (g h : Links) {q x before after : Ptr}
    → g x ≡ h x
    → IsLinked h q x before after
    → IsLinked g q x before after
IsLinked-frame g h e k = record {
  ne_null = k.ne_null;
  in_pool = k.in_pool;
  prev_eq = rw e k.prev_eq;
  next_eq = rw e k.next_eq;
  queue_eq = rw e k.queue_eq;
}

pub fix_next-ne : (l to : Ptr) (h : Links) (x : Ptr) → (x == l) ≡ false → fix_next l to h x ≡ h x
unfolding fix_next
fix_next-ne l to h x e = ground arith

pub fix_prev-ne : (l to : Ptr) (h : Links) (x : Ptr) → (x == l) ≡ false → fix_prev l to h x ≡ h x
unfolding fix_prev
fix_prev-ne l to h x e = ground arith

pub IsLinked-fix_next :
    {h : Links} {q x before after : Ptr} (to : Ptr)
    → IsLinked h q x before after
    → IsLinked (fix_next x to h) q x before to
unfolding fix_next
IsLinked-fix_next to k = ground arith

pub IsLinked-fix_prev :
    {h : Links} {q x before after : Ptr} (to : Ptr)
    → IsLinked h q x before after
    → IsLinked (fix_prev x to h) q x to after
unfolding fix_prev
IsLinked-fix_prev to k = ground arith

pub ne_of_has : (x a : Ptr) (xs : List Ptr) → has x xs ≡ false → has a xs ≡ true → (x == a) ≡ false
ne_of_has x a xs h m = ground (arith, ne_of_has_not a x xs h m)

module _ (h : Links) (q : Ptr) where
  pub Chain-frame :
      (g : Links) (before : Ptr) (xs : List Ptr) (stop : Ptr)
      → Chain h q before xs stop
      → ((a : Ptr) → has a xs ≡ true → g a ≡ h a)
      → Chain g q before xs stop
  Chain-frame g before [] stop c same = tt
  Chain-frame g before (x ∷ xs) stop (k, c) same = (
    IsLinked-frame g h (same x (ground arith)) k,
    Chain-frame g x xs stop c (λ a m. same a (ground arith)),
  )

  pub Chain-queue :
      (before : Ptr) (xs : List Ptr) (stop a : Ptr)
      → Chain h q before xs stop
      → has a xs ≡ true
      → (h a).queue ≡ q
  Chain-queue before [] stop a c m = cc
  Chain-queue before (x ∷ xs) stop a (k, c) m =
      ground (arith, k.queue_eq, Chain-queue x xs stop a c)

  pub Chain-ne_null :
      (before : Ptr) (xs : List Ptr) (stop : Ptr) → Chain h q before xs stop → has null xs ≡ false
  Chain-ne_null before [] stop c = refl
  Chain-ne_null before (x ∷ xs) stop (k, c) = ground (arith, k.ne_null, Chain-ne_null x xs stop c)

  pub Chain-split :
      (before : Ptr) (xs ys : List Ptr) (stop : Ptr)
      → Chain h q before (xs ++ ys) stop
      → Chain h q before xs (head_or ys stop) × Chain h q (last_or xs before) ys stop
  Chain-split before [] ys stop c = (tt, c)
  Chain-split before (x ∷ []) ys stop (k, c) = ((k, tt), c)
  Chain-split before (x ∷ y ∷ xs) ys stop (k, c) =
      let (front, back) = Chain-split x (y ∷ xs) ys stop c in ((k, front), back)

  pub Chain-join :
      (before : Ptr) (xs ys : List Ptr) (stop : Ptr)
      → Chain h q before xs (head_or ys stop)
      → Chain h q (last_or xs before) ys stop
      → Chain h q before (xs ++ ys) stop
  Chain-join before [] ys stop c d = d
  Chain-join before (x ∷ []) ys stop (k, c) d = (k, d)
  Chain-join before (x ∷ y ∷ xs) ys stop (k, c) d = (k, Chain-join x (y ∷ xs) ys stop c d)

  -- The last link of a chain leads to its end.
  pub Chain-last_next :
      (before x : Ptr) (xs : List Ptr) (stop : Ptr)
      → Chain h q before (x ∷ xs) stop
      → (h (last_or xs x)).next ≡ stop
  Chain-last_next before x [] stop (k, c) = k.next_eq
  Chain-last_next before x (y ∷ xs) stop (k, c) = Chain-last_next x y xs stop c

  -- `fix_next` on the last link of a chain moves its end.
  pub Chain-fix_next :
      (before : Ptr) (xs : List Ptr) (stop to : Ptr)
      → Chain h q before xs stop
      → Distinct xs
      → Chain (fix_next (last_or xs null) to h) q before xs to
  Chain-fix_next before [] stop to c d = tt
  Chain-fix_next before (x ∷ []) stop to (k, c) d = (IsLinked-fix_next to k, tt)
  Chain-fix_next before (x ∷ y ∷ xs) stop to (k, c) d = (
    IsLinked-frame (fix_next (last_or xs y) to h) h
        (fix_next-ne (last_or xs y) to h x
          (ne_of_has x (last_or xs y) (y ∷ xs) d.0 (has-last_or y xs)))
        k,
    Chain-fix_next x (y ∷ xs) stop to c d.1,
  )

  -- `fix_prev` on the first link of a chain moves its start.
  pub Chain-fix_prev :
      (before : Ptr) (xs : List Ptr) (stop to : Ptr)
      → Chain h q before xs stop
      → Distinct xs
      → Chain (fix_prev (head_or xs null) to h) q to xs stop
  Chain-fix_prev before [] stop to c d = tt
  Chain-fix_prev before (x ∷ xs) stop to (k, c) d = (
    IsLinked-fix_prev to k,
    Chain-frame (fix_prev x to h) x xs stop c
        (λ a m. fix_prev-ne x to h a (ne_of_has_not a x xs d.0 m)),
  )
