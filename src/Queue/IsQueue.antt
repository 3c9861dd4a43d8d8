-- ===== src/Queue/IsQueue.antt =====
-- The representation invariant of `Queue` and its frame rules.
use ece695os_lab.Prelude.{
  ◌≤◌, ◌≡◌, ◌≢◌, true, false, List, [], ◌∷◌, ◌==◌, arith, head_or, last_or, has, length, Distinct,
  refl, ==_self, update-ne, IsBelow, length-le_of_IsBelow, Bool-cases, inl, inr, ne_of_has_not, sym,
  ◌∙◌,
}
use ece695os_lab.Queue.{
  Ptr, null, Links, Store, queue_max_links, init, success, first, last, is_empty, fix_next,
  fix_prev,
}
use ece695os_lab.Queue.Chain.{Chain, Chain-frame, Chain-queue, Chain-ne_null}
use ece695os_lab.Queue.Splice.{spliced, bypass}

-- The queue `q` of the store holds the links of the list, first to last.
pub record IsQueue (s : Store) (q : Ptr) (xs : List Ptr) : Type 0 where
  pub first_eq : (s.queues q).first ≡ head_or xs null
  pub last_eq : (s.queues q).last ≡ last_or xs null
  pub nitems_eq : (s.queues q).nitems ≡ length xs
  pub chain : Chain s.links q null xs null
  pub distinct : Distinct xs

Chain-IsBelow :
    (h : Links) (q before : Ptr) (xs : List Ptr) (stop : Ptr)
    → Chain h q before xs stop
    → IsBelow queue_max_links xs
Chain-IsBelow h q before [] stop c = tt
Chain-IsBelow h q before (x ∷ xs) stop (k, c) =
    (k.ne_null, k.in_pool, Chain-IsBelow h q x xs stop c)

module _ {s : Store} {q : Ptr} {xs : List Ptr} (w : IsQueue s q xs) where
  -- A queue never holds more links than the pool has, so `nitems` cannot wrap.
  pub length-le : length xs ≤ queue_max_links
  length-le =
      length-le_of_IsBelow queue_max_links xs w.distinct
        (Chain-IsBelow s.links q null xs null w.chain)

  pub IsQueue-queue : (a : Ptr) → has a xs ≡ true → (s.links a).queue ≡ q
  IsQueue-queue a m = Chain-queue s.links q null xs null a w.chain m

  pub IsQueue-ne_null : (a : Ptr) → has a xs ≡ true → (a == null) ≡ false
  IsQueue-ne_null a m = ne_of_has_not a null xs (Chain-ne_null s.links q null xs null w.chain) m

  -- A link with another mark is not on the queue.
  pub not-has_of_queue : (a : Ptr) → (s.links a).queue ≢ q → has a xs ≡ false
  not-has_of_queue a ne = elim (Bool-cases (has a xs)) [
    | inl m ↦ absurd (ne (IsQueue-queue a m))
    | inr m ↦ m
  ]

  -- A queue survives what spares its head and its links.
  pub IsQueue-frame :
      (t : Store)
      → t.queues q ≡ s.queues q
      → ((a : Ptr) → has a xs ≡ true → t.links a ≡ s.links a)
      → IsQueue t q xs
  IsQueue-frame t e same = record {
    first_eq = rw e w.first_eq;
    last_eq = rw e w.last_eq;
    nitems_eq = rw e w.nitems_eq;
    chain = Chain-frame s.links q t.links null xs null w.chain same;
    distinct = w.distinct;
  }

  -- Two queues share no link.
  pub not-has_of_IsQueue :
      {p : Ptr} {ys : List Ptr} (a : Ptr)
      → IsQueue s p ys
      → p ≢ q
      → has a ys ≡ true
      → has a xs ≡ false
  not-has_of_IsQueue {ys} a v ne m =
      not-has_of_queue a (λ e. ne (sym (Chain-queue s.links _ null ys null a v.chain m) ∙ e))

-- What the access functions say of a queue.
pub first-head_or :
    {s : Store} {q : Ptr} {xs : List Ptr} → IsQueue s q xs → first s q ≡ head_or xs null
unfolding first
first-head_or w = w.first_eq

pub last-last_or :
    {s : Store} {q : Ptr} {xs : List Ptr} → IsQueue s q xs → last s q ≡ last_or xs null
unfolding last
last-last_or w = w.last_eq

pub is_empty-nil : {s : Store} {q : Ptr} → IsQueue s q [] → is_empty s q ≡ true
unfolding is_empty
is_empty-nil w = rw (w.nitems_eq)

pub is_empty-cons :
    {s : Store} {q x : Ptr} {xs : List Ptr} → IsQueue s q (x ∷ xs) → is_empty s q ≡ false
unfolding is_empty
is_empty-cons w = ground (arith, w.nitems_eq)

pub spliced-ne :
    (q before l after : Ptr) (h : Links) (a : Ptr)
    → (a == l) ≡ false
    → (a == before) ≡ false
    → (a == after) ≡ false
    → spliced q before l after h a ≡ h a
unfolding fix_next fix_prev
spliced-ne q before l after h a e1 e2 e3 = ground arith

pub bypass-ne :
    (before after : Ptr) (h : Links) (a : Ptr)
    → (a == before) ≡ false
    → (a == after) ≡ false
    → bypass before after h a ≡ h a
unfolding fix_next fix_prev
bypass-ne before after h a e2 e3 = ground arith

-- `AQueueInit` empties its queue, and touches no other.
pub init-IsQueue :
    (q : Ptr) (s : Store)
    → q ≢ null
    → let (st, t) = init q s in
      (st ≡ success)
      × IsQueue t q []
      × ((p : Ptr) (ws : List Ptr) → p ≢ q → IsQueue s p ws → IsQueue t p ws)
unfolding init
init-IsQueue q s nq =
    let e : (q == null) ≡ false = ground arith in
    rw e (
      refl,
      record {
        first_eq = rw (==_self q);
        last_eq = rw (==_self q);
        nitems_eq = rw (==_self q);
        chain = tt;
        distinct = tt;
      },
      λ p ws ne v. IsQueue-frame v _ (update-ne s.queues q _ ne) (λ a m. refl),
    )

pub init-object :
    (q : Ptr) (s : Store) (a : Ptr) → q ≢ null → ((init q s).1.links a).object ≡ (s.links a).object
unfolding init
init-object q s a nq = let e : (q == null) ≡ false = ground arith in rw e refl
