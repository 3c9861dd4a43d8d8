-- ===== src/Queue/Check.antt =====
-- The representation invariant of the queues as a test, to run on a store.
use ece695os_lab.Prelude.{
  ◌≡◌, Bool, true, not, ◌&&◌, List, [], ◌∷◌, ◌==◌, leb, arith, head_or, last_or, has, length,
  Distinct,
}
use ece695os_lab.Queue.{Ptr, null, Links, Store, queue_max_links}
use ece695os_lab.Queue.Chain.{Chain}
use ece695os_lab.Queue.IsQueue.{IsQueue}

abbrev pub is_linked : Links → Ptr → Ptr → Ptr → Ptr → Bool
is_linked h q x before after =
    not (x == null)
    && (leb x queue_max_links
        && ((h x).prev == before && ((h x).next == after && (h x).queue == q)))

abbrev pub is_chain : Links → Ptr → Ptr → List Ptr → Bool
is_chain h q before [] = true
is_chain h q before (x ∷ xs) = is_linked h q x before (head_or xs null) && is_chain h q x xs

abbrev pub is_distinct : List Ptr → Bool
is_distinct [] = true
is_distinct (x ∷ xs) = not (has x xs) && is_distinct xs

abbrev pub is_queue : Store → Ptr → List Ptr → Bool
is_queue s q xs =
    let v = s.queues q in
    v.first == head_or xs null
    && (v.last == last_or xs null
        && (v.nitems == length xs && (is_chain s.links q null xs && is_distinct xs)))

Chain-of :
    (h : Links) (q before : Ptr) (xs : List Ptr)
    → is_chain h q before xs ≡ true
    → Chain h q before xs null
Chain-of h q before [] e = tt
Chain-of h q before (x ∷ xs) e = (
  record {
    ne_null = ground arith;
    in_pool = ground arith;
    prev_eq = ground arith;
    next_eq = ground arith;
    queue_eq = ground arith;
  },
  Chain-of h q x xs (ground arith),
)

Distinct-of : (xs : List Ptr) → is_distinct xs ≡ true → Distinct xs
Distinct-of [] e = tt
Distinct-of (x ∷ xs) e = (ground arith, Distinct-of xs (ground arith))

pub IsQueue-of : (s : Store) (q : Ptr) (xs : List Ptr) → is_queue s q xs ≡ true → IsQueue s q xs
IsQueue-of s q xs e = record {
  first_eq = ground arith;
  last_eq = ground arith;
  nitems_eq = ground arith;
  chain = Chain-of s.links q null xs (ground arith);
  distinct = Distinct-of xs (ground arith);
}
