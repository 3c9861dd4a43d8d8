-- ===== src/Queue/Tests.antt =====
-- Examples for the queues of os/queue.c.
use ece695os_lab.Prelude.{◌≡◌, ◌≢◌, List, [], ◌∷◌, refl, some, arith}
use ece695os_lab.Queue.{
  Ptr, success, init, next, prev, insert_after, remove, alloc_link, move_after,
}
use ece695os_lab.Queue.IsQueue.{IsQueue, init-IsQueue}
use ece695os_lab.Queue.Insert.{IsFresh, Inserts, cons-insert_after}
use ece695os_lab.Queue.Remove.{Removes, remove-Removes}
use ece695os_lab.Queue.Move.{Moved, move_after-Moved}
use ece695os_lab.Queue.Claim.{Claimed, freed_store, remove-alloc_link}
use ece695os_lab.Queue.Check.{IsQueue-of}
use ece695os_lab.Sample.{store, free-IsQueue, run_links}

-- The links next to the second of the three that sleep.
next_lem : next store 4 ≡ 5
unfolding next
next_lem = refl

prev_lem : prev store 4 ≡ 3
unfolding prev
prev_lem = refl

three : IsQueue store 4 (3 ∷ 4 ∷ 5 ∷ [])
three = IsQueue-of store 4 (3 ∷ 4 ∷ 5 ∷ []) refl

fresh : IsFresh 20 (1 ∷ 2 ∷ [])
fresh = record { ne_null = λ e. absurd (omega arith); in_pool = omega arith; absent = refl }

init-IsQueue_example :
    let (st, t) = init 6 store in
    (st ≡ success)
    × IsQueue t 6 []
    × ((p : Ptr) (ws : List Ptr) → p ≢ 6 → IsQueue store p ws → IsQueue t p ws)
init-IsQueue_example = init-IsQueue 6 store (λ e. absurd (omega arith))

cons-insert_after_example : Inserts store 3 20 (1 ∷ []) (2 ∷ []) (insert_after 3 1 20 store)
cons-insert_after_example =
    cons-insert_after (λ e. absurd (omega arith)) 1 [] (2 ∷ []) run_links fresh

remove-Removes_example : Removes store 4 4 (3 ∷ []) (5 ∷ []) (9 ∷ 10 ∷ []) (remove (some 4) store)
remove-Removes_example =
    remove-Removes (3 ∷ []) (5 ∷ []) (9 ∷ 10 ∷ []) (λ e. absurd (omega arith))
      (λ e. absurd (omega arith)) three free-IsQueue

move_after-Moved_example :
    let (st, t) = move_after 4 5 3 store in (st ≡ success) × Moved store t 4 (4 ∷ 5 ∷ 3 ∷ [])
move_after-Moved_example =
    move_after-Moved store 4 3 [] 4 (5 ∷ []) 4 (5 ∷ []) [] (λ e. absurd (omega arith)) three refl

remove-alloc_link_example :
    let (m, t) = alloc_link 7 (freed_store 4 store) in Claimed store t 4 m 7 (3 ∷ 5 ∷ []) 2
remove-alloc_link_example =
    remove-alloc_link 4 7 (3 ∷ []) (5 ∷ []) (9 ∷ 10 ∷ []) (λ e. absurd (omega arith))
      (λ e. absurd (omega arith)) three free-IsQueue
