-- ===== src/Queue.antt =====
-- The doubly linked queues of os/queue.c and include/os/queue.h, over an explicit store.
pub mod Chain
pub mod Splice
pub mod IsQueue
pub mod Insert
pub mod Remove
pub mod Move
pub mod Pool
pub mod Claim
pub mod Check
mod Tests
use ece695os_lab.Prelude.{
  ℕ, zero, suc, ◌+◌, ◌-◌, ◌%◌, ◌^◌, Bool, true, false, not, Option, none, some, ◌==◌, if◌then◌else◌,
  update,
}

-- An address; each kind of object has its own addresses, and 0 is NULL in all of them.
abbrev pub Ptr : Type 0
Ptr = ℕ

abbrev pub null : Ptr
null = 0

-- `linkpool[i]` has the address i + 1.
abbrev pub queue_max_links : ℕ
queue_max_links = 400

pub data Status : Type 0 where
  fail success : Status

pub record Link : Type 0 where
  pub next : Ptr
  pub prev : Ptr
  pub queue : Ptr
  pub object : Ptr

-- `nitems` is the bit pattern of a 32-bit `int`.
pub record Queue : Type 0 where
  pub first : Ptr
  pub last : Ptr
  pub nitems : ℕ

-- All links and all queue heads. Static storage starts as zeros.
pub record Store : Type 0 where
  pub links : Ptr → Link
  pub queues : Ptr → Queue

abbrev pub Links : Type 0
Links = Ptr → Link

-- The queue head `freeLinks`.
abbrev pub free_links : Ptr
free_links = 1

-- `nitems++` and `nitems--`
abbrev pub incr : ℕ → ℕ
incr n = (n + 1) % 2 ^ 32

abbrev pub decr : ℕ → ℕ
decr n = (n + 2 ^ 32 - 1) % 2 ^ 32

-- Writes to one field of a link.
abbrev pub set_next : Ptr → Ptr → Links → Links
set_next l p h = update h l (record (h l) { next = p })

abbrev pub set_prev : Ptr → Ptr → Links → Links
set_prev l p h = update h l (record (h l) { prev = p })

-- `if (l) l->next = p;`
unfoldable pub fix_next : Ptr → Ptr → Links → Links
fix_next l p h = if l == null then h else set_next l p h

-- `if (l) l->prev = p;`
unfoldable pub fix_prev : Ptr → Ptr → Links → Links
fix_prev l p h = if l == null then h else set_prev l p h

abbrev pub with_links : Store → Links → Store
with_links s h = record s { links = h }

abbrev pub with_queue : Store → Ptr → Queue → Store
with_queue s q v = record s { queues = update s.queues q v }

pub init : Ptr → Store → Status × Store
init q s =
    if q == null
    then (fail, s)
    else (success, with_queue s q (record { first = null; last = null; nitems = 0 }))

pub next : Store → Ptr → Ptr
next s l = (s.links l).next

pub prev : Store → Ptr → Ptr
prev s l = (s.links l).prev

pub first : Store → Ptr → Ptr
first s q = (s.queues q).first

pub last : Store → Ptr → Ptr
last s q = (s.queues q).last

unfoldable pub object : Store → Ptr → Ptr
object s l = (s.links l).object

pub length : Store → Ptr → ℕ
length s q = (s.queues q).nitems

unfoldable pub is_empty : Store → Ptr → Bool
unfolding length
is_empty s q = length s q == 0

-- The pointer surgery of the insertions, and of the removals, on the links alone.
unfoldable pub splice_after : Ptr → Ptr → Ptr → Links → Links
unfolding fix_next fix_prev
splice_after q after l h =
    let h1 = update h l (record (h l) { queue = q }) in
    let h2 = set_prev l after h1 in
    let h3 = set_next l (if after == null then null else (h2 after).next) h2 in
    let h4 = fix_next after l h3 in fix_prev (h4 l).next l h4

unfoldable pub splice_before : Ptr → Ptr → Ptr → Links → Links
unfolding fix_next fix_prev
splice_before q before l h =
    let h1 = update h l (record (h l) { queue = q }) in
    let h2 = set_next l before h1 in
    let h3 = set_prev l (if before == null then null else (h2 before).prev) h2 in
    let h4 = fix_prev before l h3 in fix_next (h4 l).prev l h4

unfoldable pub unlink : Ptr → Links → Links
unfolding fix_next fix_prev
unlink l h = let h1 = fix_next (h l).prev (h l).next h in fix_prev (h1 l).next (h1 l).prev h1

-- The same in the order of `AQueueMoveAfter`.
unfoldable pub unlink_back : Ptr → Links → Links
unfolding fix_next fix_prev
unlink_back l h = let h1 = fix_prev (h l).next (h l).prev h in fix_next (h1 l).prev (h1 l).next h1

-- The writes of `AQueueMoveAfter` behind the removal.
unfoldable pub relink : Ptr → Ptr → Links → Links
unfolding fix_prev
relink at l h =
    let h2 = set_next l (h at).next (set_prev l at h) in
    let h3 = set_next at l h2 in fix_prev (h3 l).next l h3

abbrev pub single : Ptr → Queue
single l = record { first = l; last = l; nitems = 1 }

-- The guard of the insertions: the neighbour is on the queue, or there is none and the queue is
-- empty.
pub may_insert : Store → Ptr → Ptr → Bool
unfolding first last is_empty
may_insert s q at =
    if at == null
    then (if not (first s q == null)
        then false
        else if not (last s q == null)
        then false
        else is_empty s q)
    else (s.links at).queue == q

pub insert_after : Ptr → Ptr → Ptr → Store → Status × Store
insert_after q after l s =
    if l == null
    then (fail, s)
    else if q == null
    then (fail, s)
    else if not (may_insert s q after)
    then (fail, s)
    else let v = s.queues q in
      let v' =
        if after == null
        then single l
        else record v { last = if v.last == after then l else v.last; nitems = incr v.nitems } in
      (success, with_queue (with_links s (splice_after q after l s.links)) q v')

pub insert_before : Ptr → Ptr → Ptr → Store → Status × Store
insert_before q before l s =
    if l == null
    then (fail, s)
    else if q == null
    then (fail, s)
    else if not (may_insert s q before)
    then (fail, s)
    else let v = s.queues q in
      let v' = if before == null then single l else record v {
        first = if v.first == before then l else v.first;
        nitems = incr v.nitems;
      } in
      (success, with_queue (with_links s (splice_before q before l s.links)) q v')

pub insert_first : Ptr → Ptr → Store → Status × Store
unfolding first
insert_first q l s =
    if l == null
    then (fail, s)
    else if q == null
    then (fail, s)
    else insert_before q (first s q) l s

pub insert_last : Ptr → Ptr → Store → Status × Store
unfolding last
insert_last q l s =
    if l == null then (fail, s) else if q == null then (fail, s) else insert_after q (last s q) l s

-- The head of a queue that loses the link: its ends and its count.
abbrev pub drop_ends : Links → Ptr → Queue → Queue
drop_ends h l v = record v {
  first = if v.first == l then (h l).next else v.first;
  last = if v.last == l then (h l).prev else v.last;
  nitems = decr v.nitems;
}

-- `AQueueAllocLink`: `null` when no link is free.
pub alloc_link : Ptr → Store → Ptr × Store
alloc_link obj s =
    let l = first s free_links in
    if is_empty s free_links
    then (null, s)
    else if l == null
    then (null, s)
    else let h = unlink l s.links in
      (
        l,
        with_queue
            (with_links s
              (update h l (record { next = null; prev = null; queue = null; object = obj })))
            free_links (drop_ends s.links l (s.queues free_links)),
      )

-- `AQueueRemove`: the argument is `*pl` (`none` for a null `pl`), and the new `*pl` is returned.
pub remove : Option Ptr → Store → Status × Option Ptr × Store
remove none s = (fail, none, s)
remove (some l) s =
    if l == null
    then (fail, some l, s)
    else let q = (s.links l).queue in
      if q == null
      then (fail, some l, s)
      else let s1 = with_queue s q (drop_ends s.links l (s.queues q)) in
        let s2 = with_links s1 (unlink l s.links) in
        (success, some null, (insert_last free_links l s2).1)

pub move_after : Ptr → Ptr → Ptr → Store → Status × Store
unfolding length
move_after q after l s =
    if q == null
    then (fail, s)
    else if l == null
    then (fail, s)
    else if not ((s.links l).queue == q)
    then (fail, s)
    else if after == null
    then (if not (length s q == 1)
        then (fail, s)
        else if not (first s q == last s q)
        then (fail, s)
        else (success, s))
    else if not ((s.links after).queue == q)
    then (fail, s)
    else if after == l
    then (success, s)
    else if last s q == l
    then (fail, s)
    else let v = s.queues q in
      let v' = record v {
        first = if v.first == l then (s.links l).next else v.first;
        last = if v.last == after then l else v.last;
      } in
      (success, with_queue (with_links s (relink after l (unlink_back l s.links))) q v')

-- The loop of `AQueueModuleInit`, from `linkpool[i]` on; `none` is `exitsim`.
fill_pool : ℕ → ℕ → Store → Option Store
fill_pool zero i s = some s
fill_pool (suc k) i s =
    let l = suc i in
    let h = update s.links l (record (s.links l) { next = null; prev = null; object = null }) in
    let (st, s') = insert_last free_links l (with_links s h) in
    elim st [ fail ↦ none | success ↦ fill_pool k (suc i) s' ]

pub module_init : Store → Option Store
unfolding init
module_init s =
    let (st, s') = init free_links s in
    elim st [ fail ↦ none | success ↦ fill_pool queue_max_links 0 s' ]
