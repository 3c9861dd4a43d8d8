-- ===== src/Process/Holds.antt =====
-- Which processes a queue of os/process.c holds.
use ece695os_lab.Prelude.{
  ◌≤◌, ◌≡◌, ◌≢◌, true, false, List, [], ◌∷◌, ◌++◌, ◌==◌, refl, arith, has, ap, ◌∙◌, Bool-cases, inl,
  inr,
}
use mathlib.Core.Path.{ap₂}
use ece695os_lab.Queue.{Ptr, Store}
use ece695os_lab.Queue.IsQueue.{IsQueue}
use ece695os_lab.Kernel.{Pcb, Os, run_queue, wait_queue}

-- The links by which the processes stand on a queue.
abbrev pub links_of : (Ptr → Pcb) → List Ptr → List Ptr
links_of pcbs [] = []
links_of pcbs (p ∷ ps) = (pcbs p).link ∷ links_of pcbs ps

-- The link of each process leads back to it.
abbrev pub Owned : (Ptr → Pcb) → Store → List Ptr → Type 0
Owned pcbs s [] = Unit
Owned pcbs s (p ∷ ps) = ((s.links (pcbs p).link).object ≡ p) × Owned pcbs s ps

-- The queue `q` holds the processes of the list, first to last, each by its own link.
pub record Holds (s : Os) (q : Ptr) (ps : List Ptr) : Type 0 where
  pub queue : IsQueue s.store q (links_of s.pcbs ps)
  pub owned : Owned s.pcbs s.store ps

pub links_of-append :
    (pcbs : Ptr → Pcb) (xs ys : List Ptr)
    → links_of pcbs (xs ++ ys) ≡ links_of pcbs xs ++ links_of pcbs ys
links_of-append pcbs [] ys = refl
links_of-append pcbs (x ∷ xs) ys = ap (λ zs. (pcbs x).link ∷ zs) (links_of-append pcbs xs ys)

pub Owned-append :
    (pcbs : Ptr → Pcb) (s : Store) (xs ys : List Ptr)
    → Owned pcbs s xs
    → Owned pcbs s ys
    → Owned pcbs s (xs ++ ys)
Owned-append pcbs s [] ys a b = b
Owned-append pcbs s (x ∷ xs) ys a b = (a.0, Owned-append pcbs s xs ys a.1 b)

pub Owned-split :
    (pcbs : Ptr → Pcb) (s : Store) (xs ys : List Ptr)
    → Owned pcbs s (xs ++ ys)
    → Owned pcbs s xs × Owned pcbs s ys
Owned-split pcbs s [] ys a = (tt, a)
Owned-split pcbs s (x ∷ xs) ys (a, b) =
    let (front, back) = Owned-split pcbs s xs ys b in ((a, front), back)

-- A queue other than the free links, the run queue and the waiting queue of the scheduler.
abbrev pub IsElsewhere : Ptr → Type 0
IsElsewhere u = (2 ≤ u) × (u ≢ run_queue) × (u ≢ wait_queue)

-- A process that is on the list has its link on the queue.
has-links_of :
    (pcbs : Ptr → Pcb) (p : Ptr) (ps : List Ptr)
    → has p ps ≡ true
    → has (pcbs p).link (links_of pcbs ps) ≡ true
has-links_of pcbs p [] m = cc
has-links_of pcbs p (x ∷ ps) m = ground (arith, has-links_of pcbs p ps)

pub absent_of_link :
    (pcbs : Ptr → Pcb) (p : Ptr) (ps : List Ptr)
    → has (pcbs p).link (links_of pcbs ps) ≡ false
    → has p ps ≡ false
absent_of_link pcbs p ps h = elim (Bool-cases (has p ps)) [
  | inl m ↦ cc (has-links_of pcbs p ps m)
  | inr m ↦ m
]

pub links_of-frame :
    (f g : Ptr → Pcb) (p : Ptr) (ps : List Ptr)
    → has p ps ≡ false
    → ((a : Ptr) → (a == p) ≡ false → (f a).link ≡ (g a).link)
    → links_of f ps ≡ links_of g ps
links_of-frame f g p [] h same = refl
links_of-frame f g p (x ∷ ps) h same =
    ap₂ ◌∷◌ (same x (ground arith)) (links_of-frame f g p ps (ground arith) same)

-- Processes other than `p` keep their links, and links other than `m` their objects.
pub Owned-frame :
    (f g : Ptr → Pcb) (s t : Store) (p m : Ptr) (ps : List Ptr)
    → has p ps ≡ false
    → has m (links_of g ps) ≡ false
    → ((a : Ptr) → (a == p) ≡ false → (f a).link ≡ (g a).link)
    → ((a : Ptr) → (a == m) ≡ false → (t.links a).object ≡ (s.links a).object)
    → Owned g s ps
    → Owned f t ps
Owned-frame f g s t p m [] h k same objects o = tt
Owned-frame f g s t p m (x ∷ ps) h k same objects (a, b) = (
  ap (λ l. (t.links l).object) (same x (ground arith)) ∙ objects (g x).link (ground arith) ∙ a,
  Owned-frame f g s t p m ps (ground arith) (ground arith) same objects b,
)

pub links_of-same :
    (f g : Ptr → Pcb) (ps : List Ptr)
    → ((a : Ptr) → (f a).link ≡ (g a).link)
    → links_of f ps ≡ links_of g ps
links_of-same f g [] same = refl
links_of-same f g (x ∷ ps) same = ap₂ ◌∷◌ (same x) (links_of-same f g ps same)

pub Owned-same :
    (f g : Ptr → Pcb) (s t : Store) (ps : List Ptr)
    → ((a : Ptr) → (f a).link ≡ (g a).link)
    → ((a : Ptr) → (t.links a).object ≡ (s.links a).object)
    → Owned g s ps
    → Owned f t ps
Owned-same f g s t [] same objects o = tt
Owned-same f g s t (x ∷ ps) same objects (a, b) = (
  ap (λ l. (t.links l).object) (same x) ∙ objects (g x).link ∙ a,
  Owned-same f g s t ps same objects b,
)

-- A change of other fields of the processes leaves the queues as they are.
pub Holds-same :
    {s t : Os} (u : Ptr) (ws : List Ptr)
    → t.store ≡ s.store
    → ((a : Ptr) → (t.pcbs a).link ≡ (s.pcbs a).link)
    → Holds s u ws
    → Holds t u ws
Holds-same {s} {t} u ws e same h = record {
  queue = rw (e, links_of-same t.pcbs s.pcbs ws same) h.queue;
  owned = Owned-same t.pcbs s.pcbs s.store t.store ws same (λ a. rw e) h.owned;
}

-- A link that is on none of the processes' places may change its object.
pub Owned-links :
    (f : Ptr → Pcb) (s t : Store) (m : Ptr) (ps : List Ptr)
    → has m (links_of f ps) ≡ false
    → ((a : Ptr) → (a == m) ≡ false → (t.links a).object ≡ (s.links a).object)
    → Owned f s ps
    → Owned f t ps
Owned-links f s t m [] h objects o = tt
Owned-links f s t m (x ∷ ps) h objects (a, b) =
    (objects (f x).link (ground arith) ∙ a, Owned-links f s t m ps (ground arith) objects b)
