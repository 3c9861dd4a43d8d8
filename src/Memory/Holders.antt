-- ===== src/Memory/Holders.antt =====
-- Runs of `MemoryAllocPage` and `MemoryFreePage` of os/memory.c, and the pages that are in use.
use ece695os_lab.Prelude.{
  ℕ, ◌+◌, ◌-◌, ◌*◌, ◌/◌, ◌^◌, ◌<◌, ◌≤◌, ◌≡◌, ◌≢◌, ◌⊎◌, true, false, ◌&&◌, ◌||◌, inl, inr, refl,
  arith, ap, sym, ◌∙◌, List, [], ◌∷◌, length, has, Distinct, some, none, ltb, leb, without,
  Distinct-without, length-without_member, has-without_cons_and, has-without_cons_or, has-IsBelow,
  Option,
}
use ece695os_lab.Memory.{Memory, alloc_page, free_page, module_init, page_size}
use ece695os_lab.Memory.Pages.{IsPool}
use ece695os_lab.Memory.Alloc.{
  Allocated, alloc_page-Allocated, alloc_page-none, free_page-IsPool, free_page-freemapmax,
}
use ece695os_lab.Memory.Init.{Free, module_init-Free}

-- The states that a run reaches from `m0`, with the pages that it was given and has not given back;
-- only such a page is given back.
pub data PagesReach (m0 : Memory) : Memory → List ℕ → Type 0 where
  start : PagesReach m0 m0 []
  alloc :
      {m m' : Memory} {held : List ℕ} {p : ℕ}
      → PagesReach m0 m held
      → alloc_page m ≡ some (p, m')
      → p ≢ 0
      → PagesReach m0 m' (p ∷ held)
  fail :
      {m m' : Memory} {held : List ℕ}
      → PagesReach m0 m held
      → alloc_page m ≡ some (0, m')
      → PagesReach m0 m' held
  free :
      {m : Memory} {held : List ℕ} (p : ℕ)
      → PagesReach m0 m held
      → has p held ≡ true
      → PagesReach m0 (free_page p m) (without p held)

-- The pages from `a` to `b` are those that are free and those that are held, and none is both.
pub record Shared (m : Memory) (held : List ℕ) (a b : ℕ) : Type 0 where
  pub pages : List ℕ
  pub pool : IsPool m pages
  pub distinct : Distinct held
  pub apart : (q : ℕ) → (has q pages && has q held) ≡ false
  pub all : (q : ℕ) → (has q pages || has q held) ≡ (leb a q && ltb q b)
  pub amount : length pages + length held ≡ b - a
  pub room : b ≤ 32 * m.freemapmax

abbrev some_or {ℓ} : {A : Type ℓ} → A → Option A → A
some_or a none = a
some_or a (some b) = b

-- What `MemoryAllocPage` gives in one way it gives in another.
same_result :
    {o : Option (ℕ × Memory)} {m' m'' : Memory} {p q : ℕ}
    → o ≡ some (p, m')
    → o ≡ some (q, m'')
    → (p ≡ q) × (m' ≡ m'')
same_result {o} {m'} {m''} {p} {q} e f =
    let both = ap (some_or (p, m')) (sym e ∙ f) in
    (ap (λ (x : ℕ × Memory). x.0) both, ap (λ (x : ℕ × Memory). x.1) both)

List-cases : (xs : List ℕ) → (xs ≡ []) ⊎ (xs ≢ [])
List-cases [] = inl refl
List-cases (x ∷ xs) = inr (λ e. cc)

module _ {a b : ℕ} (pos : 1 ≤ a) where
  Allocated-Shared :
      {m : Memory} {held : List ℕ} (w : Shared m held a b) (z : Allocated m w.pages)
      → Shared z.after (z.page ∷ held) a b
  Allocated-Shared {m} {held} w z =
      let taken : has z.page held ≡ false =
        let e = w.apart z.page in let f = z.was_free in ground arith in
      record {
        pages = without z.page w.pages;
        pool = z.pool;
        distinct = (taken, w.distinct);
        apart = λ q. has-without_cons_and q z.page w.pages held z.was_free taken ∙ w.apart q;
        all = λ q. has-without_cons_or q z.page w.pages held z.was_free taken ∙ w.all q;
        amount =
            let e = length-without_member z.page w.pages w.pool.distinct z.was_free in
            let c = w.amount in omega arith;
        room = let e = z.size in rw e w.room;
      }

  alloc-Shared :
      {m m' : Memory} {held : List ℕ} {p : ℕ}
      → Shared m held a b
      → alloc_page m ≡ some (p, m')
      → p ≢ 0
      → Shared m' (p ∷ held) a b
  alloc-Shared {m} {m'} {held} {p} w run ne = elim (List-cases w.pages) [
    | inl e ↦ absurd (ne (same_result run (alloc_page-none (rw e at w.pool))).0)
    | inr e ↦
        let z = alloc_page-Allocated w.pool e in
        let (page, after) = same_result run z.run in rw (page, after) (Allocated-Shared w z)
  ]

  fail-Shared :
      {m m' : Memory} {held : List ℕ}
      → Shared m held a b
      → alloc_page m ≡ some (0, m')
      → Shared m' held a b
  fail-Shared {m} {m'} {held} w run = elim (List-cases w.pages) [
    | inl e ↦ let after = (same_result run (alloc_page-none (rw e at w.pool))).1 in rw after w
    | inr e ↦
        let z = alloc_page-Allocated w.pool e in
        let zero_page = (same_result run z.run).0 in
        let (low, high) = has-IsBelow 65535 z.page w.pages w.pool.below z.was_free in
        absurd (omega arith)
  ]

  free-Shared :
      {m : Memory} {held : List ℕ} (p : ℕ)
      → Shared m held a b
      → has p held ≡ true
      → Shared (free_page p m) (without p held) a b
  free-Shared {m} {held} p w h =
      let mine = w.all p in
      let used : has p w.pages ≡ false = let e = w.apart p in ground arith in
      record {
        pages = p ∷ w.pages;
        pool = free_page-IsPool p w.pool (λ z. ground arith) (let r = w.room in ground arith) used;
        distinct = Distinct-without p held w.distinct;
        apart = λ q.
            (let e = w.apart q in
              let f = has-without_cons_and q p held w.pages h used in ground arith);
        all = λ q.
            (let e = w.all q in
              let f = has-without_cons_or q p held w.pages h used in ground arith);
        amount =
            let e = length-without_member p held w.distinct h in let c = w.amount in omega arith;
        room = (let e = free_page-freemapmax p m in rw e w.room);
      }

  PagesReach-Shared :
      {m0 m : Memory} {held : List ℕ} → Shared m0 [] a b → PagesReach m0 m held → Shared m held a b
  PagesReach-Shared w start = w
  PagesReach-Shared w (alloc r run ne) = alloc-Shared (PagesReach-Shared w r) run ne
  PagesReach-Shared w (fail r run) = fail-Shared (PagesReach-Shared w r) run
  PagesReach-Shared w (free p r h) = free-Shared p (PagesReach-Shared w r) h

Free-Shared : {m : Memory} {a b : ℕ} → Free m a b (b - a) → Shared m [] a b
Free-Shared f = record {
  pages = f.pages;
  pool = f.pool;
  distinct = tt;
  apart = λ q. ground arith;
  all = λ q. (let e = f.known q in ground arith);
  amount = let e = f.amount in omega arith;
  room = f.room;
}

alloc_page-not_held :
    {m : Memory} {held : List ℕ} {a b : ℕ}
    → 1 ≤ a
    → Shared m held a b
    → (p : ℕ) × (m' : Memory) × (alloc_page m ≡ some (p, m')) × (has p held ≡ false)
alloc_page-not_held {m} {held} {a} {b} pos w = elim (List-cases w.pages) [
  | inl e ↦ (0, m, alloc_page-none (rw e at w.pool), (let z = w.all 0 in ground arith))
  | inr e ↦
      let z = alloc_page-Allocated w.pool e in
      (z.page, z.after, z.run, (let f = w.apart z.page in let g = z.was_free in ground arith))
]

-- From `MemoryModuleInit` on, with a page at least behind the system, and whatever pages are asked
-- for and given back: MemoryAllocPage always ends and never gives a page that is in use; the pages
-- in use are distinct, they and those that the map has as free are the pages from the first one
-- behind the system to the end of the memory, no page is both, and the count of free pages is theirs.
pub module_init-Shared :
    (size last : ℕ) (m0 : Memory) {m : Memory} {held : List ℕ}
    → m0.mapnum ≡ 0
    → size < 2 ^ 31
    → 4 ≤ last
    → last + page_size ≤ size
    → PagesReach (module_init size last m0) m held
    → Shared m held ((last + page_size - 4) / page_size) (size / page_size)
      × ((p : ℕ) × (m' : Memory) × (alloc_page m ≡ some (p, m')) × (has p held ≡ false))
module_init-Shared size last m0 {m} {held} e h k l r =
    let f = module_init-Free size last m0 e h k l in
    let pos : 1 ≤ (last + page_size - 4) / page_size = omega arith in
    let w = PagesReach-Shared pos (Free-Shared f) r in (w, alloc_page-not_held pos w)
