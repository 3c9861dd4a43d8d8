-- ===== src/Process/Enter.antt =====
-- A process that is made ready while its other fields change.
use ece695os_lab.Prelude.{
  ◌≡◌, ◌⊎◌, false, some, ◌==◌, refl, arith, Bool-cases, Option-cases, inl, inr, update, ==_self,
  ◌∙◌, sym, ap,
}
use ece695os_lab.Queue
use ece695os_lab.Queue.{Ptr, null, Status, success, fail, Store}
use ece695os_lab.Kernel.{Pcb, Os, ◌⨾◌, Act, set_pcb}
use ece695os_lab.Process.{remove_link, alloc_link, insert_last, slot_or_null}
use ece695os_lab.Process.Transfer.{alloc_link-some, insert_last-some}

-- The queues of `t` are those of `s`: the store is the same, and so is the link of each process.
pub record SameQueues (s t : Os) : Type 0 where
  pub store : t.store ≡ s.store
  pub links : (a : Ptr) → (t.pcbs a).link ≡ (s.pcbs a).link

-- Two steps that run through.
pub ⨾-split :
    (f g : Act) (s : Os) {t : Os} → (f ⨾ g) s ≡ some t → (u : Os) × (f s ≡ some u) × (g u ≡ some t)
⨾-split f g s e = elim (Option-cases (f s)) [
  | inl n ↦ cc (rw (n, ◌⨾◌) at e)
  | inr (u, n) ↦ (u, n, rw (n, ◌⨾◌) at e)
]

Status-cases : (st : Status) → (st ≡ success) ⊎ (st ≡ fail)
Status-cases success = inl refl
Status-cases fail = inr refl

-- `alloc_link` and `insert_last` run through, or not, by the queues alone.
module _ (r p : Ptr) (s : Os) where
  abbrev got : Ptr × Store
  got = Queue.alloc_link p s.store

  abbrev joined : Status × Store
  joined = Queue.insert_last r got.0 got.1

  abbrev linked : Os
  linked = set_pcb p (record (s.pcbs p) { link = got.0 }) (record s { store = got.1 })

  abbrev pub entered : Os
  entered = record linked { store = joined.1 }

  linked_link : (linked.pcbs p).link ≡ got.0
  linked_link = rw (==_self p)

  enter-run :
      (got.0 == null) ≡ false
      → joined.0 ≡ success
      → (alloc_link p ⨾ insert_last r p) s ≡ some entered
  enter-run n i =
      rw (alloc_link-some p s n, ◌⨾◌)
        (insert_last-some r p linked
            (ap (λ (l : Ptr). (Queue.insert_last r l got.1).0) linked_link ∙ i)
          ∙ ap (λ (l : Ptr). some (record linked { store = (Queue.insert_last r l got.1).1 }))
              linked_link)

  enter-inversion :
      {t : Os}
      → (alloc_link p ⨾ insert_last r p) s ≡ some t
      → ((got.0 == null) ≡ false) × (joined.0 ≡ success)
  unfolding alloc_link insert_last
  enter-inversion {t} e = elim (Bool-cases (got.0 == null)) [
    | inl n ↦ cc (rw (n, ◌⨾◌, alloc_link) at e)
    | inr n ↦ elim (Status-cases joined.0) [
      | inl i ↦ (n, i)
      | inr i ↦ cc (rw (n, ==_self p, i, ◌⨾◌, alloc_link, insert_last) at e)
    ]
  ]

pub enter-same :
    (r p : Ptr) (s u t : Os)
    → SameQueues s u
    → (alloc_link p ⨾ insert_last r p) s ≡ some t
    → ((alloc_link p ⨾ insert_last r p) u ≡ some (entered r p u)) × SameQueues t (entered r p u)
enter-same r p s u t same e =
    let (n, i) = enter-inversion r p s e in
    let here : t ≡ entered r p s = cc (enter-run r p s n i) in
    (
      enter-run r p u (ap (λ (v : Store). (Queue.alloc_link p v).0 == null) same.store ∙ n) (
          ap
            (λ (v : Store).
              (Queue.insert_last r (Queue.alloc_link p v).0 (Queue.alloc_link p v).1).0)
            same.store
          ∙ i),
      record {
        store =
            ap
              (λ (v : Store).
                (Queue.insert_last r (Queue.alloc_link p v).0 (Queue.alloc_link p v).1).1)
              same.store
            ∙ sym (ap (λ (o : Os). o.store) here);
        links = λ a. elim (Bool-cases (a == p)) [
          | inl e ↦ rw here (rw e (ap (λ (v : Store). (Queue.alloc_link p v).0) same.store))
          | inr e ↦ rw here (rw e (same.links a))
        ];
      },
    )

-- The removal of a link changes the link of that process alone, and the queues.
pub remove_link-frame :
    (p : Ptr) (s t : Os)
    → remove_link p s ≡ some t
    → t ≡ record (set_pcb p (record (s.pcbs p) { link = (t.pcbs p).link }) s) { store = t.store }
unfolding remove_link
remove_link-frame p s t e = elim (Status-cases (Queue.remove (some (s.pcbs p).link) s.store).0) [
  | inl i ↦
      let here : t
          ≡ record (set_pcb p
              (record (s.pcbs p) {
                link = slot_or_null (Queue.remove (some (s.pcbs p).link) s.store).1;
              })
              s) { store = (Queue.remove (some (s.pcbs p).link) s.store).2 } =
        cc (rw (i, remove_link) at e) in
      rw here (rw (==_self p) refl)
  | inr i ↦ cc (rw (i, remove_link) at e)
]

-- A store and the processes are those of `s`, but for the fields of the process `p` other than its
-- link.
pub record Dresses (p : Ptr) (s : Os) (store : Store) (pcbs : Ptr → Pcb) : Type 0 where
  pub same : store ≡ s.store
  pub links : (a : Ptr) → (pcbs a).link ≡ (s.pcbs a).link
  pub others : (a : Ptr) → (a == p) ≡ false → pcbs a ≡ s.pcbs a

pub unchanged-Dresses : (p : Ptr) (s : Os) → Dresses p s s.store s.pcbs
unchanged-Dresses p s = record { same = refl; links = λ a. refl; others = λ a n. refl }

pub Dresses-update :
    {p : Ptr} {s : Os} {store : Store} {pcbs : Ptr → Pcb} (v : Pcb)
    → v.link ≡ (pcbs p).link
    → Dresses p s store pcbs
    → Dresses p s store (update pcbs p v)
Dresses-update {p} {s} {store} {pcbs} v e d = record {
  same = d.same;
  links = λ a. ground (arith, d.links a, d.links p);
  others = λ a n. rw n (d.others a n);
}

pub Dresses-SameQueues : {p : Ptr} {s t : Os} → Dresses p s t.store t.pcbs → SameQueues s t
Dresses-SameQueues d = record { store = d.same; links = d.links }
