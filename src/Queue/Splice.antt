-- ===== src/Queue/Splice.antt =====
-- Insertion and removal in the links of os/queue.c: what the pointer surgery does to a chain.
use ece695os_lab.Prelude.{
  ◌≤◌, ◌≡◌, ◌≢◌, false, List, ◌∷◌, ◌++◌, ◌==◌, update, arith, head_or, last_or, has, Distinct,
  Apart, Distinct-split, Apart-has, Apart-has_right, head_or-ne, last_or-ne, ne_of_has_not,
  Apart-tail,
}
use ece695os_lab.Queue.{
  Ptr, null, Links, queue_max_links, fix_next, fix_prev, splice_after, splice_before, unlink,
  unlink_back,
}
use ece695os_lab.Queue.Chain.{
  IsLinked, IsLinked-frame, Chain, Chain-frame, Chain-ne_null, Chain-split, Chain-join,
  Chain-fix_next, Chain-fix_prev, fix_next-ne, fix_prev-ne,
}

-- What the two insertions leave of the links, between `before` and `after`.
abbrev pub placed : Ptr → Ptr → Ptr → Ptr → Links → Links
placed q before l after h =
    update h l (record { next = after; prev = before; queue = q; object = (h l).object })

placed-ne :
    (q before l after : Ptr) (h : Links) (a : Ptr)
    → (a == l) ≡ false
    → placed q before l after h a ≡ h a
placed-ne q before l after h a e = rw e

abbrev pub spliced : Ptr → Ptr → Ptr → Ptr → Links → Links
spliced q before l after h = fix_prev after l (fix_next before l (placed q before l after h))

abbrev pub bypass : Ptr → Ptr → Links → Links
bypass before after h = fix_prev after before (fix_next before after h)

-- What a removal leaves, in either order of its two writes.
pub unlink_lem :
    (before l after : Ptr) (h : Links)
    → (h l).prev ≡ before
    → (h l).next ≡ after
    → (l == before) ≡ false
    → (x : Ptr) → unlink l h x ≡ bypass before after h x
unfolding unlink fix_next fix_prev
unlink_lem before l after h p n e x = ground arith

pub unlink_back_lem :
    (before l after : Ptr) (h : Links)
    → (h l).prev ≡ before
    → (h l).next ≡ after
    → (l == after) ≡ false
    → (x : Ptr) → unlink_back l h x ≡ bypass before after h x
unfolding unlink_back fix_next fix_prev
unlink_back_lem before l after h p n e x = ground arith

pub splice_after_lem :
    (q before l after : Ptr) (h : Links)
    → (before ≢ null → (h before).next ≡ after)
    → (before ≡ null → after ≡ null)
    → (l == before) ≡ false
    → (x : Ptr) → splice_after q before l h x ≡ spliced q before l after h x
unfolding splice_after fix_next fix_prev
splice_after_lem q before l after h n z e x = ground arith

pub splice_before_lem :
    (q before l after : Ptr) (h : Links)
    → (after ≢ null → (h after).prev ≡ before)
    → (after ≡ null → before ≡ null)
    → (l == after) ≡ false
    → (x : Ptr) → splice_before q after l h x ≡ spliced q before l after h x
unfolding splice_before fix_next fix_prev
splice_before_lem q before l after h n z e x = ground arith

-- Writing the two sides of a gap gives each part of the chain its new end.
gap-parts :
    (h : Links) (q : Ptr) (xs ys : List Ptr) (stop start n p : Ptr)
    → Chain h q null xs stop
    → Chain h q start ys null
    → Distinct xs × Distinct ys × Apart xs ys
    → let g = fix_prev (head_or ys null) p (fix_next (last_or xs null) n h) in
      Chain g q null xs n × Chain g q p ys null
gap-parts h q xs ys stop start n p front back (dx, dy, apart) =
    let before = last_or xs null in
    let after = head_or ys null in
    let h1 = fix_next before n h in
    let front1 = Chain-fix_next h q null xs stop n front dx in
    let back1 = Chain-frame h q h1 start ys null back λ a m. fix_next-ne before n h a (
      last_or-ne a null xs (ne_of_has_not a null ys (Chain-ne_null h q start ys null back) m)
        (Apart-has_right a xs ys apart m)) in
    (
      Chain-frame h1 q (fix_prev after p h1) null xs n front1 λ a m. fix_prev-ne after p h1 a (
          head_or-ne a ys (ne_of_has_not a null xs (Chain-ne_null h q null xs stop front) m)
            (Apart-has a xs ys apart m)),
      Chain-fix_prev h1 q start ys null p back1 dy,
    )

pub bypass-Chain :
    (h : Links) (q l : Ptr) (xs ys : List Ptr)
    → Chain h q null (xs ++ l ∷ ys) null
    → Distinct (xs ++ l ∷ ys)
    → Chain (bypass (last_or xs null) (head_or ys null) h) q null (xs ++ ys) null
bypass-Chain h q l xs ys c d =
    let (front, back) = Chain-split h q null xs (l ∷ ys) null c in
    let (dx, dy, apart) = Distinct-split xs (l ∷ ys) d in
    let before = last_or xs null in
    let after = head_or ys null in
    let (front', back') =
      gap-parts h q xs ys l l after before front back.1 (dx, dy.1, Apart-tail l xs ys apart) in
    Chain-join (bypass before after h) q null xs ys null front' back'

-- A link that is on no part of the chain goes between the parts.
pub spliced-Chain :
    (h : Links) (q l : Ptr) (xs ys : List Ptr)
    → Chain h q null (xs ++ ys) null
    → Distinct (xs ++ ys)
    → l ≢ null
    → l ≤ queue_max_links
    → has l xs ≡ false
    → has l ys ≡ false
    → Chain (spliced q (last_or xs null) l (head_or ys null) h) q null (xs ++ l ∷ ys) null
spliced-Chain h q l xs ys c d nz pool outx outy =
    let (front, back) = Chain-split h q null xs ys null c in
    let before = last_or xs null in
    let after = head_or ys null in
    let h1 = placed q before l after h in
    let h2 = fix_next before l h1 in
    let z : (l == null) ≡ false = ground arith in
    let here : IsLinked h1 q l before after = record {
      ne_null = nz;
      in_pool = pool;
      prev_eq = ground arith;
      next_eq = ground arith;
      queue_eq = ground arith;
    } in
    let (front', back') =
      gap-parts h1 q xs ys after before l l
        (Chain-frame h q h1 null xs after front
          λ a m. placed-ne q before l after h a (ne_of_has_not a l xs outx m))
        (Chain-frame h q h1 before ys null back
          λ a m. placed-ne q before l after h a (ne_of_has_not a l ys outy m))
        (Distinct-split xs ys d) in
    Chain-join (fix_prev after l h2) q null xs (l ∷ ys) null front' (
      IsLinked-frame (fix_prev after l h2) h2 (fix_prev-ne after l h2 l (head_or-ne l ys z outy))
          (IsLinked-frame h2 h1 (fix_next-ne before l h1 l (last_or-ne l null xs z outx)) here),
      back',
    )
