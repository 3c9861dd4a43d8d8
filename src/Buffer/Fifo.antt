-- ===== src/Buffer/Fifo.antt =====
-- The buffer of apps/q2 and apps/q4 is a queue: what comes out is what went in, in order.
use mathlib.Core.List.{append-nil, append_assoc}
use ece695os_lab.Prelude.{
  ℕ, zero, suc, ◌+◌, ◌-◌, ◌≤◌, ◌≡◌, false, List, [], ◌∷◌, ◌++◌, length, length-append, update,
  update_self, refl, arith, ap, sym, ◌∙◌,
}
use ece695os_lab.Buffer.{Ring, is_empty, insert, remove, empty_ring, Output, nothing, put, got}

-- The `n` characters from the place `a` on.
abbrev pub segment : (ℕ → ℕ) → ℕ → ℕ → List ℕ
segment chars a zero = []
segment chars a (suc n) = chars a ∷ segment chars (a + 1) n

-- What is in the buffer, first to last.
abbrev pub contents : Ring → List ℕ
contents r = segment r.chars r.tail (r.head - r.tail)

segment-update :
    (chars : ℕ → ℕ) (a n p v : ℕ) → a + n ≤ p → segment (update chars p v) a n ≡ segment chars a n
segment-update chars a zero p v h = refl
segment-update chars a (suc n) p v h = ground (arith, segment-update chars (a + 1) n p v)

segment-last :
    (chars : ℕ → ℕ) (a n : ℕ) → segment chars a (suc n) ≡ segment chars a n ++ chars (a + n) ∷ []
segment-last chars a zero = let e : a + 0 ≡ a = omega arith in rw e refl
segment-last chars a (suc n) =
    let e : a + suc n ≡ a + 1 + n = omega arith in
    rw e (ap (λ zs. chars a ∷ zs) (segment-last chars (a + 1) n))

-- `xs` went in and `ys` came out, and the places are taken one after the other.
pub record Fifo (xs ys : List ℕ) (r : Ring) : Type 0 where
  pub order : r.tail ≤ r.head
  pub rest : xs ≡ ys ++ contents r
  pub heads : r.head ≡ length xs
  pub tails : r.tail ≡ length ys

insert-Fifo :
    (c : ℕ) (xs ys : List ℕ) (r : Ring) → Fifo xs ys r → Fifo (xs ++ c ∷ []) ys (insert c r)
unfolding insert
insert-Fifo c xs ys r f =
    let size : r.head + 1 - r.tail ≡ suc (r.head - r.tail) = omega (arith, f.order) in
    let place : r.tail + (r.head - r.tail) ≡ r.head = omega (arith, f.order) in
    let old = segment-update r.chars r.tail (r.head - r.tail) r.head c (omega (arith, f.order)) in
    let last : update r.chars r.head c (r.tail + (r.head - r.tail)) ≡ c =
      rw place (update_self r.chars r.head c) in
    let all : contents (insert c r) ≡ contents r ++ c ∷ [] =
      rw size
        (segment-last (update r.chars r.head c) r.tail (r.head - r.tail) ∙ rw (last, old) refl) in
    record {
      order = omega (arith, f.order);
      rest = rw all (rw (f.rest) (append_assoc ys (contents r) (c ∷ [])));
      heads = omega (arith, f.heads, length-append {0} xs (c ∷ []));
      tails = f.tails;
    }

remove-Fifo :
    (xs ys : List ℕ) (r : Ring)
    → is_empty r ≡ false
    → Fifo xs ys r
    → Fifo xs (ys ++ (remove r).0 ∷ []) (remove r).1
unfolding remove
remove-Fifo xs ys r some f =
    let size : r.head - r.tail ≡ suc (r.head - (r.tail + 1)) = ground (arith, f.order) in
    let first : contents r ≡ r.chars r.tail ∷ segment r.chars (r.tail + 1) (r.head - (r.tail + 1)) =
      rw size refl in
    record {
      order = ground (arith, f.order);
      rest =
          f.rest
          ∙ ap (λ zs. ys ++ zs) first
          ∙ sym (
              append_assoc ys (r.chars r.tail ∷ [])
                (segment r.chars (r.tail + 1) (r.head - (r.tail + 1))));
      heads = f.heads;
      tails = omega (arith, f.tails, length-append {0} ys (r.chars r.tail ∷ []));
    }

-- What a step does to the buffer, with what it prints.
abbrev pub Feeds : Output → Ring → Ring → Type 0
Feeds o r t = (xs ys : List ℕ) → Fifo xs ys r → Fifo (xs ++ o.inserted) (ys ++ o.removed) t

pub nothing-Feeds : (r : Ring) → Feeds nothing r r
nothing-Feeds r xs ys f = rw append-nil (rw append-nil f)

pub put-Feeds : (c : ℕ) (r : Ring) → Feeds (put c) r (insert c r)
put-Feeds c r xs ys f = rw append-nil (insert-Fifo c xs ys r f)

pub got-Feeds : (r : Ring) → is_empty r ≡ false → Feeds (got (remove r).0) r (remove r).1
got-Feeds r some xs ys f = rw append-nil (remove-Fifo xs ys r some f)

pub empty-Fifo : (chars : ℕ → ℕ) → Fifo [] [] (empty_ring chars)
empty-Fifo chars = record { order = omega arith; rest = refl; heads = refl; tails = refl }
