-- ===== src/Memory/Copy/Rounds.antt =====
-- One round of moveBetweenSpaces of os/memory.c, and what all the rounds behind it have done.
use ece695os_lab.Prelude.{
  ℕ, ◌+◌, ◌-◌, ◌^◌, ◌<◌, ◌≤◌, ◌≡◌, ◌≢◌, ◌⊎◌, Bool, true, false, ltb, ◌==◌, if◌then◌else◌, refl, sym,
  arith, Bool-cases, inl, inr, ◌∙◌,
}
use ece695os_lab.Memory.{translate_user_to_system}
use ece695os_lab.Misc.{Bytes, bcopy}
use ece695os_lab.Misc.Regions.{bcopy-kept, bcopy-Moved}
use ece695os_lab.Memory.Copy.Sources.{
  IsAligned, IsApart, IsDistinct, IsOutside, translate-add, IsApart-first, IsApart-later,
  IsDistinct-later, IsDistinct-IsOutside, IsOutside-first, IsOutside-later,
}
use ece695os_lab.Memory.Copy.{chunk}

pub chunk-bounds : (at n : ℕ) → 0 < n → (0 < chunk at n) × (chunk at n ≤ n)
chunk-bounds at n pos = ground arith

chunk-small : (at n : ℕ) → chunk at n < 2 ^ 31
chunk-small at n = ground arith

module _ (npages : ℕ) (pagetable : ℕ → ℕ) (to_user : Bool) where
  -- The loop has ended with the count `c`.
  pub record Ran (s u n copied c : ℕ) (m t : Bytes) : Type 0 where
    pub from : copied ≤ c
    pub to : c ≤ copied + n
    pub whole :
        (c ≡ copied + n) ⊎ (translate_user_to_system npages pagetable (u + (c - copied)) ≡ 0)
    pub system : (a : ℕ) → to_user ≡ false → (a < s) ⊎ (s + (c - copied) ≤ a) → t a ≡ m a
    pub content :
        to_user ≡ false
        → IsAligned npages pagetable
        → IsApart npages pagetable s u n
        → (i : ℕ) → i < c - copied
        → t (s + i) ≡ m (translate_user_to_system npages pagetable (u + i))
    pub user :
        to_user ≡ true
        → IsAligned npages pagetable
        → (a : ℕ) → IsOutside npages pagetable u (c - copied) a
        → t a ≡ m a
    pub user_content :
        to_user ≡ true
        → IsAligned npages pagetable
        → IsApart npages pagetable s u n
        → IsDistinct npages pagetable u n
        → (i : ℕ) → i < c - copied
        → t (translate_user_to_system npages pagetable (u + i)) ≡ m (s + i)

  pub stopped :
      (s u n copied : ℕ) (m : Bytes)
      → (n ≡ 0) ⊎ (translate_user_to_system npages pagetable u ≡ 0)
      → Ran s u n copied copied m m
  stopped s u n copied m end =
      let here : u + (copied - copied) ≡ u = omega arith in
      record {
        from = omega arith;
        to = omega arith;
        whole = elim end [ inl e ↦ inl (omega (arith, e)) | inr e ↦ inr (rw here e) ];
        system = λ a b out. refl;
        content = λ b aligned apart i h. absurd (omega (arith, h));
        user = λ b aligned a out. refl;
        user_content = λ b aligned apart distinct i h. absurd (omega (arith, h));
      }

  abbrev pub moved : ℕ → ℕ → ℕ → Bytes → Bytes
  moved s at k m = if to_user then bcopy s at k m else bcopy at s k m

  -- A round of the loop: what the rest of it has done is known.
  module _ (s u n copied c k : ℕ) (m t : Bytes)
      (e : k ≡ chunk (translate_user_to_system npages pagetable u) n)
      (found : (translate_user_to_system npages pagetable u == 0) ≡ false) (pos : 0 < n)
      (fits : k ≤ n)
      (r : Ran
        (s + k)
        (u + k)
        (n - k)
        (copied + k)
        c
        (moved s (translate_user_to_system npages pagetable u) k m)
        t) where
    abbrev at : ℕ
    at = translate_user_to_system npages pagetable u

    steps :
        IsAligned npages pagetable
        → (j : ℕ) → j < k
        → translate_user_to_system npages pagetable (u + j) ≡ at + j
    steps aligned j l = translate-add npages pagetable u n j aligned found (rw (sym e) l)

    short : k < 2 ^ 31
    short = rw e (chunk-small at n)

    round_content :
        to_user ≡ false
        → IsAligned npages pagetable
        → IsApart npages pagetable s u n
        → (i : ℕ) → i < c - copied
        → t (s + i) ≡ m (translate_user_to_system npages pagetable (u + i))
    round_content b aligned apart i h =
        let sides = IsApart-first npages pagetable s u n k apart pos fits (steps aligned) in
        let first =
          bcopy-Moved at s k m short
            (elim sides [ inl x ↦ inl (omega (arith, x)) | inr x ↦ inr x ]) in
        let kept = bcopy-kept at s k in
        elim (Bool-cases (ltb i k)) [
          | inl l ↦
              let near : i < k = ground arith in
              r.system (s + i) b (inl (omega (arith, near)))
              ∙ rw (b, steps aligned i near) (first.copied i near)
          | inr l ↦
              let far : k ≤ i = ground arith in
              let here : s + k + (i - k) ≡ s + i = omega (arith, far) in
              let there : u + k + (i - k) ≡ u + i = omega (arith, far) in
              let later =
                r.content b aligned (IsApart-later npages pagetable s u n k fits apart) (i - k)
                  (omega (arith, h, far)) in
              rw (here, there, b) at later
              ∙ kept (translate_user_to_system npages pagetable (u + i)) m
                  (elim (apart i (omega (arith, h))) [
                    | inl x ↦ inl x
                    | inr x ↦ inr (omega (arith, x))
                  ])
        ]

    round_user :
        to_user ≡ true
        → IsAligned npages pagetable
        → (a : ℕ) → IsOutside npages pagetable u (c - copied) a
        → t a ≡ m a
    round_user b aligned a out =
        let low = r.from in
        let rest : c - copied - k ≡ c - (copied + k) = omega arith in
        let some_counted : k ≤ c - copied = omega arith in
        r.user b aligned a
          (rw rest at (IsOutside-later npages pagetable u (c - copied) k a some_counted out))
        ∙ rw b (
            bcopy-kept s at k a m (
              IsOutside-first npages pagetable u (c - copied) k a some_counted out (steps aligned)))

    round_user_content :
        to_user ≡ true
        → IsAligned npages pagetable
        → IsApart npages pagetable s u n
        → IsDistinct npages pagetable u n
        → (i : ℕ) → i < c - copied
        → t (translate_user_to_system npages pagetable (u + i)) ≡ m (s + i)
    round_user_content b aligned apart distinct i h =
        let low = r.from in
        let high = r.to in
        let sides = IsApart-first npages pagetable s u n k apart pos fits (steps aligned) in
        let first =
          bcopy-Moved s at k m short
            (elim sides [ inl x ↦ inr (omega (arith, x)) | inr x ↦ inl x ]) in
        elim (Bool-cases (ltb i k)) [
          | inl l ↦
              let near : i < k = ground arith in
              let e1 = steps aligned i near in
              let there : translate_user_to_system npages pagetable (u + i) ≢ 0 =
                λ z. absurd (ground arith) in
              let out =
                IsDistinct-IsOutside npages pagetable u n k (c - (copied + k)) i near (omega arith)
                  there distinct in
              r.user b aligned (translate_user_to_system npages pagetable (u + i)) out
              ∙ rw (b, e1) (first.copied i near)
          | inr l ↦
              let far : k ≤ i = ground arith in
              let here : s + k + (i - k) ≡ s + i = omega (arith, far) in
              let there : u + k + (i - k) ≡ u + i = omega (arith, far) in
              let later =
                r.user_content b aligned (IsApart-later npages pagetable s u n k fits apart)
                  (IsDistinct-later npages pagetable u n k fits distinct) (i - k)
                  (omega (arith, h, far)) in
              rw (here, there, b) at later
              ∙ bcopy-kept s at k (s + i) m (elim sides [
                | inl x ↦ inl (omega (arith, x, h))
                | inr x ↦ inr (omega (arith, x))
              ])
        ]

    pub Ran-round : Ran s u n copied c m t
    Ran-round =
        let low = r.from in
        let high = r.to in
        let place : u + k + (c - (copied + k)) ≡ u + (c - copied) = omega arith in
        record {
          from = omega arith;
          to = omega arith;
          whole = elim r.whole [ inl w ↦ inl (omega (arith, w)) | inr w ↦ inr (rw place at w) ];
          system = λ a b out.
              r.system a b
                (elim out [ inl h ↦ inl (omega (arith, h)) | inr h ↦ inr (omega (arith, h)) ])
              ∙ rw b (
                  bcopy-kept at s k a m
                    (elim out [ inl h ↦ inl h | inr h ↦ inr (omega (arith, h)) ]));
          content = round_content;
          user = round_user;
          user_content = round_user_content;
        }
