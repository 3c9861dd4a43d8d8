-- ===== src/Files/Table.antt =====
-- What `FsOpen` and `FsClose` of os/filesys.c do to the table of open files.
use Prim.Native.Nat.{bit_and}
use ece695os_lab.Prelude.{
  ℕ, ◌<◌, ◌≡◌, ◌≢◌, ◌⊎◌, inl, inr, true, false, ◌==◌, leb, refl, arith, update, update_self,
  ==_self, if◌then◌else◌, Bool-cases, sym, ap, ◌∙◌,
}
use ece695os_lab.Kernel.{is_negative, minus_one}
use ece695os_lab.Synch.{find_free}
use ece695os_lab.Synch.Find.{find_free-Found}
use ece695os_lab.Files.{
  Files, Host, max_open_files, mode_rw, open_file, open_at, unix_open, close_file, is_free_file,
  is_dlx, fd_valid,
}

-- A slot as it was.
pub record IsKept {W : Type 0} (s t : Files W) (j : ℕ) : Type 0 where
  pub flags : t.flags j ≡ s.flags j
  pub fs : t.fs j ≡ s.fs j
  pub info : t.info j ≡ s.info j

-- The outcome of an open at the slot `i`: an error that leaves the mode of every slot as it was, or
-- the slot, which has the mode then. The other slots are as before.
abbrev Opens : {W : Type 0} → ℕ → ℕ → Files W → ℕ × Files W → Type 0
Opens i mode s (r, t) =
    (((is_negative r ≡ true) × (t.flags i ≡ s.flags i)) ⊎ ((r ≡ i) × (t.flags i ≡ mode)))
    × ((j : ℕ) → j ≢ i → IsKept s t j)

flags_back : (f : ℕ → ℕ) (i mode j : ℕ) → f i ≡ 0 → update (update f i mode) i 0 j ≡ f j
flags_back f i mode j e = elim (Bool-cases (j == i)) [
  | inl m ↦ let n : j ≡ i = ground arith in rw (n, ==_self i) (sym e)
  | inr m ↦ rw m refl
]

flags_set : (f : ℕ → ℕ) (i mode j : ℕ) → j ≢ i → update f i mode j ≡ f j
flags_set f i mode j ne = let e : (j == i) ≡ false = ground arith in rw e refl

unchanged : {W : Type 0} (s : Files W) (j : ℕ) → IsKept s s j
unchanged s j = record { flags = refl; fs = refl; info = refl }

in_use : {W : Type 0} (s : Files W) (i j : ℕ) → s.flags i ≡ 0 → s.flags j ≢ 0 → j ≢ i
in_use s i j free used e = used (ap s.flags e ∙ free)

-- The other slots, and the one with its mode back.
modes :
    {W : Type 0} (s t : Files W) (i : ℕ)
    → t.flags i ≡ s.flags i
    → ((j : ℕ) → j ≢ i → IsKept s t j)
    → (j : ℕ) → t.flags j ≡ s.flags j
modes s t i back others j = elim (Bool-cases (j == i)) [
  | inl m ↦ let n : j ≡ i = ground arith in rw n back
  | inr m ↦ (others j (λ e. absurd (ground arith))).flags
]

module _ {W : Type 0} (host : Host W) where
  open_at-Opens :
      (i name mode : ℕ) (s : Files W) → s.flags i ≡ 0 → Opens i mode s (open_at host i name mode s)
  unfolding open_at unix_open
  open_at-Opens i name mode s e =
      let r = (host.open_file name mode s.world).0 in
      elim (Bool-cases (is_dlx host name s)) [
        | inl d ↦ rw d (
          inr (refl, update_self s.flags i mode),
          λ j ne. record {
            flags = (let m : (j == i) ≡ false = ground arith in rw m refl);
            fs = (let m : (j == i) ≡ false = ground arith in rw m refl);
            info = (let m : (j == i) ≡ false = ground arith in rw m refl);
          },
        )
        | inr d ↦ elim (Bool-cases (is_negative r)) [
          | inl n ↦
              rw (d, n)
                (rw n (
                  inl (n, flags_back s.flags i mode i e),
                  λ j ne. record {
                    flags = (let m : (j == i) ≡ false = ground arith in rw m refl);
                    fs = (let m : (j == i) ≡ false = ground arith in rw m refl);
                    info = (let m : (j == i) ≡ false = ground arith in rw m refl);
                  },
                ))
          | inr n ↦
              rw (d, n)
                (
                  inr (refl, update_self s.flags i mode),
                  λ j ne. record {
                    flags = (let m : (j == i) ≡ false = ground arith in rw m refl);
                    fs = (let m : (j == i) ≡ false = ground arith in rw m refl);
                    info = (let m : (j == i) ≡ false = ground arith in rw m refl);
                  },
                )
        ]
      ]

  -- `FsOpen` either gives an error, or gives a slot that was free and has the mode now, one of the
  -- three that are not 0. An error leaves the mode of every slot as it was, and every slot that is in
  -- use as it was altogether; a success leaves every other slot as it was altogether.
  pub open_file-Opens :
      (name mode : ℕ) (s : Files W)
      → let (r, t) = open_file host name mode s in
        ((is_negative r ≡ true)
          × ((j : ℕ) → t.flags j ≡ s.flags j)
          × ((j : ℕ) → s.flags j ≢ 0 → IsKept s t j))
        ⊎ ((r < max_open_files)
            × (s.flags r ≡ 0)
            × (t.flags r ≡ bit_and mode mode_rw)
            × (t.flags r ≢ 0)
            × ((j : ℕ) → j ≢ r → IsKept s t j))
  unfolding open_file
  open_file-Opens name mode s =
      let masked = bit_and mode mode_rw in
      let i = find_free (is_free_file s) max_open_files 0 in
      let same = λ (j : ℕ) (used : s.flags j ≢ 0). unchanged s j in
      elim (Bool-cases (masked == 0)) [
        | inl z ↦ rw z (inl (refl, λ j. refl, same))
        | inr z ↦ elim (Bool-cases (leb max_open_files i)) [
          | inl l ↦ rw (z, l) (inl (refl, λ j. refl, same))
          | inr l ↦
              let room : i < max_open_files = ground arith in
              let free = (find_free-Found (is_free_file s) max_open_files 0).free (omega arith) in
              let empty : s.flags i ≡ 0 = ground arith in
              let (end, others) = open_at-Opens i name masked s empty in
              elim end [
                | inl (n, back) ↦
                    rw (z, l)
                      (inl
                        (n, modes s _ i back others, λ j used. others j (in_use s i j empty used)))
                | inr (e, set) ↦
                    rw (z, l) (rw e (inr (room, empty, set, rw set (ground arith), others)))
              ]
        ]
      ]

  -- `FsClose` of a descriptor that is valid frees its slot, whatever the file system answers, and
  -- no other; of any other descriptor it gives an error and changes nothing.
  close_file-freed :
      (fd : ℕ) (s : Files W)
      → let (r, t) = close_file host fd s in
        if fd_valid fd s
        then (t.flags fd ≡ 0) × ((j : ℕ) → j ≢ fd → t.flags j ≡ s.flags j)
        else (r ≡ minus_one) × (t ≡ s)
  unfolding close_file
  close_file-freed fd s = elim (Bool-cases (fd_valid fd s)) [
    | inl v ↦ elim (Bool-cases (s.fs fd == 1)) [
      | inl d ↦ rw (v, d) (update_self s.flags fd 0, λ j ne. flags_set s.flags fd 0 j ne)
      | inr d ↦ rw (v, d) (update_self s.flags fd 0, λ j ne. flags_set s.flags fd 0 j ne)
    ]
    | inr v ↦ rw v (refl, refl)
  ]
