-- ===== src/Setup/Created.antt =====
-- What makeprocs of apps/q2 to apps/q4 creates: pairs of programs, with the texts of the handles.
use ece695os_lab.Prelude.{
  length, ℕ, zero, suc, ◌+◌, ◌<◌, ◌≡◌, ◌≢◌, false, List, [], ◌∷◌, ◌++◌, ◌==◌, some, refl, arith,
  ◌∙◌,
}
use mathlib.Core.List.{append-nil, append_assoc}
use ece695os_lab.Misc.{Bytes}
use ece695os_lab.Misc.Numbers.{dstrtol}
use ece695os_lab.Synch.{sync_fail}
use ece695os_lab.Setup.{
  Traps, Session, Call, Ends, returned, exited, zero_word, number, wait_for_all,
}
use ece695os_lab.Setup.Makeprocs.{
  Places, completed_count, rounds, prepare, print_handles, create_pairs, busy_makeprocs,
}
use ece695os_lab.Setup.Children.{AreCopied, numbers, numbers-AreTexts}
use ece695os_lab.Setup.Texts.{IsShort, AreTexts, IsClear, print_number-AreTexts}

-- The local arrays do not meet.
pub record AreSeparate (at : Places) : Type 0 where
  pub second : IsClear at.s_procs_completed_str (at.h_mem_str ∷ [])
  pub third : IsClear at.buf_lock_str (at.s_procs_completed_str ∷ at.h_mem_str ∷ [])
  pub fourth :
      IsClear at.fullslots_str (at.buf_lock_str ∷ at.s_procs_completed_str ∷ at.h_mem_str ∷ [])
  pub fifth :
      IsClear at.emptyslots_str
        (at.fullslots_str ∷ at.buf_lock_str ∷ at.s_procs_completed_str ∷ at.h_mem_str ∷ [])

-- The calls of the loop, one pair behind the other.
abbrev pub pair_calls : Places → ℕ → List ℕ → Bytes → List Call
pair_calls at zero strs m = []
pair_calls at (suc k) strs m =
    record { args = at.producer ∷ strs; memory = m }
    ∷ record { args = at.consumer ∷ strs; memory = m }
    ∷ pair_calls at k strs m

-- The end of the program: it exits, and creates nothing more.
pub wait_for_all-exited :
    {W : Type 0} (traps : Traps W) (fuel s : ℕ) (c : Session W)
    → ((wait_for_all traps fuel s c).0 ≡ exited)
      × ((wait_for_all traps fuel s c).1.created ≡ c.created)
unfolding wait_for_all
wait_for_all-exited traps fuel s c = ground arith

module _ {W : Type 0} (traps : Traps W) (fuel : ℕ) (at : Places) where
  -- From `c` on, the argument is `n`, and the traps give the page, its place, the semaphore and the
  -- lock.
  pub record Granted (c : Session W) (n h b s l : ℕ) (w : W) : Type 0 where
    pub end : ℕ
    pub w1 : W
    pub w2 : W
    pub w3 : W
    pub argument : dstrtol fuel at.argument 10 c.memory ≡ some (n, end)
    pub page : traps.shmget c.world ≡ (h, w1)
    pub place : traps.shmat h w1 ≡ (b, w2)
    pub completed : traps.sem_create (completed_count n) w2 ≡ (s, w3)
    pub lock : traps.lock_create w3 ≡ (l, w)
    pub some_page : h ≢ 0
    pub some_place : b ≢ 0
    pub some_sem : s ≢ sync_fail
    pub some_lock : l ≢ sync_fail

  pub prepare-Granted :
      {c : Session W} {n h b s l : ℕ} {w : W}
      → Granted c n h b s l w
      → prepare traps fuel at 2 c ≡ (
        returned (n, h, s, l),
        record c { memory = zero_word (b + 4) (zero_word b c.memory); world = w },
      )
  unfolding prepare number
  prepare-Granted {c} {n} {h} {b} {s} {l} {w} g =
      let e0 = g.argument in
      let e1 = g.page in
      let e2 = g.place in
      let e3 = g.completed in
      let e4 = g.lock in
      let z1 : (h == 0) ≡ false = let a = g.some_page in ground arith in
      let z2 : (b == 0) ≡ false = let a = g.some_place in ground arith in
      let z3 : (s == sync_fail) ≡ false = let a = g.some_sem in ground arith in
      let z4 : (l == sync_fail) ≡ false = let a = g.some_lock in ground arith in ground arith

  pub create_pairs-pair_calls :
      (k : ℕ) (strs : List ℕ) (c : Session W)
      → (w : W) × (create_pairs traps fuel at k strs c ≡ (
        returned tt,
        record {
          memory = c.memory;
          world = w;
          created = c.created ++ pair_calls at k strs c.memory;
        },
      ))
  unfolding create_pairs
  create_pairs-pair_calls zero strs c = (c.world, rw (append-nil c.created) refl)
  create_pairs-pair_calls (suc k) strs c =
      let m = c.memory in
      let first : Call = record { args = at.producer ∷ strs; memory = m } in
      let second : Call = record { args = at.consumer ∷ strs; memory = m } in
      let d : Session W = record {
        memory = m;
        world =
            traps.process_create (at.consumer ∷ strs) m
              (traps.process_create (at.producer ∷ strs) m c.world);
        created = (c.created ++ (first ∷ [])) ++ (second ∷ []);
      } in
      let (w, run) = create_pairs-pair_calls k strs d in
      (w, run ∙ rw (append_assoc, append_assoc) refl)

  module _ (h s l : ℕ) (hh : IsShort h) (hs : IsShort s) (hl : IsShort l) (sep : AreSeparate at)
      (enough : 10 < fuel) where
    abbrev handles : List (ℕ × ℕ)
    handles = (l, at.buf_lock_str) ∷ (s, at.s_procs_completed_str) ∷ (h, at.h_mem_str) ∷ []

    pub print_handles-AreTexts :
        (c : Session W)
        → (t : Bytes) × (print_handles traps fuel at h s l c
            ≡ (returned tt, record c { memory = t }))
          × AreTexts fuel handles t
    unfolding print_handles
    print_handles-AreTexts c =
        let (t1, e1, w1) = print_number-AreTexts traps fuel h at.h_mem_str [] c hh enough tt tt in
        let (t2, e2, w2) =
          print_number-AreTexts traps fuel s at.s_procs_completed_str ((h, at.h_mem_str) ∷ [])
            (record c { memory = t1 }) hs enough sep.second w1 in
        let (t3, e3, w3) =
          print_number-AreTexts traps fuel l at.buf_lock_str
            ((s, at.s_procs_completed_str) ∷ (h, at.h_mem_str) ∷ []) (record c { memory = t2 }) hl
            enough sep.third w2 in
        (t3, ground arith, w3)

  -- A run that exits after it has created the pairs, whose arguments are read as the numbers wherever
  -- their texts are copied to.
  pub record Spawned (c : Session W) (n : ℕ) (strs nums : List ℕ) (r : Ends (Unit {0}) × Session W)
      : Type 0 where
    pub texts : Bytes
    pub exits : r.0 ≡ exited
    pub calls : r.1.created ≡ c.created ++ pair_calls at n strs texts
    pub read :
        (d : Session W) (argv : ℕ → ℕ)
        → AreCopied d.memory argv 1 texts strs
        → numbers traps fuel (length nums) argv 1 d ≡ (returned nums, d)

  -- With the page, the semaphore and the lock, makeprocs of q2 ends by `Exit` and has created as many
  -- pairs as its argument says, with the texts of the handles.
  pub busy_makeprocs-Spawned :
      {c : Session W} {n h b s l : ℕ} {w : W}
      → Granted c n h b s l w
      → IsShort h
      → IsShort s
      → IsShort l
      → AreSeparate at
      → 10 < fuel
      → Spawned c
          (rounds n)
          (at.h_mem_str ∷ at.s_procs_completed_str ∷ at.buf_lock_str ∷ [])
          (h ∷ s ∷ l ∷ [])
          (busy_makeprocs traps fuel at 2 c)
  unfolding busy_makeprocs
  busy_makeprocs-Spawned {c} {n} {h} {b} {s} {l} {w} g hh hs hl sep enough =
      let e0 = prepare-Granted g in
      let c1 : Session W = record c {
        memory = zero_word (b + 4) (zero_word b c.memory);
        world = w;
      } in
      let (t, e1, (wl, (ws, (wh, u)))) = print_handles-AreTexts h s l hh hs hl sep enough c1 in
      let strs = at.h_mem_str ∷ at.s_procs_completed_str ∷ at.buf_lock_str ∷ [] in
      let (v, e2) = create_pairs-pair_calls (rounds n) strs (record c1 { memory = t }) in
      let (e3, e4) = wait_for_all-exited traps fuel s (record {
        memory = t;
        world = v;
        created = c.created ++ pair_calls at (rounds n) strs t;
      }) in
      record {
        texts = t;
        exits = ground arith;
        calls = ground arith;
        read = λ d argv copies.
            numbers-AreTexts traps fuel
              ((h, at.h_mem_str) ∷ (s, at.s_procs_completed_str) ∷ (l, at.buf_lock_str) ∷ []) argv 1
              t d (wh, (ws, (wl, tt))) copies;
      }
