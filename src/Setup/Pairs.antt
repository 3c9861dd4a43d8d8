-- ===== src/Setup/Pairs.antt =====
-- What makeprocs of apps/q3 and apps/q4 creates: with two handles more than that of apps/q2.
use ece695os_lab.Prelude.{ℕ, ◌+◌, ◌<◌, ◌≡◌, ◌≢◌, false, List, [], ◌∷◌, ◌++◌, ◌==◌, arith}
use ece695os_lab.Synch.{sync_fail}
use ece695os_lab.Buffer.{buffer_size}
use ece695os_lab.Setup.{Traps, Session, zero_word}
use ece695os_lab.Setup.Makeprocs.{Places, rounds, paired_makeprocs, slots_makeprocs, cond_makeprocs}
use ece695os_lab.Setup.Children.{numbers-AreTexts}
use ece695os_lab.Setup.Texts.{IsShort, print_number-AreTexts}
use ece695os_lab.Setup.Created.{
  Granted, AreSeparate, Spawned, pair_calls, prepare-Granted, create_pairs-pair_calls,
  wait_for_all-exited, print_handles-AreTexts,
}

module _ {W : Type 0} (traps : Traps W) (fuel : ℕ) (at : Places) where
  abbrev pub all_strs : List ℕ
  all_strs =
      at.h_mem_str ∷ at.s_procs_completed_str ∷ at.buf_lock_str ∷ at.fullslots_str
      ∷ at.emptyslots_str ∷ []

  -- The two traps give handles.
  pub record Paired (create_full create_empty : ℕ → W → ℕ × W) (l f e : ℕ) (w : W) : Type 0 where
    pub w1 : W
    pub w2 : W
    pub full : create_full l w ≡ (f, w1)
    pub empty : create_empty l w1 ≡ (e, w2)
    pub some_full : f ≢ sync_fail
    pub some_empty : e ≢ sync_fail

  pub paired_makeprocs-Spawned :
      (create_full create_empty : ℕ → W → ℕ × W) {c : Session W} {n h b s l f e : ℕ} {w : W}
      → Granted traps fuel at c n h b s l w
      → Paired create_full create_empty l f e w
      → IsShort h
      → IsShort s
      → IsShort l
      → IsShort f
      → IsShort e
      → AreSeparate at
      → 10 < fuel
      → Spawned traps fuel at c
          (rounds n)
          all_strs
          (h ∷ s ∷ l ∷ f ∷ e ∷ [])
          (paired_makeprocs traps fuel at create_full create_empty 2 c)
  unfolding paired_makeprocs
  paired_makeprocs-Spawned create_full create_empty {c} {n} {h} {b} {s} {l} {f} {e} {w} g p hh hs hl
        hf he sep enough =
      let e0 = prepare-Granted traps fuel at g in
      let c1 : Session W = record c {
        memory = zero_word (b + 4) (zero_word b c.memory);
        world = p.w2;
      } in
      let (t, e1, texts) = print_handles-AreTexts traps fuel at h s l hh hs hl sep enough c1 in
      let c2 : Session W = record c1 { memory = t } in
      let (t', e2, texts') =
        print_number-AreTexts traps fuel f at.fullslots_str
          ((l, at.buf_lock_str) ∷ (s, at.s_procs_completed_str) ∷ (h, at.h_mem_str) ∷ []) c2 hf
          enough sep.fourth texts in
      let c3 : Session W = record c1 { memory = t' } in
      let (t'', e3, (we, (wf, (wl, (ws, (wh, u)))))) =
        print_number-AreTexts traps fuel e at.emptyslots_str
          ((f, at.fullslots_str)
            ∷ (l, at.buf_lock_str)
            ∷ (s, at.s_procs_completed_str)
            ∷ (h, at.h_mem_str)
            ∷ [])
          c3 he enough sep.fifth texts' in
      let c4 : Session W = record c1 { memory = t'' } in
      let (v, e4) = create_pairs-pair_calls traps fuel at (rounds n) all_strs c4 in
      let (e5, e6) = wait_for_all-exited traps fuel s (record {
        memory = t'';
        world = v;
        created = c.created ++ pair_calls at (rounds n) all_strs t'';
      }) in
      let full = p.full in
      let empty = p.empty in
      let z1 : (f == sync_fail) ≡ false = let a = p.some_full in ground arith in
      let z2 : (e == sync_fail) ≡ false = let a = p.some_empty in ground arith in
      record {
        texts = t'';
        exits = ground arith;
        calls = ground arith;
        read = λ d argv copies.
            numbers-AreTexts traps fuel
              ((h, at.h_mem_str)
                ∷ (s, at.s_procs_completed_str)
                ∷ (l, at.buf_lock_str)
                ∷ (f, at.fullslots_str)
                ∷ (e, at.emptyslots_str)
                ∷ [])
              argv 1 t'' d (wh, (ws, (wl, (wf, (we, tt))))) copies;
      }

  -- makeprocs of apps/q3: when the argument is a number and the page and every handle is granted,
  -- with at most nine digits, it creates as many pairs of a producer and a consumer as the argument
  -- says, in turn, and exits; and wherever the texts that a program is given are copied to, dstrtol
  -- reads from them the handles of the page, of the semaphore, of the lock and of the two counters.
  pub slots_makeprocs-Spawned :
      {c : Session W} {n h b s l f e : ℕ} {w : W}
      → Granted traps fuel at c n h b s l w
      → Paired (λ l. traps.sem_create 0) (λ l. traps.sem_create buffer_size) l f e w
      → IsShort h
      → IsShort s
      → IsShort l
      → IsShort f
      → IsShort e
      → AreSeparate at
      → 10 < fuel
      → Spawned traps fuel at c
          (rounds n)
          all_strs
          (h ∷ s ∷ l ∷ f ∷ e ∷ [])
          (slots_makeprocs traps fuel at 2 c)
  unfolding slots_makeprocs
  slots_makeprocs-Spawned =
      paired_makeprocs-Spawned (λ l. traps.sem_create 0) (λ l. traps.sem_create buffer_size)

  cond_makeprocs-Spawned :
      {c : Session W} {n h b s l f e : ℕ} {w : W}
      → Granted traps fuel at c n h b s l w
      → Paired traps.cond_create traps.cond_create l f e w
      → IsShort h
      → IsShort s
      → IsShort l
      → IsShort f
      → IsShort e
      → AreSeparate at
      → 10 < fuel
      → Spawned traps fuel at c
          (rounds n)
          all_strs
          (h ∷ s ∷ l ∷ f ∷ e ∷ [])
          (cond_makeprocs traps fuel at 2 c)
  unfolding cond_makeprocs
  cond_makeprocs-Spawned = paired_makeprocs-Spawned traps.cond_create traps.cond_create
