-- ===== src/Fork/Setting.antt =====
-- A machine for the examples of Fork, with the processes of Sample and the program file of
-- Program/Disk.
use ece695os_lab.Prelude.{ℕ, ◌+◌, ◌*◌, ◌/◌, ◌%◌, ◌^◌, update}
use ece695os_lab.Misc.{Bytes}
use ece695os_lab.Program.Disk.{Disk, program, layout, files}
use ece695os_lab.Fork.{Computer, Platform}
use ece695os_lab.Sample.{os}

-- A word is four bytes, the high one first.
abbrev pub put_word : ℕ → ℕ → Bytes → Bytes
put_word a v m =
    update
      (update (update (update m a (v / 2 ^ 24 % 256)) (a + 1) (v / 2 ^ 16 % 256)) (a + 2)
        (v / 2 ^ 8 % 256))
      (a + 3) (v % 256)

abbrev pub platform : Platform Disk
platform = record {
  layout = layout program;
  word_at = λ m a. m a * 2 ^ 24 + m (a + 1) * 2 ^ 16 + m (a + 2) * 2 ^ 8 + m (a + 3);
  set_word = put_word;
  free_shared_pte = λ p i s. s;
  name_at = λ p. 10000 + 100 * p;
  pagetable_at = λ p. 20000 + 100 * p;
  buf = 3000;
  dum = 4000;
  process_exit = 77;
}

abbrev pub computer : Computer Disk
computer = record { os = os; files = files; reader = record { str = 0; location = 0 } }
