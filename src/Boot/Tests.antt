-- ===== src/Boot/Tests.antt =====
-- Examples for main of os/process.c.
use ece695os_lab.Prelude.{
  ℕ, ◌+◌, ◌*◌, ◌<◌, ◌≡◌, Bool, Option, none, some, [], ◌∷◌, ◌==◌, if◌then◌else◌, refl,
}
use ece695os_lab.Queue.IsQueue.{IsQueue}
use ece695os_lab.Process.{process_quantum}
use ece695os_lab.Misc.{Bytes, dstrcpy}
use ece695os_lab.Program.Disk.{Disk, files}
use ece695os_lab.Files
use ece695os_lab.Fork.{Computer}
use ece695os_lab.Fork.Setting.{platform, computer}
use ece695os_lab.Boot.{Machine, Start, mysem_waiting, option, options, params, create_user, main}
use ece695os_lab.Boot.Modules.{Booted, KeepsProcesses}
use ece695os_lab.Boot.Ready.{at_options, main-Booted}

abbrev places : Start Disk
places = record {
  debugstr = 8000;
  buf = 8200;
  file_buf = 8400;
  allargs = 8600;
  vm = 9900;
  memory_size = 0x200000;
  lastosaddress = 0x20000;
  share_module_init = λ s. s;
}

-- "a" at 9000, "-x" at 9010, "-u" at 9020, "-D" at 9030 and "p" at 9040.
abbrev texts : Bytes
texts a =
    if a == 9000
    then 97
    else if a == 9010
    then 45
    else if a == 9011
    then 120
    else if a == 9020
    then 45
    else if a == 9021
    then 117
    else if a == 9030
    then 45
    else if a == 9031
    then 68
    else if a == 9040
    then 112
    else 0

abbrev machine : Machine Disk
machine = record {
  computer = record computer {
    files = record files { world = record files.world { memory = texts } };
  };
  keyboard = 0;
  mysems = λ i. 0;
}

abbrev argv : ℕ → ℕ
argv k = 9000 + 10 * k

keeps : KeepsProcesses places.share_module_init
keeps = record { store = λ s. refl; pcbs = λ s. refl; current = λ s. refl }

-- "a -x" has no user program.
no_program :
    options platform places 2 2 argv 0 (at_options platform places machine.computer)
    ≡ some (none, at_options platform places machine.computer)
unfolding options option Files.module_init
no_program = refl

main-Booted_example :
    (t : Machine Disk) × (main platform places 2 argv machine ≡ some (tt, t))
    × Booted (at_options platform places machine.computer).os t.computer.os
    × (t.computer.os.timer ≡ process_quantum)
    × (t.keyboard ≡ 1)
    × ((a : ℕ) → a < 10 → (t.mysems a ≡ 1) × IsQueue t.computer.os.store (mysem_waiting a) [])
main-Booted_example = main-Booted platform places keeps 2 argv machine no_program

abbrev index_of : Option (Option ℕ × Computer Disk) → ℕ
index_of none = 0
index_of (some (none, c)) = 0
index_of (some (some i, c)) = i

-- In "a -x -u -D p" the program is "-D", at index 3.
options_user : index_of (options platform places 5 5 argv 0 machine.computer) ≡ 3
unfolding options option
options_user = refl

abbrev first_byte : Option ((Bool × ℕ) × Computer Disk) → ℕ
first_byte none = 0
first_byte (some (r, c)) = c.files.world.memory 8000

option_debug : first_byte (option platform places 68 9040 machine.computer) ≡ 112
unfolding option dstrcpy
option_debug = refl

params_two : params platform places 2 argv 3 ≡ 9030 ∷ 9040 ∷ []
params_two = refl

-- With more than ten arguments nothing is created.
create_user_many :
    create_user platform places 14 argv (some 3) machine.computer ≡ some (tt, machine.computer)
unfolding create_user
create_user_many = refl
