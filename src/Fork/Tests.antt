-- ===== src/Fork/Tests.antt =====
-- Examples for `ProcessFork`: the processes of Sample, and the program file of Program/Disk.
use ece695os_lab.Prelude.{
  ℕ, ◌+◌, ◌-◌, ◌*◌, ◌⊎◌, arith, ◌<◌, ◌≤◌, ◌≡◌, Bool, true, List, [], ◌∷◌, Option, none, some,
  update, refl,
}
use ece695os_lab.Misc.{bcopy, dindex, dstrstr, dstrlen, dstrncmp}
use ece695os_lab.Synch.{find_free}
use ece695os_lab.Memory.{Memory, alloc_page, translate_user_to_system}
use ece695os_lab.Memory.Copy.{copy_system_to_user}
use ece695os_lab.Arguments.{get_argument, getxvalue}
use ece695os_lab.Files.{open_file, read_file, seek_file, close_file}
use ece695os_lab.Misc.Numbers.{dstrtol}
use ece695os_lab.Program.{get_from_file, get_code_info}
use ece695os_lab.Program.Disk.{Disk, files}
use ece695os_lab.Fork.{Computer, list_arguments, start_user, copy_to_user, load_lines, load_user}
use ece695os_lab.Fork.Arguments.{max_args, HasWords, list_arguments-fits}
use ece695os_lab.Sample.{os}
use ece695os_lab.Fork.Setting.{platform, computer}

abbrev taken : Memory → Memory
taken m = elim (alloc_page m) [ none ↦ m | some (page, m') ↦ m' ]

words : HasWords platform
words = record { word = λ a v m b out. ground arith; memory = λ m w. refl }

list_arguments-fits_example :
    (k : ℕ) × (d : Computer Disk) × (list_arguments platform 101 3 computer ≡ some (k, d))
    × (3 ≤ k)
    × (k < max_args + 8)
    × ((a : ℕ)
        → (a < 4000 + 4 * 3) ⊎ (4000 + 4 * (max_args + 8) ≤ a)
        → d.files.world.memory a ≡ computer.files.world.memory a)
list_arguments-fits_example = list_arguments-fits platform words computer

-- A state of its own, with the block of one argument, "7", at 7100.
abbrev with_argument : Computer Disk
with_argument = record computer {
  files = record files {
    world = record files.world { memory = update files.world.memory 7100 55 };
  };
}

abbrev frame_of : Option (Unit {0} × Computer Disk) → List ℕ
frame_of none = []
frame_of (some (u, d)) =
    let b = d.os.pcbs 11 in
    b.flags
    ∷ b.saved_frame 74
    ∷ b.saved_frame 75
    ∷ b.saved_frame 39
    ∷ d.files.world.memory 64503
    ∷ d.files.world.memory 64506
    ∷ d.files.world.memory 64507
    ∷ []

-- The stack of the process has the number of arguments, their place, and the one argument.
start_user_lem :
    frame_of (start_user platform 11 7100 0x20 with_argument)
    ≡ 0x202 ∷ 0x20 ∷ 0x100 ∷ (64512 - 12) ∷ 1 ∷ 251 ∷ 252 ∷ []
unfolding start_user copy_to_user list_arguments copy_system_to_user get_argument bcopy
    translate_user_to_system
start_user_lem = refl

-- The lines of the program file go to the memory of the process.
abbrev loaded_bytes : Option (Unit {0} × Computer Disk) → List ℕ
loaded_bytes none = []
loaded_bytes (some (u, d)) =
    d.files.world.memory 0x100 ∷ d.files.world.memory 0x101 ∷ d.files.world.memory 0x102 ∷ []

abbrev opened : Computer Disk
opened = record computer {
  files = record files { flags = λ i. 1; world = record files.world { at = 22 } };
}

load_lines_lem : loaded_bytes (load_lines platform 3 11 1 0 opened) ≡ 0x0a ∷ 0xff ∷ 0x41 ∷ []
unfolding load_lines copy_to_user copy_system_to_user bcopy translate_user_to_system get_from_file
    read_file seek_file dindex dstrtol getxvalue
load_lines_lem = refl

abbrev result_of : Option (Bool × Computer Disk) → Option (Bool × ℕ)
result_of none = none
result_of (some (r, d)) = some (r, (d.os.pcbs 11).flags)

load_user_lem : result_of (load_user platform 11 7100 7000 with_argument) ≡ some (true, 0x202)
unfolding load_user load_lines start_user copy_to_user list_arguments copy_system_to_user bcopy
    translate_user_to_system get_argument get_code_info get_from_file find_free open_file read_file
    seek_file close_file dindex dstrstr dstrlen dstrncmp dstrtol getxvalue
load_user_lem = refl
