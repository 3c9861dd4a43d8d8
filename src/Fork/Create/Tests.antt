-- ===== src/Fork/Create/Tests.antt =====
-- Examples for the creation of processes by name.
use ece695os_lab.Prelude.{
  ℕ, ◌≡◌, true, false, [], ◌∷◌, Option, none, some, ◌==◌, if◌then◌else◌, refl,
}
use ece695os_lab.Queue.{is_empty}
use ece695os_lab.Misc.{Bytes, dstrcpy, dstrncpy, bcopy, dstrlen}
use ece695os_lab.Memory.{translate_user_to_system}
use ece695os_lab.Memory.Copy.{copy_user_to_system}
use ece695os_lab.Arguments.{pack_arguments}
use ece695os_lab.Program.Disk.{Disk, files}
use ece695os_lab.Fork.{Computer, fork, claim_pcb}
use ece695os_lab.Fork.Create.{
  process_create, trap_process_create, fetch, copy_arguments, copy_system_arguments,
}
use ece695os_lab.Sample.{os}
use ece695os_lab.Fork.Setting.{platform, computer}

-- Two arguments, at 6000 and 6008, and their addresses at 6100.
abbrev args_memory : Bytes
args_memory a =
    if a == 6000
    then 97
    else if a == 6008
    then 98
    else if a == 6009
    then 99
    else if a == 6102
    then 0x17
    else if a == 6103
    then 0x70
    else if a == 6106
    then 0x17
    else if a == 6107
    then 0x78
    else 0

abbrev with_args : Computer Disk
with_args = record computer {
  files = record files { world = record files.world { memory = args_memory } };
}

abbrev byte_of : Option (Unit {0} × Computer Disk) → ℕ → ℕ
byte_of none a = 0
byte_of (some (u, d)) a = d.files.world.memory a

-- The arguments of a process stand one behind the other.
copy_arguments_lem :
    let t = copy_arguments platform 11 6100 5000 0 with_args in
    (byte_of t 5000 ∷ byte_of t 5001 ∷ byte_of t 5002 ∷ byte_of t 5003 ∷ []) ≡ 97 ∷ 0 ∷ 98 ∷ 99 ∷ []
unfolding copy_arguments copy_user_to_system translate_user_to_system bcopy
copy_arguments_lem = refl

-- In system mode only the last one is left.
copy_system_arguments_lem :
    let t = copy_system_arguments platform 11 6100 5000 with_args in
    (byte_of t 5000 ∷ byte_of t 5001 ∷ byte_of t 5002 ∷ []) ≡ 98 ∷ 99 ∷ 0 ∷ []
unfolding copy_system_arguments dstrlen dstrcpy
copy_system_arguments_lem = refl

-- The name of the program comes from a process, but in system mode it is the source of the copy.
fetch_lem :
    (byte_of (fetch platform 6100 false 5000 5200 5400 with_args) 5000 ≡ 97)
    × (byte_of (fetch platform 6100 true 5000 5200 5400 with_args) 5000 ≡ 0)
    × (byte_of (fetch platform 6100 true 5000 5200 5400 with_args) 6000 ≡ 0)
unfolding fetch copy_user_to_system translate_user_to_system bcopy dstrncpy
fetch_lem = (refl, refl, refl)

-- Without a process the creations end the simulation.
abbrev busy : Computer Disk
busy = record with_args {
  os = record os {
    store = record os.store { queues = λ q. record { first = 0; last = 0; nitems = 0 } };
  };
}

trap_process_create-busy : trap_process_create platform 6100 false 5000 5200 5400 busy ≡ none
unfolding trap_process_create fork claim_pcb is_empty copy_user_to_system translate_user_to_system
    bcopy
trap_process_create-busy = refl

process_create-busy : process_create platform 5200 (6000 ∷ 6008 ∷ []) 6000 busy ≡ none
unfolding process_create pack_arguments fork claim_pcb is_empty
process_create-busy = refl
