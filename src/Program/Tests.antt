-- ===== src/Program/Tests.antt =====
-- Examples for the loader.
use ece695os_lab.Prelude.{ℕ, ◌≡◌, inr, true, false, List, [], ◌∷◌, Option, none, some, refl, arith}
use ece695os_lab.Arguments.{getxvalue}
use ece695os_lab.Files.{Files, open_file, read_file, seek_file}
use ece695os_lab.Misc.{dindex, dstrstr, dstrlen, dstrncmp}
use ece695os_lab.Synch.{find_free}
use ece695os_lab.Misc.Numbers.{dstrtol}
use ece695os_lab.Program.{Cursor, CodeInfo, isxdigit, read_line, get_code_info, get_from_file}
use ece695os_lab.Program.Hex.{hex_line, Read, read_line-hex_line}
use ece695os_lab.Program.Disk.{Disk, text_at, program, no_program, layout, files}

-- The digits of the addresses are read as any number is, but `isxdigit` of include/misc.h takes
-- only 'A' of the upper-case ones, so that data with others ends there.
upper_case : (getxvalue 66 ≡ 11) × (isxdigit 66 ≡ false) × (isxdigit 65 ≡ true)
unfolding getxvalue
upper_case = (refl, refl, refl)

abbrev info_of : Option (Option CodeInfo × Files Disk) → Option CodeInfo
info_of none = none
info_of (some (r, s)) = r

abbrev flags_of : Option (Option CodeInfo × Files Disk) → ℕ
flags_of none = 0
flags_of (some (r, s)) = s.flags 1

-- The second number of the header is the size of all.
get_code_info_lem :
    info_of (get_code_info (layout program) 7000 files)
    ≡ some (record {
      fd = 1;
      start = 0x20;
      code_start = 0;
      code_size = 4;
      data_start = 0;
      data_size = 0;
    })
unfolding get_code_info find_free open_file read_file seek_file dindex dstrstr dstrlen dstrncmp
    dstrtol
get_code_info_lem = refl

-- Without a start line the file stays open.
get_code_info_no_start :
    (info_of (get_code_info (layout no_program) 7000 files) ≡ none)
    × (flags_of (get_code_info (layout no_program) 7000 files) ≡ 1)
unfolding get_code_info find_free open_file read_file dstrstr dstrlen dstrncmp
get_code_info_no_start = (refl, refl)

abbrev open_files : Files Disk
open_files = record files { flags = λ i. 1; world = record files.world { at = 22 } }

abbrev bytes_read : Option ((ℕ × ℕ) × Files Disk) → List ℕ
bytes_read none = []
bytes_read (some ((n, addr), s)) =
    n ∷ addr ∷ s.world.memory 3000 ∷ s.world.memory 3001 ∷ s.world.memory 3002 ∷ []

get_from_file_lem :
    bytes_read (get_from_file (layout program) 1 3000 0 100 open_files)
    ≡ 3 ∷ 0x103 ∷ 0x0a ∷ 0xff ∷ 0x41 ∷ []
unfolding get_from_file read_file seek_file dindex dstrtol getxvalue
get_from_file_lem = refl

abbrev line : Cursor
line = record { lpos = 0; nbytes = 0; addr = 0x100; memory = text_at (hex_line (10 ∷ 255 ∷ [])) }

read_line_end : (d : Cursor) × (read_line 1 9 (record line { lpos = 4 }) ≡ some d) × (d.lpos ≡ 5)
unfolding read_line
read_line_end = (_, refl, refl)

read_line-hex_line_example :
    (d : Cursor) × (read_line 3 9 line ≡ some d) × Read 9 (10 ∷ 255 ∷ []) line d
read_line-hex_line_example =
    read_line-hex_line (10 ∷ 255 ∷ []) 3 9 line (omega arith) (omega arith) (omega arith)
      (refl, (refl, (refl, (refl, (refl, tt))))) (inr (omega arith))
