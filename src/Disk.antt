-- ===== src/Disk.antt =====
-- The functions of Go's `os` and `io` that the snapshots use, on a disk: its files by path, its
-- temporary directories, and what goes wrong in the next calls.
pub mod Removed
use Prim.Native.String.{◌++◌}
use text.Mathlib.Text.{◌==◌ as str_eq, starts_with}
use marmot.Base.{
  ℕ, suc, String, Bool, ◌||◌, not, Option, none, some, List, [], ◌∷◌, take, keep_if, if◌then◌else◌,
  string_key,
}
use marmot.Base.Maps.{Map, lookup, insert}
use marmot.Base.Decimal.{decimal}
use marmot.Base.Errors.{Error, Result, ok, err, library}
use marmot.Base.Act.{Act, pure, throw, ◌>>=◌, ◌>>◌}

abbrev pub Bytes : Type 0
Bytes = List ℕ

-- An error of one call; a write has stored so many bytes before it.
pub record Fault : Type 0 where
  pub error : Error
  pub written : ℕ

pub record Disk : Type 0 where
  pub files : Map String Bytes
  pub dirs : List String
  pub next_temp : ℕ
  pub faults : List (Option Fault)

-- The fault of the next call, and the disk after it.
abbrev pub next_fault : Disk → Option Fault × Disk
next_fault d = elim d.faults [ [] ↦ (none, d) | f ∷ faults ↦ (f, record d { faults = faults }) ]

abbrev pub call_after : Option Fault × Disk → Result (Unit {0}) × Disk
call_after (none, d) = (ok tt, d)
call_after (some f, d) = (err f.error, d)

-- One call that does not write.
abbrev pub call : Act Disk (Unit {0})
call d = call_after (next_fault d)

abbrev pub file_not_found : Error
file_not_found = library "no such file or directory"

abbrev found : Option Bytes → Act Disk Bytes
found none = throw file_not_found
found (some b) = pure b

abbrev pub contents : String → Act Disk Bytes
contents path d = found (lookup path d.files) d

-- `os.Open`, and the reads that follow it.
abbrev pub open_file : String → Act Disk (Unit {0})
open_file path = call >> (contents path >>= λ _. pure tt)

abbrev pub read_all : String → Act Disk Bytes
read_all path = call >> contents path

-- `os.Create`, and the writes that follow it.
abbrev pub create : String → Act Disk (Unit {0})
create path = call >> λ d. (ok tt, record d { files = insert path [] d.files })

abbrev pub written_after : String → Bytes → Option Fault × Disk → Result (Unit {0}) × Disk
written_after path b (none, d) = (ok tt, record d { files = insert path b d.files })
written_after path b (some f, d) =
    (err f.error, record d { files = insert path (take f.written b) d.files })

abbrev pub write_all : String → Bytes → Act Disk (Unit {0})
write_all path b d = written_after path b (next_fault d)

-- `os.MkdirTemp`: a directory whose name is new.
unfoldable pub mkdir_temp : String → Act Disk String
mkdir_temp pattern = call >> λ d.
    let name = "/tmp/" ++ (pattern ++ decimal d.next_temp) in
    (ok name, record d { dirs = name ∷ d.dirs; next_temp = suc d.next_temp })

abbrev pub is_under : String → String → Bool
is_under dir path = str_eq path dir || starts_with path (dir ++ "/")

abbrev pub files_outside : String → Map String Bytes → Map String Bytes
files_outside dir [] = []
files_outside dir ((path, b) ∷ files) =
    if is_under dir path then files_outside dir files else (path, b) ∷ files_outside dir files

abbrev pub removed : String → Disk → Disk
removed dir d = record d {
  files = files_outside dir d.files;
  dirs = keep_if (λ other. not (is_under dir other)) d.dirs;
}

-- `os.RemoveAll`, which removes nothing when it fails.
abbrev pub remove_all : String → Act Disk (Unit {0})
remove_all dir = call >> λ d. (ok tt, removed dir d)
