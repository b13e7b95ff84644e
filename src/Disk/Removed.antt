-- ===== src/Disk/Removed.antt =====
-- What removing a directory, with `os.RemoveAll`, leaves.
use marmot.Base.{String, ◌≡◌, arith, none, [], ◌∷◌, string_key, eq_iff, if◌then◌else◌}
use marmot.Base.Maps.{Map, lookup}
use marmot.Disk.{Bytes, is_under, files_outside}

module _ (dir path : String) where
  -- A file outside the directory stays, and one inside is gone.
  pub lookup-files_outside :
      (files : Map String Bytes)
      → lookup path (files_outside dir files)
        ≡ (if is_under dir path then none else lookup path files)
  unfolding lookup
  lookup-files_outside [] = ground arith
  lookup-files_outside ((other, b) ∷ files) =
      ground (arith, lookup-files_outside files, eq_iff other path)
