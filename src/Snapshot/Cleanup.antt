-- ===== src/Snapshot/Cleanup.antt =====
-- How often `cleanupDir` of snapshot/db_snapshot.go tries, and what it leaves.
use marmot.Base.{
  ℕ, zero, suc, String, ◌≡◌, arith, Option, none, some, List, [], ◌∷◌, drop, ltb, if◌then◌else◌,
}
use marmot.Disk.{Disk, Fault, removed}
use marmot.Snapshot.{cleanup_rounds, cleanup_dir}

-- The failures before the first call that succeeds.
abbrev pub failures : List (Option Fault) → ℕ
failures [] = 0
failures (none ∷ faults) = 0
failures (some f ∷ faults) = suc (failures faults)

-- What so many rounds leave, with these faults ahead: the directory is gone once a call succeeds.
abbrev pub cleaned : ℕ → String → List (Option Fault) → Disk → Disk
cleaned n dir faults d =
    if ltb (failures faults) n
    then removed dir (record d { faults = drop (suc (failures faults)) faults })
    else record d { faults = drop n faults }

rounds-cleaned :
    (n : ℕ) (dir : String) (faults : List (Option Fault)) (d : Disk)
    → cleanup_rounds n dir (record d { faults = faults }) ≡ cleaned n dir faults d
unfolding cleanup_rounds
rounds-cleaned zero dir faults d = ground arith
rounds-cleaned (suc n) dir [] d = ground arith
rounds-cleaned (suc n) dir (none ∷ faults) d = ground arith
rounds-cleaned (suc n) dir (some f ∷ faults) d = ground (arith, rounds-cleaned n dir faults d)

-- At most five calls are made, and the directory is gone after the first that succeeds.
cleanup_dir-cleaned : (dir : String) (d : Disk) → cleanup_dir dir d ≡ cleaned 5 dir d.faults d
unfolding cleanup_dir
cleanup_dir-cleaned dir d = rounds-cleaned 5 dir d.faults d

pub cleanup_dir-removed :
    (dir : String) (d : Disk) → d.faults ≡ [] → cleanup_dir dir d ≡ removed dir d
cleanup_dir-removed dir d calm = ground (arith, calm, cleanup_dir-cleaned dir d)
