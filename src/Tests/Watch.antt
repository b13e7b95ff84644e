-- ===== src/Tests/Watch.antt =====
-- Tests of the loop of db/change_log.go that watches the files, and of what it is built on.
use marmot.Base.{ℕ, zero, suc, ◌≡◌, refl, arith, none, some, [], ◌∷◌, Option, length, ◌≤◌, ◌*◌}
use marmot.Base.Errors.{Error, ok, library}
use marmot.Base.Maps.{lookup, insert}
use marmot.Db.Store.{meta_table}
use marmot.Db.ChangeLog.{capture, order_by_id}
use marmot.Db.ChangeLog.Invariant.{IsLinked, capture-IsLinked}
use marmot.Db.ChangeLog.Events.{events}
use marmot.Db.ChangeLog.Conserved.{IsQuiet, consumed}
use marmot.Db.Watch.{Watcher, changed, closed, Turn, watch_changes}
use marmot.Db.Watch.Drained.{IsAlone, watch_changes-drains}
use marmot.Db.Watch.Linked.{WritesKeep, watch_changes-IsLinked}
use marmot.Tests.Db.{
  World, keeps, conn, book, two_changes, two_changes-IsLinked, two_changes-AreKeyed,
  two_changes_free, two_changes_calm, conn-IsSteady,
}

-- A watcher that refuses the first file once.
abbrev refused : ℕ → Option Error
refused zero = some (library "no such file")
refused (suc n) = none

abbrev watcher : Watcher ℕ
watcher = record { add = λ file n. (refused n, suc n); chmod = 16 }

-- A write, while the transaction does not begin.
abbrev turn : Turn World
turn = record {
  now = 1000;
  opened = none;
  begun = some (library "database is locked");
  writes = λ s. s;
  woken = changed 2;
}

abbrev turn-IsAlone : IsAlone conn watcher 1 "/db" turn
turn-IsAlone = record { opens = refl; no_writes = λ s. refl; pulse = refl }

two_changes-IsQuiet : IsQuiet conn two_changes
two_changes-IsQuiet = record {
  free = two_changes_free;
  linked = two_changes-IsLinked;
  keyed = two_changes-AreKeyed;
  calm = two_changes_calm;
}

two_there : length two_changes.global ≤ suc (length (turn ∷ [])) * 1
unfolding capture lookup meta_table insert
two_there = omega arith

watch_changes-drains_example :
    let run = watch_changes conn watcher 1 "/db" 0 500 (turn ∷ []) 0 two_changes in
    (run.0 ≡ ok tt)
    × (run.1.global ≡ [])
    × (run.1.world
        ≡ consumed keeps two_changes.world
            (events conn two_changes.logs (order_by_id two_changes.global)))
watch_changes-drains_example =
    watch_changes-drains conn watcher 1 "/db" keeps refl (λ w. Unit) (λ e w _. (tt, tt)) 0 500
      (turn ∷ []) 0 two_changes two_changes-IsQuiet tt (turn-IsAlone, tt) two_there

-- A turn in which another connection writes, and one in which the watcher is closed.
abbrev insert_turn : Turn World
insert_turn = record turn { writes = capture conn 0 "books" "insert" (book 2 7).row 102 }

abbrev closed_turn : Turn World
closed_turn = record turn { woken = closed }

insert_turn-WritesKeep : WritesKeep conn watcher 1 "/db" conn-IsSteady insert_turn
insert_turn-WritesKeep s h = capture-IsLinked conn 0 "books" "insert" (book 2 7).row 102 s h

watch_changes-IsLinked_example :
    let run =
      watch_changes conn watcher 1 "/db" 0 500 (closed_turn ∷ insert_turn ∷ []) 0 two_changes in
    (run.0 ≡ ok tt) × IsLinked conn run.1
watch_changes-IsLinked_example =
    watch_changes-IsLinked conn watcher 1 "/db" conn-IsSteady 0 500 (closed_turn ∷ insert_turn ∷ [])
      0 two_changes (λ s h. h, (insert_turn-WritesKeep, tt)) two_changes-IsLinked
