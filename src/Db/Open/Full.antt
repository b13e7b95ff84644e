-- ===== src/Db/Open/Full.antt =====
-- The pool that `OpenStreamDB` of db/sqlite.go leaves.
use marmot.Base.{
  nat_beq, true, List, [], ◌∷◌, ℕ, String, ◌≡◌, refl, ap, arith, Option, none, some, length,
  nat_key,
}
use marmot.Base.Maps.{lookup, insert}
use marmot.Base.Errors.{Error, Result, ok, err, panic}
use marmot.Disk.{Disk}
use marmot.Pool.{SqlitePool, new_connection, new_sqlite_pool, borrow, dispose}
use marmot.Db.Restore.{Engine, perform_checkpoint}
use marmot.Db.Open.{pool_size, checkpointed, give_back, open_stream_db}

checkpointed-full :
    (engine : Engine) (rounds i : ℕ) (path : String) (q q' p : SqlitePool) (e : Disk)
    (x : Option (Result (Unit {0}) × Disk))
    → dispose i q ≡ some (ok tt, q')
    → checkpointed engine rounds path i q x ≡ some (ok p, e)
    → p ≡ q'
unfolding checkpointed give_back
checkpointed-full engine rounds i path q q' p e none back h = cc
checkpointed-full engine rounds i path q q' p e (some (ok _, d)) back h = ground arith
checkpointed-full engine rounds i path q q' p e (some (err x, d)) back h = absurd (ground arith)
checkpointed-full engine rounds i path q q' p e (some (panic m, d)) back h = absurd (ground arith)

-- The pool when its first connection is open, with these in the channel.
abbrev pool_with : ℕ → List ℕ → SqlitePool
pool_with number connections = record {
  number = number;
  size = pool_size;
  connections = connections;
  objects =
      (0, record { opened = true; disposer = some number })
      ∷ (1, new_connection)
      ∷ (2, new_connection)
      ∷ (3, new_connection)
      ∷ [];
  next = 4;
}

-- If OpenStreamDB succeeds, all connections are in the pool.
open_stream_db-full :
    (engine : Engine) (rounds : ℕ) (path : String) (number : ℕ) (opening : ℕ → Option Error)
    (first : Option Error) (d e : Disk) (p : SqlitePool)
    → open_stream_db engine rounds path number opening first d ≡ some (ok p, e)
    → length p.connections ≡ pool_size
unfolding open_stream_db new_sqlite_pool borrow dispose lookup insert
open_stream_db-full engine rounds path number opening (some x) d e p h = absurd (ground arith)
open_stream_db-full engine rounds path number opening none d e p h =
    let its_own : nat_beq number number ≡ true = ground arith in
    ap (λ (q : SqlitePool). length q.connections)
      (checkpointed-full engine rounds 0 path (pool_with number (1 ∷ 2 ∷ 3 ∷ []))
        (pool_with number (1 ∷ 2 ∷ 3 ∷ 0 ∷ [])) p e (perform_checkpoint engine rounds path d)
        (rw its_own refl) h)
