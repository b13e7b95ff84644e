-- ===== src/Db/Watch.antt =====
-- `watchChanges` of db/change_log.go, and `WithReadTx` of db/sqlite.go. The watcher of the files is a
-- parameter; what wakes the loop is given, turn by turn.
pub mod Drained
pub mod Linked
use Prim.Native.String.{◌++◌}
use marmot.Base.{
  ℕ, String, Bool, true, false, not, Option, none, some, List, [], ◌∷◌, nat_beq, if◌then◌else◌,
}
use marmot.Base.Errors.{Error, Result, ok, err, panic, sentinel, Sentinel}
use marmot.Db.Store.{SqliteStreamDb, Store, M}
use marmot.Db.ChangeLog.{publish_change_log}
use marmot.Timer.{TimeoutPublisher, new_timeout_publisher, reset}

-- The watcher of fsnotify: `Add`, on the state `A` behind it, and the bit `Chmod` of an `Op`.
pub record Watcher (A : Type 0) : Type 0 where
  pub add : String → A → Option Error × A
  pub chmod : ℕ

-- What `select` takes from its channels: an event of the watcher with its `Op`, the end of the events,
-- or a tick of the timer.
pub data Woken : Type 0 where
  changed : ℕ → Woken
  closed : Woken
  ticked : Woken

-- A turn of the loop: when it starts, the errors of `OpenRaw` and `BeginTx`, what the other connections
-- write while it waits, and what wakes it.
pub record Turn (W : Type 0) : Type 0 where
  pub now : ℕ
  pub opened : Option Error
  pub begun : Option Error
  pub writes : Store W → Store W
  pub woken : Woken

abbrev pub end_of_watch : Error
end_of_watch = sentinel Sentinel.end_of_watch

abbrev is_none : Option Error → Bool
is_none none = true
is_none (some e) = false

-- `WithReadTx`: the callback is called whether `BeginTx` fails or not, with a transaction if it does
-- not; a panic is recovered, and the result is then the zero value.
abbrev recovered : Result (Unit {0}) → Result (Unit {0})
recovered (ok _) = ok tt
recovered (err e) = err e
recovered (panic m) = ok tt

unfoldable pub with_read_tx :
    {W : Type 0} → Option Error → Option Error → (Bool → M W (Unit {0})) → M W (Unit {0})
with_read_tx (some e) begun cb s = (err e, s)
with_read_tx none begun cb s = let (r, s') = cb (is_none begun) s in (recovered r, s')

module _ {W A : Type 0} (conn : SqliteStreamDb W) (watcher : Watcher A) (limit : ℕ)
    (path : String) where
  -- The variables of `watchChanges`, the store and the watcher.
  pub record Watch : Type 0 where
    pub store : Store W
    pub files : A
    pub err_db : Option Error
    pub err_shm : Option Error
    pub err_wal : Option Error
    pub ticker : TimeoutPublisher

  -- The `select` of the callback.
  unfoldable pub on_woken : Woken → M W (Unit {0})
  on_woken (changed op) s =
      if not (nat_beq op watcher.chmod) then publish_change_log conn limit s else (ok tt, s)
  on_woken closed s = (err end_of_watch, s)
  on_woken ticked s = publish_change_log conn limit s

  abbrev shm_path : String
  shm_path = path ++ "-shm"

  abbrev wal_path : String
  wal_path = path ++ "-wal"

  unfoldable pub subscribe : Watch → Watch
  subscribe w =
      let (err_db, files₁) = watcher.add path w.files in
      let (err_shm, files₂) = watcher.add shm_path files₁ in
      let (err_wal, files₃) = watcher.add wal_path files₂ in
      record w { files = files₃; err_db = err_db; err_shm = err_shm; err_wal = err_wal }

  -- An `Add` that failed, again.
  retry : String → Option Error → A → Option Error × A
  retry file none files = (none, files)
  retry file (some e) files = watcher.add file files

  unfoldable pub retry_failed : Watch → Watch
  unfolding retry
  retry_failed w =
      let (err_db, files₁) = retry path w.err_db w.files in
      let (err_shm, files₂) = retry shm_path w.err_shm files₁ in
      let (err_wal, files₃) = retry wal_path w.err_wal files₂ in
      record w { files = files₃; err_db = err_db; err_shm = err_shm; err_wal = err_wal }

  unfoldable pub resubscribe : Result (Unit {0}) → Watch → Watch
  resubscribe (ok _) w = w
  resubscribe (err e) w = subscribe w
  resubscribe (panic m) w = w

  unfoldable pub watch_turn : Turn W → Watch → Watch
  unfolding resubscribe
  watch_turn t w =
      let (r, store) = with_read_tx t.opened t.begun (λ _. on_woken t.woken) (t.writes w.store) in
      retry_failed (resubscribe r (record w { store = store; ticker = reset t.now w.ticker }))

  unfoldable pub watch_turns : List (Turn W) → Watch → Watch
  watch_turns [] w = w
  watch_turns (t ∷ turns) w = watch_turns turns (watch_turn t w)

  unfoldable pub watching : Result (Unit {0}) → List (Turn W) → Watch → Result (Unit {0}) × Store W
  watching (ok _) turns w = (ok tt, (watch_turns turns w).store)
  watching (err e) turns w = (err e, w.store)
  watching (panic m) turns w = (panic m, w.store)

  -- The ticker, and a first publish before the loop, which nothing recovers.
  unfoldable pub watch_changes : ℕ → ℕ → List (Turn W) → A → Store W → Result (Unit {0}) × Store W
  watch_changes now polling_interval turns files s =
      let w : Watch = subscribe (record {
        store = s;
        files = files;
        err_db = none;
        err_shm = none;
        err_wal = none;
        ticker = new_timeout_publisher now polling_interval;
      }) in
      let (r, s') = publish_change_log conn limit w.store in
      watching r turns (record w { store = s' })
