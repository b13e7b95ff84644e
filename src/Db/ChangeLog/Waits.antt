-- ===== src/Db/ChangeLog/Waits.antt =====
-- A callback that is not ready, and `publishChangeLog` of db/change_log.go.
use marmot.Base.{
  ℕ, ◌≡◌, refl, true, false, ◌||◌, some, List, [], ◌∷◌, nat_beq, length, take, Bool-cases, inl, inr,
}
use marmot.Base.Errors.{Error, ok, err, errors_is, log_not_ready_to_publish, canceled}
use marmot.Db.Store.{SqliteStreamDb, Store, GlobalChangeLogEntry}
use marmot.Db.ChangeLog.{
  order_by_id, finished, after_consume, publish_round, proceed, publish_changes, after_scan,
  after_count, count_and_publish, unlocked, publish_change_log,
}
use marmot.Db.ChangeLog.Invariant.{IsLinked, Waiting}
use marmot.Db.ChangeLog.Rounds.{linked_log}
use marmot.Db.ChangeLog.Sound.{scanned-Waiting}
use marmot.Db.ChangeLog.Calm.{publish_round_calm, scan_calm, count_calm}
use marmot.Db.ChangeLog.Events.{AreKeyed, linked_row}

module _ {W : Type 0} (conn : SqliteStreamDb W) (x : Error)
    (not_ready : (errors_is x log_not_ready_to_publish || errors_is x canceled) ≡ true)
    (watched : conn.on_change ≡ some (λ e w. (err x, w))) where
  round_waits :
      (c : GlobalChangeLogEntry) (cs : List GlobalChangeLogEntry) (s : Store W)
      → Waiting conn (c ∷ cs) s
      → AreKeyed conn s.logs
      → s.faults ≡ []
      → publish_round conn c s ≡ finished s
  unfolding after_consume
  round_waits c cs s w keyed calm =
      let (t, found) = linked_log conn c s.logs w.linked.0 in
      let (row, there) = linked_row conn s.logs c t found w.linked.0 in
      rw
        (publish_round_calm conn c t row s found there (keyed _ t found) calm (λ e w. (err x, w))
          watched)
        (rw not_ready refl)

  changes_wait :
      (changes : List GlobalChangeLogEntry) (s : Store W)
      → Waiting conn changes s
      → AreKeyed conn s.logs
      → s.faults ≡ []
      → publish_changes conn changes s ≡ (ok tt, s)
  unfolding publish_changes proceed
  changes_wait [] s w keyed calm = refl
  changes_wait (c ∷ cs) s w keyed calm = rw (round_waits c cs s w keyed calm) refl

  count_and_publish_waits :
      (limit : ℕ) (s : Store W)
      → IsLinked conn s
      → AreKeyed conn s.logs
      → s.faults ≡ []
      → count_and_publish conn limit s ≡ (ok tt, record s { pending_publish = length s.global })
  unfolding count_and_publish after_count after_scan
  count_and_publish_waits limit s linked keyed calm =
      let s' : Store W = record s { pending_publish = length s.global } in
      elim (Bool-cases (nat_beq (length s.global) 0)) [
        | inl none_there ↦ rw (count_calm conn s calm, none_there) refl
        | inr some_there ↦
            rw (count_calm conn s calm, some_there, scan_calm conn limit s' calm)
              (changes_wait (take limit (order_by_id s.global)) s'
                (scanned-Waiting conn limit s' linked) keyed calm)
      ]

  -- With the lock free, every global entry linked to a pending row of its own, unique ids in each
  -- change log and no failing call of the database: if the callback refuses with
  -- ErrLogNotReadyToPublish or a cancelled context, and does nothing, publishChangeLog returns and
  -- changes nothing but the gauge of pending changes, so all changes wait.
  pub publish_change_log_waits :
      (limit : ℕ) (s : Store W)
      → s.publish_lock ≡ false
      → IsLinked conn s
      → AreKeyed conn s.logs
      → s.faults ≡ []
      → publish_change_log conn limit s ≡ (ok tt, record s { pending_publish = length s.global })
  unfolding publish_change_log unlocked
  publish_change_log_waits limit s free linked keyed calm =
      rw (free, count_and_publish_waits limit (record s { publish_lock = true }) linked keyed calm)
        refl
