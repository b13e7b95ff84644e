-- ===== src/Db/Watch/Linked.antt =====
-- `watchChanges` of db/change_log.go keeps the invariant of the change log.
use marmot.Base.{
  ℕ, String, ◌≡◌, refl, Bool, true, false, Option, none, some, List, [], ◌∷◌, All, nat_beq,
  Bool-cases, inl, inr,
}
use marmot.Base.Errors.{Error, Result, ok, err, panic}
use marmot.Db.Store.{SqliteStreamDb, Store, M}
use marmot.Db.ChangeLog.Invariant.{IsLinked}
use marmot.Db.ChangeLog.Rounds.{IsSteady}
use marmot.Db.ChangeLog.Sound.{publish_change_log-IsLinked}
use marmot.Timer.{reset}
use marmot.Db.Watch.{
  Watcher, Woken, changed, closed, ticked, Turn, with_read_tx, Watch, on_woken, subscribe,
  retry_failed, resubscribe, watch_turn, watch_turns, watching, watch_changes,
}

module _ {W : Type 0} (conn : SqliteStreamDb W) where
  with_read_tx-IsLinked :
      (opened begun : Option Error) (cb : Bool → M W (Unit {0})) (s : Store W)
      → IsLinked conn s
      → ((b : Bool) → IsLinked conn (cb b s).1)
      → IsLinked conn (with_read_tx opened begun cb s).1
  unfolding with_read_tx
  with_read_tx-IsLinked (some e) begun cb s h kept = h
  with_read_tx-IsLinked none none cb s h kept = kept true
  with_read_tx-IsLinked none (some e) cb s h kept = kept false

  module _ {A : Type 0} (watcher : Watcher A) (limit : ℕ) (path : String)
      (steady : IsSteady conn) where
    on_woken-IsLinked :
        (woken : Woken) (s : Store W)
        → IsLinked conn s
        → IsLinked conn (on_woken conn watcher limit path woken s).1
    unfolding on_woken
    on_woken-IsLinked closed s h = h
    on_woken-IsLinked ticked s h = (publish_change_log-IsLinked conn limit s steady h).1
    on_woken-IsLinked (changed op) s h = elim (Bool-cases (nat_beq op watcher.chmod)) [
      | inl e ↦ rw e h
      | inr e ↦ rw e ((publish_change_log-IsLinked conn limit s steady h).1)
    ]

    -- What the others write keeps the invariant.
    abbrev pub WritesKeep : Turn W → Type 0
    WritesKeep t = (s : Store W) → IsLinked conn s → IsLinked conn (t.writes s)

    abbrev State : Type 0
    State = Watch conn watcher limit path

    resubscribe_store :
        (r : Result (Unit {0})) (w : State)
        → (resubscribe conn watcher limit path r w).store ≡ w.store
    unfolding resubscribe subscribe
    resubscribe_store (ok _) w = refl
    resubscribe_store (err e) w = refl
    resubscribe_store (panic m) w = refl

    watch_turn-IsLinked :
        (t : Turn W) (w : State)
        → WritesKeep t
        → IsLinked conn w.store
        → IsLinked conn (watch_turn conn watcher limit path t w).store
    unfolding watch_turn retry_failed
    watch_turn-IsLinked t w keep h =
        let cb = λ (b : Bool). on_woken conn watcher limit path t.woken in
        let s = t.writes w.store in
        let kept = keep w.store h in
        let (r, s') = with_read_tx t.opened t.begun cb s in
        rw (resubscribe_store r (record w { store = s'; ticker = reset t.now w.ticker }))
          (with_read_tx-IsLinked t.opened t.begun cb s kept (λ b. on_woken-IsLinked t.woken s kept))

    watch_turns-IsLinked :
        (turns : List (Turn W)) (w : State)
        → All WritesKeep turns
        → IsLinked conn w.store
        → IsLinked conn (watch_turns conn watcher limit path turns w).store
    unfolding watch_turns
    watch_turns-IsLinked [] w keep h = h
    watch_turns-IsLinked (t ∷ turns) w keep h =
        watch_turns-IsLinked turns _ keep.1 (watch_turn-IsLinked t w keep.0 h)

    -- If the callback does not panic, and what other connections write keeps every global entry
    -- linked to a pending row of its own, then so does watchChanges, whatever wakes it, whatever
    -- calls of the database, connections and transactions fail, and whatever the watcher answers,
    -- and it does not end with an error.
    pub watch_changes-IsLinked :
        (now polling_interval : ℕ) (turns : List (Turn W)) (files : A) (s : Store W)
        → All WritesKeep turns
        → IsLinked conn s
        → let run = watch_changes conn watcher limit path now polling_interval turns files s in
          (run.0 ≡ ok tt) × IsLinked conn run.1
    unfolding watch_changes watching subscribe
    watch_changes-IsLinked now polling_interval turns files s keep h =
        let (fine, kept) = publish_change_log-IsLinked conn limit s steady h in
        rw fine (refl, watch_turns-IsLinked turns _ keep kept)
