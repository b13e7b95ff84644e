-- ===== src/Db/Watch/Drained.antt =====
-- `watchChanges` of db/change_log.go empties the global log: each change goes to the callback once, in
-- the order of the ids.
use marmot.Base.{
  ℕ, suc, ◌*◌, ◌-◌, ◌≤◌, String, ◌≡◌, refl, sym, ap, ◌∙◌, arith, Bool, true, false, Option, none,
  some, List, [], ◌∷◌, All, nat_beq, length,
}
use marmot.Base.Errors.{Error, Result, ok}
use marmot.Db.Event.{ChangeLogEvent}
use marmot.Db.Store.{SqliteStreamDb, Store, M, GlobalChangeLogEntry}
use marmot.Db.ChangeLog.{order_by_id, publish_change_log}
use marmot.Db.ChangeLog.Events.{GoesOn, events}
use marmot.Db.ChangeLog.Conserved.{
  IsQuiet, consumed, consumed_all, consumed_all-emptied, publish_change_log-Published,
}
use marmot.Timer.{new_timeout_publisher}
use marmot.Db.Watch.{
  Watcher, Woken, changed, closed, ticked, Turn, with_read_tx, Watch, on_woken, subscribe,
  retry_failed, resubscribe, watch_turn, watch_turns, watching, watch_changes,
}

with_read_tx_ok :
    {W : Type 0} (opened begun : Option Error) (cb : Bool → M W (Unit {0})) (s s' : Store W)
    → opened ≡ none
    → ((b : Bool) → cb b s ≡ (ok tt, s'))
    → with_read_tx opened begun cb s ≡ (ok tt, s')
unfolding with_read_tx
with_read_tx_ok none none cb s s' e h = rw (h true) refl
with_read_tx_ok none (some x) cb s s' e h = rw (h false) refl
with_read_tx_ok (some x) begun cb s s' e h = absurd (ground arith)

module _ {W A : Type 0} (conn : SqliteStreamDb W) (watcher : Watcher A) (limit : ℕ)
    (path : String) where
  -- Woken by the timer, or by an event that is not a `Chmod` alone.
  abbrev pub IsPulse : Woken → Type 0
  IsPulse (changed op) = nat_beq op watcher.chmod ≡ false
  IsPulse closed = ⊥
  IsPulse ticked = Unit

  -- A turn whose connection opens, in which no one else writes, and which has a pulse.
  pub record IsAlone (t : Turn W) : Type 0 where
    pub opens : t.opened ≡ none
    pub no_writes : (s : Store W) → t.writes s ≡ s
    pub pulse : IsPulse t.woken

  on_woken_pulse :
      (woken : Woken) (s : Store W)
      → IsPulse woken
      → on_woken conn watcher limit path woken s ≡ publish_change_log conn limit s
  unfolding on_woken
  on_woken_pulse (changed op) s h = rw h refl
  on_woken_pulse closed s h = absurd h
  on_woken_pulse ticked s h = refl

  abbrev State : Type 0
  State = Watch conn watcher limit path

  turn_publishes :
      (t : Turn W) (w : State)
      → IsAlone t
      → (publish_change_log conn limit w.store).0 ≡ ok tt
      → (watch_turn conn watcher limit path t w).store ≡ (publish_change_log conn limit w.store).1
  unfolding watch_turn resubscribe retry_failed
  turn_publishes t w alone fine =
      let s' = (publish_change_log conn limit w.store).1 in
      let published : publish_change_log conn limit w.store ≡ (ok tt, s') = ground arith in
      rw (alone.no_writes w.store) (
        rw
          (with_read_tx_ok t.opened t.begun (λ _. on_woken conn watcher limit path t.woken) w.store
            s' alone.opens (λ b. on_woken_pulse t.woken w.store alone.pulse ∙ published))
          refl)

  module _ (f : ChangeLogEvent → W → Result (Unit {0}) × W) (watched : conn.on_change ≡ some f)
      (IsFit : W → Type 0)
      (lasts : (e : ChangeLogEvent) (w : W)
        → IsFit w
        → GoesOn conn (f e w).0 × IsFit (f e w).1) where
    -- What a quiet store becomes that loses up to so many entries.
    abbrev Drains : ℕ → Store W → Store W → Type 0
    Drains n s s' =
        IsQuiet conn s'
        × IsFit s'.world
        × (consumed_all conn f watched IsFit lasts s' ≡ consumed_all conn f watched IsFit lasts s)
        × (length s'.global ≡ length s.global - n)

    turns_drain :
        (turns : List (Turn W)) (w : State)
        → All IsAlone turns
        → IsQuiet conn w.store
        → IsFit w.store.world
        → Drains (length turns * limit) w.store (watch_turns conn watcher limit path turns w).store
    unfolding watch_turns
    turns_drain [] w alone quiet fit = (quiet, fit, refl, omega arith)
    turns_drain (t ∷ turns) w alone quiet fit =
        let (fine, p) =
          publish_change_log-Published conn f watched IsFit lasts limit w.store quiet fit in
        let next = watch_turn conn watcher limit path t w in
        let stored = turn_publishes t w alone.0 fine in
        let (quiet', fit', conserved, shorter) =
          turns_drain turns next alone.1 (rw stored p.quiet) (rw stored p.fit) in
        (
          quiet',
          fit',
          conserved ∙ ap (consumed_all conn f watched IsFit lasts) stored ∙ p.conserved,
          let here = ap (λ (s : Store W). length s.global) stored ∙ p.shorter in omega arith,
        )

    -- With the lock free, every global entry linked to a pending row of its own, unique ids in each
    -- change log, no failing call of the database, and a callback that, in the worlds that it comes
    -- to from the one at hand, accepts each event or refuses it with an error that does not end the
    -- loop: if nobody else writes, and each turn of watchChanges opens its connection and is woken
    -- by the timer or by an event that is not a Chmod alone, then as many turns as the limit needs
    -- leave the global log empty, and the callback has had the event of each global entry once, in
    -- the order of their ids. It does not matter whether transactions begin, nor what the watcher
    -- answers.
    pub watch_changes-drains :
        (now polling_interval : ℕ) (turns : List (Turn W)) (files : A) (s : Store W)
        → IsQuiet conn s
        → IsFit s.world
        → All IsAlone turns
        → length s.global ≤ suc (length turns) * limit
        → let run = watch_changes conn watcher limit path now polling_interval turns files s in
          (run.0 ≡ ok tt)
          × (run.1.global ≡ [])
          × (run.1.world ≡ consumed f s.world (events conn s.logs (order_by_id s.global)))
    unfolding watch_changes watching subscribe
    watch_changes-drains now polling_interval turns files s quiet fit alone enough =
        let (fine, p) = publish_change_log-Published conn f watched IsFit lasts limit s quiet fit in
        let w : State =
          record (subscribe conn watcher limit path (record {
            store = s;
            files = files;
            err_db = none;
            err_shm = none;
            err_wal = none;
            ticker = new_timeout_publisher now polling_interval;
          })) { store = (publish_change_log conn limit s).1 } in
        let last = watch_turns conn watcher limit path turns w in
        let (_, fit', conserved, shorter) = turns_drain turns w alone p.quiet p.fit in
        let before = p.shorter in
        let emptied : last.store.global ≡ [] = none_left last.store.global (omega arith) in
        rw fine (
          refl,
          emptied,
          sym (consumed_all-emptied conn f watched IsFit lasts last.store emptied)
              ∙ conserved
              ∙ p.conserved,
        )
      where
        none_left : (gs : List GlobalChangeLogEntry) → length gs ≡ 0 → gs ≡ []
        none_left [] e = refl
        none_left (g ∷ gs) e = absurd (omega arith)
