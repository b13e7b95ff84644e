-- ===== src/Db/ChangeLog/InOrder.antt =====
-- What `publishChangeLog` of db/change_log.go hands to the callback, and what it leaves, while no call
-- of the database fails.
use mathlib.Core.List.{foldl}
use marmot.Base.{
  ℕ, ◌+◌, String, ◌≡◌, refl, ap, ◌∙◌, inl, inr, arith, true, false, Option, none, some, List, [],
  ◌∷◌, nat_beq, All, Bool-cases, string_key, take, length,
}
use marmot.Base.Maps.{Map, lookup}
use marmot.Base.Errors.{Error, Result, ok}
use marmot.Db.Event.{ChangeLogEvent}
use marmot.Db.Store.{
  SqliteStreamDb, Store, LogRow, LogTable, GlobalChangeLogEntry, log_of, find_pending,
}
use marmot.Db.ChangeLog.{
  order_by_id, next, after_mark, publish_round, proceed, publish_changes, after_scan, after_count,
  count_and_publish, unlocked, publish_change_log,
}
use marmot.Db.Store.Links.{same_link}
use marmot.Db.ChangeLog.Invariant.{LinksHold, IsLinked, Waiting, mark-Waiting}
use marmot.Db.ChangeLog.Rounds.{marked, linked_log}
use marmot.Db.ChangeLog.Sound.{scanned-Waiting}
use marmot.Db.ChangeLog.Calm.{
  IsKeyed, event_for, publish_round_calm, mark_calm, scan_calm, count_calm, none_scanned,
}
use marmot.Db.ChangeLog.Events.{
  AreKeyed, row_for, events, without, GoesOn, row_for-none, row_for-Apart, row_for_self,
  is_published, is_published_self, is_published-logs_after, AreKeyed-logs_after, events-Apart,
  linked_row, goes_on,
}

module _ {W : Type 0} (conn : SqliteStreamDb W) where
  module _ (f : ChangeLogEvent → W → Result (Unit {0}) × W) (watched : conn.on_change ≡ some f)
      (IsFit : W → Type 0)
      (lasts : (e : ChangeLogEvent) (w : W)
        → IsFit w
        → GoesOn conn (f e w).0 × IsFit (f e w).1) where
    -- The store after a run over the changes.
    pub record Run (changes : List GlobalChangeLogEntry) (logs logs' : Map String LogTable)
        (before after : List GlobalChangeLogEntry) (w w' : W) (faults : List (Option Error))
        (next_global : ℕ) : Type 0 where
      pub world : w' ≡ foldl (λ w e. (f e w).1) w (events conn logs changes)
      pub global : after ≡ without conn before changes
      pub gone : All (λ c. row_for conn logs' c ≡ none) changes
      pub published : All (λ c. is_published conn logs' c ≡ true) changes
      pub still_published :
          (d : GlobalChangeLogEntry)
          → is_published conn logs d ≡ true
          → is_published conn logs' d ≡ true
      pub still_gone :
          (d : GlobalChangeLogEntry) → row_for conn logs d ≡ none → row_for conn logs' d ≡ none
      pub kept :
          (d : GlobalChangeLogEntry)
          → All (λ c. same_link conn c d ≡ false) changes
          → row_for conn logs' d ≡ row_for conn logs d
      pub keyed : AreKeyed conn logs'
      pub calm : faults ≡ []
      pub fit : IsFit w'
      pub linked : LinksHold conn logs' after next_global

    abbrev pub Went : List GlobalChangeLogEntry → Store W → Store W → Type 0
    Went changes s s' =
        Run changes s.logs s'.logs s.global s'.global s.world s'.world s'.faults s'.next_global

    round_marked :
        (c : GlobalChangeLogEntry) (t : LogTable) (row : LogRow) (s : Store W)
        → lookup (log_of conn c.table_name) s.logs ≡ some t
        → find_pending c.change_table_id t.rows ≡ some row
        → IsKeyed t.rows
        → s.faults ≡ []
        → IsFit s.world
        → publish_round conn c s
          ≡ next (record (marked conn c t s.faults s) {
            world = (f (event_for conn c row) s.world).1;
            published_count = s.published_count + 1;
          })
    unfolding marked after_mark
    round_marked c t row s found there keyed calm fit =
        let (r, w) = f (event_for conn c row) s.world in
        rw (publish_round_calm conn c t row s found there keyed calm f watched) (
          rw
            (goes_on conn c r (record s { world = w }) (lasts (event_for conn c row) s.world fit).0)
            (ap (after_mark conn)
              (mark_calm conn c t row (record s { world = w }) found there keyed calm)))

    run_in_order :
        (changes : List GlobalChangeLogEntry) (s : Store W)
        → Waiting conn changes s
        → AreKeyed conn s.logs
        → s.faults ≡ []
        → IsFit s.world
        → ((publish_changes conn changes s).0 ≡ ok tt)
          × Went changes s (publish_changes conn changes s).1
    unfolding publish_changes proceed marked
    run_in_order [] s w keyed calm fit = (
      refl,
      record {
        world = refl;
        global = refl;
        gone = tt;
        published = tt;
        still_published = λ d h. h;
        still_gone = λ d h. h;
        kept = λ d _. refl;
        keyed = keyed;
        calm = calm;
        fit = fit;
        linked = w.all;
      },
    )
    run_in_order (c ∷ cs) s w keyed calm fit =
        let (t, found) = linked_log conn c s.logs w.linked.0 in
        let (row, there) = linked_row conn s.logs c t found w.linked.0 in
        let s₁ : Store W = record (marked conn c t s.faults s) {
          world = (f (event_for conn c row) s.world).1;
          published_count = s.published_count + 1;
        } in
        let (fine, went) =
          run_in_order cs s₁ (mark-Waiting conn c cs t s s.faults found w)
            (AreKeyed-logs_after conn s.logs c t found keyed) calm
            (lasts (event_for conn c row) s.world fit).1 in
        let its_row : row_for conn s.logs c ≡ some row = ground arith in
        rw (round_marked c t row s found there (keyed _ t found) calm fit) (
          fine,
          record {
            world =
                rw its_row (rw (events-Apart conn s.logs c cs t found w.apart.0) at (went.world));
            global = went.global;
            gone = (went.still_gone c (row_for_self conn s.logs c t), went.gone);
            published = (
              went.still_published c (is_published_self conn s.logs c t row there),
              went.published,
            );
            still_published =
                λ d h. went.still_published d (is_published-logs_after conn s.logs c d t found h);
            still_gone = λ d h. went.still_gone d (row_for-none conn s.logs c d t found h);
            kept = λ d apart. went.kept d apart.1 ∙ row_for-Apart conn s.logs c d t found apart.0;
            keyed = went.keyed;
            calm = went.calm;
            fit = went.fit;
            linked = went.linked;
          },
        )

    abbrev Fine : List GlobalChangeLogEntry → Store W → Result (Unit {0}) × Store W → Type 0
    Fine changes s (r, s') = (r ≡ ok tt) × Went changes s s'

    count_and_publish_in_order :
        (limit : ℕ) (s : Store W)
        → IsLinked conn s
        → AreKeyed conn s.logs
        → s.faults ≡ []
        → IsFit s.world
        → Fine (take limit (order_by_id s.global)) s (count_and_publish conn limit s)
    unfolding count_and_publish after_count after_scan
    count_and_publish_in_order limit s linked keyed calm fit =
        let s' : Store W = record s { pending_publish = length s.global } in
        elim (Bool-cases (nat_beq (length s.global) 0)) [
          | inl none_there ↦
              rw (count_calm conn s calm, none_there, none_scanned conn limit s.global none_there)
                (
                  refl,
                  record {
                    world = refl;
                    global = refl;
                    gone = tt;
                    published = tt;
                    still_published = λ d h. h;
                    still_gone = λ d h. h;
                    kept = λ d _. refl;
                    keyed = keyed;
                    calm = calm;
                    fit = fit;
                    linked = linked;
                  },
                )
          | inr some_there ↦
              rw (count_calm conn s calm, some_there, scan_calm conn limit s' calm)
                (run_in_order (take limit (order_by_id s.global)) s'
                  (scanned-Waiting conn limit s' linked) keyed calm fit)
        ]

    -- With the lock free, every global entry linked to a pending row of its own, unique ids in each
    -- change log, no failing call of the database, and a callback that, in the worlds that it comes
    -- to from the one at hand, accepts each event or refuses it with an error that does not end the
    -- loop: publishChangeLog returns with the lock free, has given the callback the events of the
    -- first `limit` global entries by id, in that order, has removed exactly those from the global
    -- log, and has marked their rows as published, which leaves none of them pending. All other
    -- rows stay as pending as they were, and all that was required holds again.
    pub publish_change_log_in_order :
        (limit : ℕ) (s : Store W)
        → s.publish_lock ≡ false
        → IsLinked conn s
        → AreKeyed conn s.logs
        → s.faults ≡ []
        → IsFit s.world
        → let run = publish_change_log conn limit s in
          (run.0 ≡ ok tt)
          × (run.1.publish_lock ≡ false)
          × Went (take limit (order_by_id s.global)) s run.1
    unfolding publish_change_log unlocked
    publish_change_log_in_order limit s free linked keyed calm fit =
        let (fine, went) =
          count_and_publish_in_order limit (record s { publish_lock = true }) linked keyed calm
            fit in
        rw free (fine, refl, went)
