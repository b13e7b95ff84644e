-- ===== src/Db/ChangeLog/Conserved.antt =====
-- Calls of `publishChangeLog` of db/change_log.go one after the other: what one hands to the callback, and
-- what it leaves to the next.
use mathlib.Core.List.{foldl}
use marmot.Base.{
  String, ◌-◌, ℕ, zero, suc, ◌≡◌, refl, sym, ap, ◌∙◌, inl, inr, false, some, List, [], ◌∷◌, nat_beq,
  All, Pairwise, All-map, Option-cases, take, drop, length, string_key,
}
use marmot.Base.Maps.{Map}
use marmot.Base.Errors.{Result, ok}
use marmot.Db.Event.{ChangeLogEvent}
use marmot.Db.Store.{SqliteStreamDb, Store, LogTable, GlobalChangeLogEntry}
use marmot.Db.ChangeLog.{order_by_id, publish_change_log}
use marmot.Db.ChangeLog.Invariant.{Apart, Apart-sym, IsLinked}
use marmot.Db.ChangeLog.Order.{Pairwise-order_by_id}
use marmot.Db.ChangeLog.Events.{AreKeyed, row_for, events, GoesOn}
use marmot.Db.ChangeLog.InOrder.{Run, publish_change_log_in_order}
use marmot.Db.ChangeLog.Queue.{order_by_id-rest, drop-take_apart, length-order_by_id, length-drop}

-- What the callback makes of its world with the events, one after the other.
abbrev pub consumed :
    {W : Type 0} → (ChangeLogEvent → W → Result (Unit {0}) × W) → W → List ChangeLogEvent → W
consumed f w es = foldl (λ v e. (f e v).1) w es

module _ {W : Type 0} (conn : SqliteStreamDb W) where
  -- No publisher at work, the invariant, unique ids, and no failing call ahead.
  pub record IsQuiet (s : Store W) : Type 0 where
    pub free : s.publish_lock ≡ false
    pub linked : IsLinked conn s
    pub keyed : AreKeyed conn s.logs
    pub calm : s.faults ≡ []

  events_kept :
      (logs logs' : Map String LogTable) (ds : List GlobalChangeLogEntry)
      → All (λ d. row_for conn logs' d ≡ row_for conn logs d) ds
      → events conn logs' ds ≡ events conn logs ds
  events_kept logs logs' [] h = refl
  events_kept logs logs' (d ∷ ds) h = rw (h.0, events_kept logs logs' ds h.1) refl

  module _ (f : ChangeLogEvent → W → Result (Unit {0}) × W) (watched : conn.on_change ≡ some f)
      (IsFit : W → Type 0)
      (lasts : (e : ChangeLogEvent) (w : W)
        → IsFit w
        → GoesOn conn (f e w).0 × IsFit (f e w).1) where
    consumed-split :
        (n : ℕ) (logs : Map String LogTable) (gs : List GlobalChangeLogEntry) (w : W)
        → consumed f (consumed f w (events conn logs (take n gs))) (events conn logs (drop n gs))
          ≡ consumed f w (events conn logs gs)
    consumed-split zero logs gs w = refl
    consumed-split (suc n) logs [] w = refl
    consumed-split (suc n) logs (x ∷ xs) w = elim (Option-cases (row_for conn logs x)) [
      | inl e ↦ rw e (consumed-split n logs xs w)
      | inr (row, e) ↦ rw e (consumed-split n logs xs _)
    ]

    -- The callback's world once it has had the events of all global entries, by id.
    abbrev pub consumed_all : Store W → W
    consumed_all s = consumed f s.world (events conn s.logs (order_by_id s.global))

    pub consumed_all-emptied : (s : Store W) → s.global ≡ [] → consumed_all s ≡ s.world
    unfolding order_by_id
    consumed_all-emptied s emptied = rw emptied refl

    pub record Published (limit : ℕ) (s s' : Store W) : Type 0 where
      pub quiet : IsQuiet s'
      pub fit : IsFit s'.world
      pub conserved : consumed_all s' ≡ consumed_all s
      pub shorter : length s'.global ≡ length s.global - limit

    conserve :
        (limit : ℕ) (s s' : Store W)
        → IsLinked conn s
        → Run conn f watched IsFit lasts
            (take limit (order_by_id s.global))
            s.logs
            s'.logs
            s.global
            s'.global
            s.world
            s'.world
            s'.faults
            s'.next_global
        → (consumed_all s' ≡ consumed_all s) × (length s'.global ≡ length s.global - limit)
    conserve limit s s' linked run =
        let queue = order_by_id s.global in
        let apart = Pairwise-order_by_id (Apart conn) (Apart-sym conn) s.global linked.apart in
        let rest : order_by_id s'.global ≡ drop limit queue =
          ap order_by_id run.global ∙ order_by_id-rest conn limit s.global (differ queue apart) in
        let kept : events conn s'.logs (drop limit queue) ≡ events conn s.logs (drop limit queue) =
          events_kept s.logs s'.logs (drop limit queue) (
            All-map (λ d. All (λ c. Apart conn c d) (take limit queue)) _ (drop limit queue)
              (λ d h. run.kept d (All-map _ _ (take limit queue) (λ c a. a.1) h))
              (drop-take_apart (Apart conn) limit queue apart)) in
        (
          rw (rest, kept, run.world) (consumed-split limit s.logs queue s.world),
          sym (length-order_by_id s'.global)
              ∙ ap length rest
              ∙ length-drop limit queue
              ∙ ap (λ n. n - limit) (length-order_by_id s.global),
        )
      where
        differ :
            (gs : List GlobalChangeLogEntry)
            → Pairwise (Apart conn) gs
            → Pairwise (λ a b. nat_beq a.id b.id ≡ false) gs
        differ [] h = tt
        differ (x ∷ xs) h = (All-map _ _ xs (λ b a. a.0) h.0, differ xs h.1)

    pub publish_change_log-Published :
        (limit : ℕ) (s : Store W)
        → IsQuiet s
        → IsFit s.world
        → ((publish_change_log conn limit s).0 ≡ ok tt)
          × Published limit s (publish_change_log conn limit s).1
    publish_change_log-Published limit s quiet fit =
        let (fine, free, run) =
          publish_change_log_in_order conn f watched IsFit lasts limit s quiet.free quiet.linked
            quiet.keyed quiet.calm fit in
        let (conserved, shorter) =
          conserve limit s (publish_change_log conn limit s).1 quiet.linked run in
        (
          fine,
          record {
            quiet = record { free = free; linked = run.linked; keyed = run.keyed; calm = run.calm };
            fit = run.fit;
            conserved = conserved;
            shorter = shorter;
          },
        )
