-- ===== src/Db/ChangeLog/Sound.antt =====
-- `publishChangeLog` of db/change_log.go returns, and keeps the invariant of the change log.
use marmot.Base.{
  ℕ, ◌≡◌, refl, ◌⊎◌, inl, inr, arith, true, Option, List, [], ◌∷◌, nat_beq, All, Pairwise,
  Bool-cases, take, All-map, All-both, All-take, Pairwise-take, string_key, nat_key, length,
}
use marmot.Base.Errors.{Error, Result, ok, err}
use marmot.Db.Store.{SqliteStreamDb, Store, GlobalChangeLogEntry}
use marmot.Db.Store.Calls.{calls-Called}
use marmot.Db.ChangeLog.{
  order_by_id, Round, next, finished, panicked, publish_round, proceed, publish_changes,
  get_global_changes, count_changes, after_scan, after_count, count_and_publish, publish_change_log,
}
use marmot.Db.ChangeLog.Order.{All-order_by_id, Pairwise-order_by_id}
use marmot.Db.ChangeLog.Invariant.{Apart, Apart-sym, IsLinked, Waiting}
use marmot.Db.ChangeLog.Rounds.{IsSteady, Keeps, publish_round-Keeps}

module _ {W : Type 0} (conn : SqliteStreamDb W) where
  -- Returns, with the invariant.
  abbrev Sound : Result (Unit {0}) × Store W → Type 0
  Sound (r, s) = (r ≡ ok tt) × IsLinked conn s

  proceed-Sound :
      (changes : List GlobalChangeLogEntry) (round : Round conn)
      (rest : Store W → Result (Unit {0}) × Store W)
      → Keeps conn changes round
      → ((s : Store W) → Waiting conn changes s → Sound (rest s))
      → Sound (proceed conn round rest)
  unfolding proceed
  proceed-Sound changes (next s) rest w h = h s w
  proceed-Sound changes (finished s) rest w h = (refl, w)
  proceed-Sound changes (panicked m s) rest w h = absurd w

  publish_changes-Sound :
      (changes : List GlobalChangeLogEntry) (s : Store W)
      → IsSteady conn
      → Waiting conn changes s
      → Sound (publish_changes conn changes s)
  unfolding publish_changes
  publish_changes-Sound [] s steady w = (refl, w.all)
  publish_changes-Sound (c ∷ changes) s steady w =
      proceed-Sound changes (publish_round conn c s) (publish_changes conn changes)
        (publish_round-Keeps conn c changes s steady w)
        (λ s' w'. publish_changes-Sound changes s' steady w')

  -- The scanned entries are a queue.
  others_of :
      (all : List GlobalChangeLogEntry)
      → Pairwise (Apart conn) all
      → All (λ c. All (λ g. (nat_beq g.id c.id ≡ true) ⊎ Apart conn c g) all) all
  others_of [] apart = tt
  others_of (g ∷ gs) apart = (
    (inl (ground arith), All-map (Apart conn g) _ gs (λ x a. inr a) apart.0),
    All-both (Apart conn g) (λ c. All (λ g. (nat_beq g.id c.id ≡ true) ⊎ Apart conn c g) gs) _ gs
        (λ c a h. (inr (Apart-sym conn g c a), h)) apart.0 (others_of gs apart.1),
  )

  pub scanned-Waiting :
      (limit : ℕ) (s : Store W)
      → IsLinked conn s
      → Waiting conn (take limit (order_by_id s.global)) s
  scanned-Waiting limit s h = record {
    all = h;
    linked = All-take _ limit _ (All-order_by_id _ s.global h.linked);
    apart = Pairwise-take _ limit _ (Pairwise-order_by_id _ (Apart-sym conn) s.global h.apart);
    others = All-take _ limit _ (All-order_by_id _ s.global (others_of s.global h.apart));
  }

  pub scan-cases :
      (limit : ℕ) (s : Store W)
      → ((faults : List (Option Error)) × (get_global_changes conn limit s
            ≡ (ok (take limit (order_by_id s.global)), record s { faults = faults })))
        ⊎ ((e : Error) × (faults : List (Option Error)) × (get_global_changes conn limit s
              ≡ (err e, record s { faults = faults })))
  unfolding get_global_changes
  scan-cases limit s = elim (calls-Called 2 s) [
    | inl (faults, h) ↦ inl (faults, ground arith)
    | inr (e, faults, h) ↦ inr (e, faults, ground arith)
  ]

  pub count-cases :
      (s : Store W)
      → ((faults : List (Option Error)) × (count_changes conn s
            ≡ (ok (length s.global), record s { faults = faults })))
        ⊎ ((e : Error) × (faults : List (Option Error)) × (count_changes conn s
              ≡ (err e, record s { faults = faults })))
  unfolding count_changes
  count-cases s = elim (calls-Called 2 s) [
    | inl (faults, h) ↦ inl (faults, ground arith)
    | inr (e, faults, h) ↦ inr (e, faults, ground arith)
  ]

  after_scan-Sound :
      (limit : ℕ) (s : Store W)
      → IsSteady conn
      → IsLinked conn s
      → Sound (after_scan conn (get_global_changes conn limit s))
  unfolding after_scan
  after_scan-Sound limit s steady h = elim (scan-cases limit s) [
    | inl (faults, e) ↦ rw e (publish_changes-Sound _ _ steady (scanned-Waiting limit s h))
    | inr (x, faults, e) ↦ rw e (refl, h)
  ]

  count_and_publish-Sound :
      (limit : ℕ) (s : Store W)
      → IsSteady conn
      → IsLinked conn s
      → Sound (count_and_publish conn limit s)
  unfolding count_and_publish after_count
  count_and_publish-Sound limit s steady h = elim (count-cases s) [
    | inl (faults, e) ↦
        let s' : Store W = record s { faults = faults; pending_publish = length s.global } in
        elim (Bool-cases (nat_beq (length s.global) 0)) [
          | inl none_there ↦ rw (e, none_there) (refl, h)
          | inr some_there ↦ rw (e, some_there) (after_scan-Sound limit s' steady h)
        ]
    | inr (x, faults, e) ↦ rw e (refl, h)
  ]

  -- If every global entry is linked to a pending row of its own, and the callback does not panic,
  -- publishChangeLog returns, and keeps every global entry linked to a pending row of its own,
  -- whatever calls of the database fail and whatever errors the callback returns.
  pub publish_change_log-IsLinked :
      (limit : ℕ) (s : Store W)
      → IsSteady conn
      → IsLinked conn s
      → ((publish_change_log conn limit s).0 ≡ ok tt)
        × IsLinked conn (publish_change_log conn limit s).1
  unfolding publish_change_log
  publish_change_log-IsLinked limit s steady h = elim (Bool-cases s.publish_lock) [
    | inl locked ↦ rw locked (refl, h)
    | inr free ↦ rw free (count_and_publish-Sound limit (record s { publish_lock = true }) steady h)
  ]
