-- ===== src/Db/Store/Calls.antt =====
-- Calls of the database in db/ change nothing but the faults that are to come.
use marmot.Base.{
  ℕ, zero, suc, ◌≡◌, refl, ◌⊎◌, inl, inr, arith, Bool, true, false, Option, none, some, List, [],
  ◌∷◌,
}
use marmot.Base.Errors.{Error, Result, ok, err}
use marmot.Db.Store.{Store, call, calls, next_row}

module _ {W : Type 0} where
  -- So many calls succeed, or fail with an error.
  abbrev pub Called : Store W → Result (Unit {0}) × Store W → Type 0
  Called s run =
      ((faults : List (Option Error)) × (run ≡ (ok tt, record s { faults = faults })))
      ⊎ ((e : Error) × (faults : List (Option Error)) × (run
            ≡ (err e, record s { faults = faults })))

  calls_from :
      (n : ℕ) (s : Store W) (faults : List (Option Error))
      → Called s (calls n (record s { faults = faults }))
  unfolding calls call
  calls_from zero s faults = inl (faults, refl)
  calls_from (suc n) s [] = calls_from n s []
  calls_from (suc n) s (none ∷ faults) = calls_from n s faults
  calls_from (suc n) s (some e ∷ faults) = inr (e, faults, refl)

  pub calls-Called : (n : ℕ) (s : Store W) → Called s (calls n s)
  calls-Called n s = calls_from n s s.faults

  -- With no faults to come, calls do nothing.
  pub calls_calm : (n : ℕ) (s : Store W) → s.faults ≡ [] → calls n s ≡ (ok tt, s)
  unfolding calls call
  calls_calm zero s e = refl
  calls_calm (suc n) s e = ground (arith, calls_calm n s e)

  pub call_from :
      (s : Store W) (faults : List (Option Error)) → Called s (call (record s { faults = faults }))
  unfolding call
  call_from s [] = inl ([], refl)
  call_from s (none ∷ faults) = inl (faults, refl)
  call_from s (some e ∷ faults) = inr (e, faults, refl)

  -- `Next` finds a row or ends the rows, and fails in neither case.
  pub next_row_from :
      (s : Store W) (faults : List (Option Error))
      → (more : Bool) × (left : List (Option Error)) × (next_row (record s { faults = faults })
          ≡ (ok more, record s { faults = left }))
  unfolding next_row call
  next_row_from s [] = (true, [], refl)
  next_row_from s (none ∷ faults) = (true, faults, refl)
  next_row_from s (some e ∷ faults) = (false, faults, refl)

  pub next_row_calm : (s : Store W) → s.faults ≡ [] → next_row s ≡ (ok true, s)
  unfolding next_row call
  next_row_calm s e = ground (arith, e)

  pub call_calm : (s : Store W) → s.faults ≡ [] → call s ≡ (ok tt, s)
  unfolding call
  call_calm s e = ground (arith, e)
