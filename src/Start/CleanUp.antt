-- ===== src/Start/CleanUp.antt =====
-- `marmot -cleanup`: what `main` of marmot.go leaves of the database's schema.
use marmot.Base.{ℕ, String, Bool, true, false, ◌≡◌, refl, [], All}
use marmot.Base.Errors.{ok}
use marmot.Cfg.{Configuration}
use marmot.Db.Catalog.{Catalog}
use marmot.Db.Cdc.{is_marmot_trigger, remove_cdc}
use marmot.Db.Cdc.Removed.{TablesOwnThemselves, TablesGone, remove_cdc-removes}
use marmot.Start.{Flags, Parts, returned, opened, start}

module _ (like : String → String → Bool) (prefix : String) (p : Parts Catalog) (flags : Flags) where
  -- With the flag -cleanup, a configuration that loads, a database that opens and has no failing
  -- call ahead, and every table its own owner in the schema: main returns, and leaves no trigger
  -- and no table whose name LIKE matches.
  pub start_cleans_up :
      (c : Configuration) (now : ℕ) (s s' : Catalog)
      → flags.cleanup ≡ true
      → p.remove_cdc ≡ remove_cdc like prefix
      → p.open_stream_db (p.initialize_telemetry s) ≡ (ok tt, s')
      → s'.faults ≡ []
      → TablesOwnThemselves s'.items
      → (d : Catalog) × (start p flags (ok c) now s ≡ returned d)
        × All (λ i. is_marmot_trigger like prefix i ≡ false) d.items
        × TablesGone like prefix true d.items
  unfolding start opened
  start_cleans_up c now s s' cleaning removes opens calm own =
      let (d, removed, triggers, tables) = remove_cdc-removes like prefix true s' calm own in
      (d, rw (opens, cleaning, removes, removed) refl, triggers, tables)
