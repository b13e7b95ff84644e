-- ===== src/LogStream/Lease/Laws.antt =====
-- What the key-value store behind logstream/replicator_meta_store.go promises of one key: its writes are
-- a history, newest first; `Create` writes where there is none, `Update` where the newest has the given
-- revision, and revisions rise. A call that returns an error may have written.
use marmot.Base.{ℕ, ◌<◌, String, ◌≡◌, ◌≢◌, ◌⊎◌, List, [], ◌∷◌}
use marmot.Base.Errors.{ok}
use marmot.LogStream.Replicator.{Bytes}
use marmot.LogStream.Lease.{Entry, KeyValue}

pub record HasHistory {W : Type 0} (kv : KeyValue W) (name : String) : Type 0 where
  pub history : W → List Entry
  pub got :
      (w : W) (e : Entry) → kv.get name w ≡ ok e → (rest : List Entry) × (history w ≡ e ∷ rest)
  pub created :
      (w : W) (bytes : Bytes)
      → ((history (kv.create name bytes w).1 ≡ history w)
          × ((n : ℕ) → (kv.create name bytes w).0 ≢ ok n))
        ⊎ ((n : ℕ) × (history w ≡ [])
            × (history (kv.create name bytes w).1 ≡ record { value = bytes; revision = n } ∷ []))
  pub updated :
      (w : W) (bytes : Bytes) (rev : ℕ)
      → ((history (kv.update name bytes rev w).1 ≡ history w)
          × ((n : ℕ) → (kv.update name bytes rev w).0 ≢ ok n))
        ⊎ ((e : Entry) × (rest : List Entry) × (n : ℕ) × (history w ≡ e ∷ rest)
            × (e.revision ≡ rev)
            × (rev < n)
            × (history (kv.update name bytes rev w).1
                ≡ record { value = bytes; revision = n } ∷ e ∷ rest))
