-- ===== src/LogStream/Lease/Exclusive.antt =====
-- No node takes a lease of logstream/replicator_meta_store.go that another holds, however their calls
-- interleave.
use marmot.Base.{
  ℕ, ◌+◌, ◌≤◌, ◌<◌, String, ◌≡◌, refl, sym, ap, ◌∙◌, ◌⊎◌, inl, inr, arith, false, List, [], ◌∷◌,
  ◌++◌, nat_beq, All, All-map, Bool-cases,
}
use marmot.Base.Errors.{Result, ok, err, panic, Result-cases, is_value, key_not_found}
use marmot.LogStream.Replicator.{Bytes}
use marmot.LogStream.Lease.{
  LockInfo, LockCodec, Entry, KeyValue, Attempt, over, creating, updating, held_by_other,
  after_read, after_get, inspect, created, updated, finish,
}
use marmot.LogStream.Lease.Laws.{HasHistory}

ok_inj : {A : Type 0} {x y : A} → ok x ≡ ok y → x ≡ y
ok_inj h = ground arith

module _ {W : Type 0} (codec : LockCodec) (kv : KeyValue W) (name : String) (duration : ℕ)
    (laws : HasHistory kv name) where
  -- The world, and the attempts that have read the entry and not yet written.
  pub record System : Type 0 where
    pub world : W
    pub attempts : List Attempt

  -- Any node starts an attempt at any time of its clock, and any attempt goes on.
  pub data Step : System → System → Type 0 where
    begins :
        (node now : ℕ) (w : W) (ps : List Attempt)
        → Step
            (record { world = w; attempts = ps })
            (record { world = w; attempts = inspect codec kv name duration node now w ∷ ps })
    finishes :
        (p : Attempt) (w : W) (before behind : List Attempt)
        → Step
            (record { world = w; attempts = before ++ p ∷ behind })
            (record { world = (finish codec kv name duration p w).1; attempts = before ++ behind })

  pub data Run : System → System → Type 0 where
    stay : (s : System) → Run s s
    next : (s t u : System) → Run s t → Step t u → Run s u

  -- The second lease is of the same node, or begins when the first has run out.
  abbrev pub Follows : Bytes → Bytes → Type 0
  Follows a b =
      (i j : LockInfo)
      → codec.deserialize_from a ≡ ok i
      → codec.deserialize_from b ≡ ok j
      → (i.node_id ≡ j.node_id) ⊎ (i.timestamp + duration ≤ j.timestamp)

  -- Every lease of the history follows the one before it.
  abbrev pub Exclusive : List Entry → Type 0
  Exclusive [] = Unit {0}
  Exclusive (e ∷ []) = Unit {0}
  Exclusive (e ∷ f ∷ rest) = Follows f.value e.value × Exclusive (f ∷ rest)

  -- An update that can still succeed follows the newest lease.
  abbrev Safe : List Entry → Attempt → Type 0
  Safe hist (over r) = Unit {0}
  Safe hist (creating bytes) = Unit {0}
  Safe [] (updating bytes rev) = ⊥
  Safe (e ∷ rest) (updating bytes rev) =
      (rev ≤ e.revision) × (rev ≡ e.revision → Follows e.value bytes)

  abbrev Invariant : System → Type 0
  Invariant s = Exclusive (laws.history s.world) × All (Safe (laws.history s.world)) s.attempts

  update-Follows :
      (node now : ℕ) (payload : Bytes) (value : Bytes) (info : LockInfo)
      → codec.serialize (record { node_id = node; timestamp = now }) ≡ ok payload
      → codec.deserialize_from value ≡ ok info
      → held_by_other codec kv name duration node now info ≡ false
      → Follows value payload
  unfolding held_by_other
  update-Follows node now payload value info wrote read free i j hi hj =
      let mine = ok_inj (sym (codec.deserialize-serialize _ payload wrote) ∙ hj) in
      let theirs = ok_inj (sym read ∙ hi) in
      let my_node = ap (λ l. l.node_id) mine in
      let my_time = ap (λ l. l.timestamp) mine in
      let their_node = ap (λ l. l.node_id) theirs in
      let their_time = ap (λ l. l.timestamp) theirs in ground arith

  -- What the read entry allows is still allowed.
  newest-Safe :
      (node now : ℕ) (payload : Bytes) (w : W) (entry : Entry) (rest : List Entry)
      → codec.serialize (record { node_id = node; timestamp = now }) ≡ ok payload
      → laws.history w ≡ entry ∷ rest
      → Safe (laws.history w) (after_get codec kv name duration node now payload (ok entry))
  unfolding after_get after_read
  newest-Safe node now payload w entry rest wrote newest =
      elim (Result-cases (codec.deserialize_from entry.value)) [
        | inr (inl (e, h)) ↦ rw (h, after_get) tt
        | inr (inr (m, h)) ↦ rw (h, after_get) tt
        | inl (info, h) ↦ elim (Bool-cases (held_by_other codec kv name duration node now info)) [
          | inl held ↦ rw (h, after_get, held) tt
          | inr free ↦
              rw (h, after_get, free, newest)
                (omega arith, λ _. update-Follows node now payload entry.value info wrote h free)
        ]
      ]

  after_get-Safe :
      (node now : ℕ) (payload : Bytes) (w : W)
      → codec.serialize (record { node_id = node; timestamp = now }) ≡ ok payload
      → Safe (laws.history w) (after_get codec kv name duration node now payload (kv.get name w))
  unfolding after_get
  after_get-Safe node now payload w wrote = elim (Result-cases (kv.get name w)) [
    | inl (entry, g) ↦
        let (rest, newest) = laws.got w entry g in
        rw g (newest-Safe node now payload w entry rest wrote newest)
    | inr (inr (m, g)) ↦ rw (g, after_get) tt
    | inr (inl (e, g)) ↦ elim (Bool-cases (is_value e key_not_found)) [
      | inl missing ↦ rw (g, after_get, missing) tt
      | inr other ↦ rw (g, after_get, other) tt
    ]
  ]

  inspect-Safe :
      (node now : ℕ) (w : W) → Safe (laws.history w) (inspect codec kv name duration node now w)
  unfolding inspect
  inspect-Safe node now w =
      elim (Result-cases (codec.serialize (record { node_id = node; timestamp = now }))) [
        | inr (inl (e, h)) ↦ rw (h, inspect) tt
        | inr (inr (m, h)) ↦ rw (h, inspect) tt
        | inl (payload, h) ↦ rw (h, inspect) (after_get-Safe node now payload w h)
      ]

  -- A write that the store takes keeps the invariant: the other attempts that read before it can not
  -- succeed any more.
  appended-Safe :
      (value : Bytes) (n rev : ℕ) (e : Entry) (rest : List Entry) (p : Attempt)
      → e.revision ≡ rev
      → rev < n
      → Safe (e ∷ rest) p
      → Safe (record { value = value; revision = n } ∷ e ∷ rest) p
  appended-Safe value n rev e rest (over r) same rises h = tt
  appended-Safe value n rev e rest (creating bytes) same rises h = tt
  appended-Safe value n rev e rest (updating bytes r) same rises h =
      (omega (arith, h.0), λ eq. absurd (omega (arith, h.0)))

  first-Safe : (e : Entry) (p : Attempt) → Safe [] p → Safe (e ∷ []) p
  first-Safe e (over r) h = tt
  first-Safe e (creating bytes) h = tt
  first-Safe e (updating bytes r) h = absurd h

  abbrev Kept : List Entry → W → Type 0
  Kept hist w = Exclusive (laws.history w) × ((p : Attempt) → Safe hist p → Safe (laws.history w) p)

  creating-Kept :
      (w : W) (bytes : Bytes)
      → Exclusive (laws.history w)
      → Kept (laws.history w) (kv.create name bytes w).1
  creating-Kept w bytes ex = elim (laws.created w bytes) [
    | inl (same, _) ↦ rw same (ex, λ p h. h)
    | inr (n, empty, written) ↦ rw (empty, written) (tt, λ p h. first-Safe _ p h)
  ]

  updating-Kept :
      (w : W) (bytes : Bytes) (rev : ℕ)
      → Exclusive (laws.history w)
      → Safe (laws.history w) (updating bytes rev)
      → Kept (laws.history w) (kv.update name bytes rev w).1
  updating-Kept w bytes rev ex safe = elim (laws.updated w bytes rev) [
    | inl (same, _) ↦ rw same (ex, λ p h. h)
    | inr (e, rest, n, before, same, rises, written) ↦
        let fits = rw before at (safe) in
        rw (before, written)
          (
            (fits.1 (sym same), rw before at (ex)),
            λ p h. appended-Safe bytes n rev e rest p same rises h,
          )
  ]

  created-world : (run : Result ℕ × W) → (created codec kv name duration run).1 ≡ run.1
  unfolding created
  created-world (ok rev, w) = elim (Bool-cases (nat_beq rev 0)) [
    | inl e ↦ rw e refl
    | inr e ↦ rw e refl
  ]
  created-world (err e, w) = refl
  created-world (panic m, w) = refl

  updated-world : (run : Result ℕ × W) → (updated codec kv name duration run).1 ≡ run.1
  unfolding updated
  updated-world (ok rev, w) = refl
  updated-world (err e, w) = refl
  updated-world (panic m, w) = refl

  finish-Kept :
      (p : Attempt) (w : W)
      → Exclusive (laws.history w)
      → Safe (laws.history w) p
      → Kept (laws.history w) (finish codec kv name duration p w).1
  unfolding finish
  finish-Kept (over r) w ex safe = (ex, λ p h. h)
  finish-Kept (creating bytes) w ex safe =
      rw (created-world (kv.create name bytes w)) (creating-Kept w bytes ex)
  finish-Kept (updating bytes rev) w ex safe =
      rw (updated-world (kv.update name bytes rev w)) (updating-Kept w bytes rev ex safe)

  without :
      (before behind : List Attempt) (p : Attempt) (hist : List Entry)
      → All (Safe hist) (before ++ p ∷ behind)
      → Safe hist p × All (Safe hist) (before ++ behind)
  without [] behind p hist h = h
  without (q ∷ before) behind p hist h =
      let (mine, others) = without before behind p hist h.1 in (mine, (h.0, others))

  Step-Invariant : (s t : System) → Step s t → Invariant s → Invariant t
  Step-Invariant _ _ (begins node now w ps) inv = (inv.0, (inspect-Safe node now w, inv.1))
  Step-Invariant _ _ (finishes p w before behind) inv =
      let (mine, others) = without before behind p (laws.history w) inv.1 in
      let (ex, kept) = finish-Kept p w inv.0 mine in
      (ex, All-map _ _ (before ++ behind) kept others)

  Run-Invariant : (s t : System) → Run s t → Invariant s → Invariant t
  Run-Invariant _ _ (stay s) inv = inv
  Run-Invariant _ _ (next s t u run step) inv = Step-Invariant t u step (Run-Invariant s t run inv)

  -- From a key-value store that keeps a history of each key, without the key, whatever attempts of
  -- whatever nodes interleave, and whatever writes the store refuses: each lease that is written is
  -- of the node of the one before it, or begins when that one has run out.
  pub leases-Exclusive :
      (w : W) (t : System)
      → laws.history w ≡ []
      → Run (record { world = w; attempts = [] }) t
      → Exclusive (laws.history t.world)
  leases-Exclusive w t empty run = (Run-Invariant _ t run (rw empty tt, tt)).0
