-- ===== src/Stream/Embedded/Single.antt =====
-- The embedded server is started once, and the connection to it comes once it answers.
use marmot.Base.{
  ℕ, zero, suc, ◌<◌, String, ◌≡◌, refl, ap, ◌∙◌, arith, true, false, Option, none, some, inl, inr,
}
use marmot.Base.Errors.{Result, ok, err, panic, Result-cases}
use marmot.Cfg.{Configuration}
use marmot.Stream.Routes.{Net}
use marmot.Stream.Embedded.{
  ServerLibrary, Flags, Options, Connector, returns, again, start_embedded_server, cluster_options,
  with_leaves, with_file, with_routes, with_store_dir, after_leaves, launch, keep_server,
  wait_ready, connect_loop, after_connect, after_ready, prepare_connection,
}

module _ {W S : Type 0} (library : ServerLibrary W S) where
  -- What is kept is the server that is returned.
  abbrev Kept : Option (Result S × (Option S × W)) → Type 0
  Kept o = (s : S) (server : Option S) (v : W) → o ≡ some (ok s, (server, v)) → server ≡ some s

  keep_server-Kept : (x : Result S × W) → Kept (some (keep_server library x))
  unfolding keep_server
  keep_server-Kept (ok t, w) s server v e = cc
  keep_server-Kept (err x, w) s server v e = cc
  keep_server-Kept (panic m, w) s server v e = cc

  launch-Kept :
      (flags : Flags) (name : String) (o : Option (Options × W))
      → Kept (launch library flags name o)
  unfolding launch
  launch-Kept flags name none s server v e = cc
  launch-Kept flags name (some (opts, w)) s server v e =
      keep_server-Kept (library.new_server (with_store_dir library flags name opts) w) s server v e

  after_leaves-Kept :
      (c : Configuration) (net : Net W) (rounds : ℕ) (flags : Flags) (name : String)
      (o : Option (Options × W))
      → Kept (after_leaves library c net rounds flags name o)
  unfolding after_leaves
  after_leaves-Kept c net rounds flags name none s server v e = cc
  after_leaves-Kept c net rounds flags name (some (opts, w)) s server v e =
      elim (Result-cases (with_file library c opts)) [
        | inl (opts', file) ↦
            launch-Kept flags name (with_routes library net rounds opts' w) s server v
              (rw (file, after_leaves) at (e))
        | inr (inl (x, file)) ↦ let h = rw (file, after_leaves) at (e) in cc
        | inr (inr (m, file)) ↦ let h = rw (file, after_leaves) at (e) in cc
      ]

  start-Kept :
      (c : Configuration) (net : Net W) (rounds : ℕ) (flags : Flags) (name : String) (w : W)
      → Kept (start_embedded_server library c net rounds flags name (none, w))
  unfolding start_embedded_server
  start-Kept c net rounds flags name w s server v e =
      elim (Result-cases (cluster_options library c flags name)) [
        | inl (opts, made) ↦
            after_leaves-Kept c net rounds flags name (with_leaves library net rounds flags opts w)
              s server v (rw (made, start_embedded_server) at (e))
        | inr (inl (x, made)) ↦ let h = rw (made, start_embedded_server) at (e) in cc
        | inr (inr (m, made)) ↦ let h = rw (made, start_embedded_server) at (e) in cc
      ]

  -- A server that was started is returned again, and no other is started.
  start_embedded_server-once :
      (c : Configuration) (net : Net W) (rounds : ℕ) (flags : Flags) (name : String) (w : W) (s : S)
      (server : Option S) (v x : W)
      → start_embedded_server library c net rounds flags name (none, w) ≡ some (ok s, (server, v))
      → start_embedded_server library c net rounds flags name (server, x) ≡ some (ok s, (some s, x))
  unfolding start_embedded_server
  start_embedded_server-once c net rounds flags name w s server v x e =
      ap (λ (o : Option S). start_embedded_server library c net rounds flags name (o, x))
        (start-Kept c net rounds flags name w s server v e)
      ∙ running
    where
      running :
          start_embedded_server library c net rounds flags name (some s, x)
          ≡ some (ok s, (some s, x))
      running = refl

module _ {W C : Type 0} (connector : Connector W C) where
  -- The server is polled so many times before it is ready.
  pub data BecomesReady : ℕ → W → W → Type 0 where
    ready : (w v : W) → connector.is_ready w ≡ (true, v) → BecomesReady 0 w v
    not_ready :
        (n : ℕ) (w x v : W)
        → connector.is_ready w ≡ (false, x)
        → BecomesReady n x v
        → BecomesReady (suc n) w v

  -- So many rounds are tried again, and then one returns.
  pub data Accepts : ℕ → W → Result C → W → Type 0 where
    accepted :
        (w : W) (r : Result C) (v : W)
        → after_connect connector (connector.connect w) ≡ returns r v
        → Accepts 0 w r v
    retried :
        (n : ℕ) (w x : W) (r : Result C) (v : W)
        → after_connect connector (connector.connect w) ≡ again x
        → Accepts n x r v
        → Accepts (suc n) w r v

  wait_ready-ends :
      (rounds n : ℕ) (w v : W)
      → BecomesReady n w v
      → n < rounds
      → wait_ready connector rounds w ≡ some v
  unfolding wait_ready
  wait_ready-ends zero n w v becomes more = absurd (omega arith)
  wait_ready-ends (suc k) _ _ _ (ready w v e) more = ground (arith, e)
  wait_ready-ends (suc k) _ _ _ (not_ready n w x v e becomes) more =
      ground (arith, e, wait_ready-ends k n x v becomes (omega arith))

  connect_loop-ends :
      (rounds n : ℕ) (w : W) (r : Result C) (v : W)
      → Accepts n w r v
      → n < rounds
      → connect_loop connector rounds w ≡ some (r, v)
  unfolding connect_loop
  connect_loop-ends zero n w r v accepts more = absurd (omega arith)
  connect_loop-ends (suc k) _ _ _ _ (accepted w r v e) more = ground (arith, e)
  connect_loop-ends (suc k) _ _ _ _ (retried n w x r v e accepts) more =
      ground (arith, e, connect_loop-ends k n x r v accepts (omega arith))

  -- The connection comes once the server is ready and a round returns.
  prepare_connection-ends :
      (rounds n m : ℕ) (w x : W) (r : Result C) (v : W)
      → BecomesReady n w x
      → Accepts m x r v
      → n < rounds
      → m < rounds
      → prepare_connection connector rounds w ≡ some (r, v)
  unfolding prepare_connection after_ready
  prepare_connection-ends rounds n m w x r v becomes accepts more more' =
      ap (after_ready connector rounds) (wait_ready-ends rounds n w x becomes more)
      ∙ connect_loop-ends rounds m x r v accepts more'
