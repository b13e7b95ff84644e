-- ===== src/Stream/Connect/First.antt =====
-- Which connection `Connect` of stream/nats.go returns.
use marmot.Base.{
  ℕ, zero, suc, ◌<◌, String, ◌≡◌, arith, true, false, Option, none, some, List, ◌∷◌, ◌++◌,
}
use marmot.Base.Int.{pos}
use marmot.Base.Errors.{Error, Result, ok, err, panic}
use marmot.Cfg.{Configuration}
use marmot.Stream.Connect.{
  Client, ConnOption, retries, join_urls, setup_conn_options, get_nats_auth_from_config,
  get_nats_tls_from_config, connect_loop, connect_with, connect, after_attempt, after_connected,
  after_failed,
}

module _ {W C : Type 0} (client : Client W C) where
  -- So many attempts give a connection that is not connected, and the next one this
  -- connection, which is connected.
  pub data Connects (url : String) (opts : List ConnOption) : ℕ → W → C → W → Type 0 where
    connected :
        (w : W) (c : C) (v : W)
        → client.connect url opts w ≡ (ok c, v)
        → client.is_connected (some c) v ≡ ok true
        → Connects url opts 0 w c v
    not_yet :
        (n : ℕ) (w : W) (d : C) (x : W) (c : C) (v : W)
        → client.connect url opts w ≡ (ok d, x)
        → client.is_connected (some d) x ≡ ok false
        → Connects url opts n x c v
        → Connects url opts (suc n) w c v

  connect_loop-first :
      (attempts n : ℕ) (url : String) (opts : List ConnOption) (last : Result (Option C)) (w : W)
      (c : C) (v : W)
      → Connects url opts n w c v
      → n < attempts
      → connect_loop client attempts url opts last w ≡ (ok (some c), v)
  unfolding connect_loop after_attempt after_connected
  connect_loop-first zero n url opts last w c v connects more = absurd (omega arith)
  connect_loop-first (suc k) _ url opts last _ _ _ (connected w c v e up) more =
      ground (arith, e, up)
  connect_loop-first (suc k) _ url opts last _ _ _ (not_yet n w d x c v e down connects) more =
      ground
        (arith, e, down, connect_loop-first k n url opts (ok (some d)) x c v connects (omega arith))

  -- What `Connect` sets, without a seed file that fails.
  abbrev pub options_of : Configuration → List ConnOption → List ConnOption
  options_of c creds = setup_conn_options c ++ (creds ++ get_nats_tls_from_config c)

  -- The first connection that is connected within the attempts is returned.
  connect-first :
      (config : Configuration) (u : String) (urls : List String) (creds : List ConnOption) (n : ℕ)
      (w : W) (c : C) (v : W)
      → config.nats.urls ≡ u ∷ urls
      → get_nats_auth_from_config client config ≡ ok creds
      → Connects (join_urls (u ∷ urls)) (options_of config creds) n w c v
      → n < retries config.nats.connect_retries
      → connect client config w ≡ (ok (some c), v)
  unfolding connect connect_with
  connect-first config u urls creds n w c v e auth connects more =
      let opts = options_of config creds in
      let loop =
        connect_loop-first (retries config.nats.connect_retries) n (join_urls (u ∷ urls)) opts
          (ok none) w c v connects more in
      ground (arith, e, auth, loop)

  -- If the status of a nil connection panics, so does a Connect whose first attempt fails.
  connect-panics :
      (config : Configuration) (u : String) (urls : List String) (creds : List ConnOption) (k : ℕ)
      (w v : W) (e : Error) (m : String)
      → config.nats.urls ≡ u ∷ urls
      → config.nats.connect_retries ≡ pos (suc k)
      → get_nats_auth_from_config client config ≡ ok creds
      → client.connect (join_urls (u ∷ urls)) (options_of config creds) w ≡ (err e, v)
      → client.is_connected none v ≡ panic m
      → connect client config w ≡ (panic m, v)
  unfolding connect connect_with connect_loop after_attempt after_failed
  connect-panics config u urls creds k w v e m some_urls attempts auth refused nil =
      ground (arith, some_urls, attempts, auth, refused, nil)
