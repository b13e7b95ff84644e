-- ===== src/Stream/Connect.antt =====
-- stream/nats.go: `Connect`. The client library is a parameter: an option is what it is made from.
pub mod First
use Prim.Native.String.{◌++◌ as ◌+++◌}
use text.Mathlib.Text.{◌==◌}
use marmot.Base.{
  ℕ, zero, suc, ◌*◌, String, Bool, true, false, ◌&&◌, ◌||◌, not, Option, none, some, List, [], ◌∷◌,
  ◌++◌, if◌then◌else◌,
}
use marmot.Base.Int.{ℤ, pos, negsuc}
use marmot.Base.Errors.{Error, Result, ok, err, panic, ◌>>=◌}
use marmot.Base.Act.{Act}
use marmot.Cfg.{Configuration, node_name}

-- `nats.Option`; the handlers that only log are left out.
pub data ConnOption : Type 0 where
  name : String → ConnOption
  retry_on_failed_connect : Bool → ConnOption
  reconnect_wait : ℤ → ConnOption
  max_reconnects : ℤ → ConnOption
  user_info : String → String → ConnOption
  nkey : String → ConnOption
  root_cas : String → ConnOption
  client_cert : String → String → ConnOption

-- `NkeyOptionFromSeed` reads a file. `status` is that of a connection that may be nil, and may panic;
-- `connect_embedded` is the start of the embedded server and the connection to it.
pub record Client (W C : Type 0) : Type 0 where
  pub nkey_option_from_seed : String → Result ConnOption
  pub connect : String → List ConnOption → Act W C
  pub is_connected : Option C → W → Result Bool
  pub connect_embedded : String → List ConnOption → Act W C

unfoldable pub setup_conn_options : Configuration → List ConnOption
setup_conn_options c =
    name (node_name c)
    ∷ retry_on_failed_connect true
    ∷ reconnect_wait c.nats.reconnect_wait_seconds
    ∷ max_reconnects c.nats.connect_retries
    ∷ []

unfoldable pub get_nats_tls_from_config : Configuration → List ConnOption
get_nats_tls_from_config c =
    (if c.nats.ca_file == "" then [] else root_cas c.nats.ca_file ∷ [])
    ++ (if c.nats.cert_file == "" || c.nats.key_file == ""
        then []
        else client_cert c.nats.cert_file c.nats.key_file ∷ [])

-- `strings.Join(urls, ", ")`
unfoldable pub join_urls : List String → String
join_urls [] = ""
join_urls (u ∷ []) = u
join_urls (u ∷ v ∷ urls) = u +++ (", " +++ join_urls (v ∷ urls))

abbrev pub retries : ℤ → ℕ
retries (pos n) = n
retries (negsuc n) = 0

module _ {W C : Type 0} (client : Client W C) where
  seed_option : Configuration → Result (List ConnOption)
  seed_option c =
      if c.nats.seed_file == ""
      then ok []
      else (client.nkey_option_from_seed c.nats.seed_file >>= λ opt. ok (opt ∷ []))

  unfoldable pub get_nats_auth_from_config : Configuration → Result (List ConnOption)
  unfolding seed_option
  get_nats_auth_from_config c = seed_option c >>= λ seed. ok (
      (if c.nats.creds_user == ""
        then []
        else user_info c.nats.creds_user c.nats.creds_password ∷ [])
      ++ seed)

  -- The variables `conn` and `err`: a connection that may be nil, where there is no error.
  abbrev Returned : Type 0
  Returned = Result (Option C)

  -- The status is read to leave the loop, and again for the log.
  after_connected : C → Returned × W → W → Result Bool → Returned × W
  after_connected c rest w (ok connected) = if connected then (ok (some c), w) else rest
  after_connected c rest w (err e) = (err e, w)
  after_connected c rest w (panic m) = (panic m, w)

  -- After an error the status of the nil connection is read for the log.
  after_failed : Returned × W → W → Result Bool → Returned × W
  after_failed rest w (ok connected) = rest
  after_failed rest w (err e) = (err e, w)
  after_failed rest w (panic m) = (panic m, w)

  after_attempt : (Returned → W → Returned × W) → Result C × W → Returned × W
  unfolding after_connected after_failed
  after_attempt rest (ok c, w) =
      after_connected c (rest (ok (some c)) w) w (client.is_connected (some c) w)
  after_attempt rest (err e, w) = after_failed (rest (err e) w) w (client.is_connected none w)
  after_attempt rest (panic m, w) = (panic m, w)

  -- The loop of `Connect`, with the attempts that are left, and what the last one gave.
  unfoldable pub connect_loop : ℕ → String → List ConnOption → Returned → W → Returned × W
  unfolding after_attempt
  connect_loop zero url opts last w = (last, w)
  connect_loop (suc attempts) url opts last w =
      after_attempt (connect_loop attempts url opts) (client.connect url opts w)

  as_optional : Result C × W → Returned × W
  as_optional (ok c, w) = (ok (some c), w)
  as_optional (err e, w) = (err e, w)
  as_optional (panic m, w) = (panic m, w)

  connect_with : Configuration → List String → List ConnOption → W → Returned × W
  unfolding as_optional connect_loop join_urls
  connect_with c [] opts w = as_optional (client.connect_embedded (node_name c) opts w)
  connect_with c (u ∷ urls) opts w =
      connect_loop (retries c.nats.connect_retries) (join_urls (u ∷ urls)) opts (ok none) w

  -- `Connect`
  unfoldable pub connect : Configuration → W → Returned × W
  unfolding connect_with setup_conn_options get_nats_tls_from_config get_nats_auth_from_config
  connect c w = elim (get_nats_auth_from_config c) [
    | err e ↦ (err e, w)
    | panic m ↦ (panic m, w)
    | ok creds ↦
        connect_with c c.nats.urls (setup_conn_options c ++ (creds ++ get_nats_tls_from_config c)) w
  ]
