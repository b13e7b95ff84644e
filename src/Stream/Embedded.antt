-- ===== src/Stream/Embedded.antt =====
-- stream/embedded_nats.go: the server that runs inside the program. The server's library is a parameter,
-- and so are the functions of `net` and the texts of the command line.
pub mod Single
use Prim.Native.String.{◌++◌ as ◌+++◌}
use text.Mathlib.Text.{◌==◌}
use marmot.Base.{
  ℕ, zero, suc, String, Bool, true, false, Option, none, some, List, [], ◌∷◌, if◌then◌else◌,
}
use marmot.Base.Atoi.{atoi}
use marmot.Base.Int.{ℤ, pos}
use marmot.Base.Paths.{join}
use marmot.Base.Errors.{Error, Result, ok, err, panic, library, is_value, stream_not_found, ◌>>=◌}
use marmot.Base.Act.{Act}
use marmot.Cfg.{Configuration, embedded_cluster_name}
use marmot.Stream.Routes.{Url, Net, RemoteLeafOpts, flatten_routes, parse_remote_leaf_opts}

-- `server.Options`, in the fields that the program sets; the limits of JetStream are fixed.
pub record Options : Type 0 where
  pub server_name : String
  pub host : String
  pub port : ℤ
  pub cluster_name : String
  pub cluster_listen : String
  pub cluster_host : String
  pub cluster_port : ℤ
  pub routes : List Url
  pub leaf_remotes : List RemoteLeafOpts
  pub store_dir : String

-- The flags of the command line, and the directory of the data.
pub record Flags : Type 0 where
  pub cluster_peers : String
  pub cluster_addr : String
  pub leaf_server : String
  pub data_root_dir : String

-- `net.SplitHostPort`, `RoutesFromStr`, `ProcessConfigFile`, and the start of a server.
pub record ServerLibrary (W S : Type 0) : Type 0 where
  pub split_host_port : String → Result (String × String)
  pub routes_from_str : String → List Url
  pub process_config_file : String → Options → Result Options
  pub new_server : Options → Act W S

module _ {W S : Type 0} (library : ServerLibrary W S) where
  as_port : String → Option ℤ → Result (String × ℤ)
  as_port host none = err (Error.library "invalid syntax")
  as_port host (some port) = ok (host, port)

  unfoldable pub parse_host_and_port : String → Result (String × ℤ)
  unfolding as_port
  parse_host_and_port adr = library.split_host_port adr >>= λ parts. as_port parts.0 (atoi parts.1)

  abbrev initial_options : String → String × ℤ → Options
  initial_options node_name (host, port) = record {
    server_name = node_name;
    host = host;
    port = port;
    cluster_name = embedded_cluster_name;
    cluster_listen = "";
    cluster_host = "";
    cluster_port = pos 0;
    routes = [];
    leaf_remotes = [];
    store_dir = "";
  }

  with_peers : Flags → Options → Options
  with_peers flags opts =
      if flags.cluster_peers == ""
      then opts
      else record opts { routes = library.routes_from_str flags.cluster_peers }

  listening : String → Options → String × ℤ → Options
  listening adr opts (host, port) = record opts {
    cluster_listen = adr;
    cluster_host = host;
    cluster_port = port;
  }

  with_cluster : Flags → Options → Result Options
  unfolding listening parse_host_and_port
  with_cluster flags opts =
      if flags.cluster_addr == ""
      then ok opts
      else (parse_host_and_port flags.cluster_addr >>= λ parts.
          ok (listening flags.cluster_addr opts parts))

  with_file : Configuration → Options → Result Options
  with_file c opts =
      if c.nats.server_config_file == ""
      then ok opts
      else library.process_config_file c.nats.server_config_file opts

  with_store_dir : Flags → String → Options → Options
  with_store_dir flags node_name opts =
      if opts.store_dir == ""
      then record opts { store_dir = join (flags.data_root_dir ∷ "nats" ∷ node_name ∷ []) }
      else opts

  -- A value that is found on so many rounds, or none when more are wanted.
  abbrev Found : Type 0 → Type 0
  Found A = Option (A × W)

  with_leaves : Net W → ℕ → Flags → Options → W → Found Options
  with_leaves net rounds flags opts w =
      if flags.leaf_server == ""
      then some (opts, w)
      else elim (parse_remote_leaf_opts net rounds (library.routes_from_str flags.leaf_server) w) [
        | none ↦ none
        | some (remotes, v) ↦ some (record opts { leaf_remotes = remotes }, v)
      ]

  with_routes : Net W → ℕ → Options → W → Found Options
  with_routes net rounds opts w = elim (flatten_routes net rounds opts.routes true w) [
    | none ↦ none
    | some (routes, v) ↦ some (record opts { routes = routes }, v)
  ]

  keep_server : Result S × W → Result S × (Option S × W)
  keep_server (ok s, w) = (ok s, (some s, w))
  keep_server (err e, w) = (err e, (none, w))
  keep_server (panic m, w) = (panic m, (none, w))

  launch : Flags → String → Found Options → Option (Result S × (Option S × W))
  unfolding keep_server with_store_dir
  launch flags node_name none = none
  launch flags node_name (some (opts, w)) =
      some (keep_server (library.new_server (with_store_dir flags node_name opts) w))

  -- After the leaf servers: the configuration file, the routes, and the server.
  after_leaves :
      Configuration
      → Net W
      → ℕ
      → Flags
      → String
      → Found Options
      → Option (Result S × (Option S × W))
  unfolding with_file with_routes launch
  after_leaves c net rounds flags node_name none = none
  after_leaves c net rounds flags node_name (some (opts, w)) = elim (with_file c opts) [
    | err e ↦ some (err e, (none, w))
    | panic m ↦ some (panic m, (none, w))
    | ok opts' ↦ launch flags node_name (with_routes net rounds opts' w)
  ]

  cluster_options : Configuration → Flags → String → Result Options
  unfolding with_cluster with_peers parse_host_and_port
  cluster_options c flags node_name = parse_host_and_port c.nats.bind_address >>= λ parts.
      with_cluster flags (with_peers flags (initial_options node_name parts))

  -- `startEmbeddedServer`, with the server that runs already, if one does.
  unfoldable pub start_embedded_server :
      Configuration → Net W → ℕ → Flags → String → Option S × W → Option (Result S × (Option S × W))
  unfolding cluster_options with_leaves after_leaves
  start_embedded_server c net rounds flags node_name (some s, w) = some (ok s, (some s, w))
  start_embedded_server c net rounds flags node_name (none, w) =
      elim (cluster_options c flags node_name) [
        | err e ↦ some (err e, (none, w))
        | panic m ↦ some (panic m, (none, w))
        | ok opts ↦ after_leaves c net rounds flags node_name (with_leaves net rounds flags opts w)
      ]

-- The client that connects in the process. `stream_info` asks for a stream that no one makes, to see
-- whether JetStream answers.
pub record Connector (W C : Type 0) : Type 0 where
  pub is_ready : W → Bool × W
  pub connect : Act W C
  pub jet_stream : C → Act W (Unit {0})
  pub stream_info : C → Act W (Unit {0})
  pub close : C → W → W

module _ {W C : Type 0} (connector : Connector W C) where
  -- The loop that waits for the server; none when it would go on.
  unfoldable pub wait_ready : ℕ → W → Option W
  wait_ready zero w = none
  wait_ready (suc rounds) w =
      let (ready, w') = connector.is_ready w in
      let rest = wait_ready rounds w' in if ready then some w' else rest

  answers : Result (Unit {0}) → Bool
  answers (ok info) = true
  answers (err e) = is_value e stream_not_found
  answers (panic m) = false

  -- The end of one round, if it is the last.
  pub data Round : Type 0 where
    returns : Result C → W → Round
    again : W → Round

  after_info : C → Result (Unit {0}) × W → Round
  unfolding answers
  after_info c (r, w) = if answers r then returns (ok c) w else again (connector.close c w)

  after_jet_stream : C → Result (Unit {0}) × W → Round
  unfolding after_info
  after_jet_stream c (ok _, w) = after_info c (connector.stream_info c w)
  after_jet_stream c (err e, w) = returns (err e) w
  after_jet_stream c (panic m, w) = returns (panic m) w

  pub after_connect : Result C × W → Round
  unfolding after_jet_stream
  after_connect (ok c, w) = after_jet_stream c (connector.jet_stream c w)
  after_connect (err e, w) = again w
  after_connect (panic m, w) = returns (panic m) w

  unfoldable pub connect_loop : ℕ → W → Option (Result C × W)
  unfolding after_connect
  connect_loop zero w = none
  connect_loop (suc rounds) w = elim (after_connect (connector.connect w)) [
    | returns r v ↦ some (r, v)
    | again v ↦ connect_loop rounds v
  ]

  after_ready : ℕ → Option W → Option (Result C × W)
  unfolding connect_loop
  after_ready rounds none = none
  after_ready rounds (some w) = connect_loop rounds w

  -- `prepareConnection`, each of whose two loops has so many rounds.
  unfoldable pub prepare_connection : ℕ → W → Option (Result C × W)
  unfolding after_ready wait_ready
  prepare_connection rounds w = after_ready rounds (wait_ready rounds w)
