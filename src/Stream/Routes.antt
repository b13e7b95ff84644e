-- ===== src/Stream/Routes.antt =====
-- stream/routes_discover.go: routes that name DNS entries are replaced by the addresses behind them. A
-- lookup acts on the world `W`; the log and the waits between two lookups are left out.
pub mod Discovered
use Prim.Native.String.{◌++◌ as ◌+++◌}
use text.Mathlib.Text.{◌==◌}
use marmot.Base.{
  ℕ, zero, suc, String, Bool, true, false, Option, none, some, List, [], ◌∷◌, ◌++◌, length, leb,
  map, if◌then◌else◌,
}
use marmot.Base.Atoi.{atoi}
use marmot.Base.Int.{ℤ, pos, negsuc}
use marmot.Base.Errors.{Error, Result, ok, err, panic}
use marmot.Base.Act.{Act, pure, ◌>>=◌}

pub record Url : Type 0 where
  pub scheme : String
  pub hostname : String
  pub port : String
  pub query : List (String × String)

-- `Query().Get`
unfoldable pub query_value : String → List (String × String) → String
query_value key [] = ""
query_value key ((k, v) ∷ values) = if k == key then v else query_value key values

-- An address as `To4` and `To16` read it.
pub data Ip : Type 0 where
  v4 v6 : String → Ip
  other : Ip

-- `net.LookupIP`, and `url.Parse`.
pub record Net (W : Type 0) : Type 0 where
  pub lookup_ip : String → Act W (List Ip)
  pub parse : String → Option Url

abbrev v4_of : List Ip → List String
v4_of [] = []
v4_of (v4 s ∷ ips) = s ∷ v4_of ips
v4_of (_ ∷ ips) = v4_of ips

abbrev v6_of : List Ip → List String
v6_of [] = []
v6_of (v6 s ∷ ips) = s ∷ v6_of ips
v6_of (_ ∷ ips) = v6_of ips

module _ {W : Type 0} (net : Net W) where
  query_dns : String → Act W (List String × List String)
  query_dns domain = net.lookup_ip domain >>= λ ips. pure (v4_of ips, v6_of ips)

  add_parsed : Option Url → List Url → List Url
  add_parsed none peers = peers
  add_parsed (some u) peers = u ∷ peers

  -- The addresses between the two texts; one that does not parse is left out.
  peers_of : String → String → List String → List Url
  unfolding add_parsed
  peers_of before after [] = []
  peers_of before after (ip ∷ ips) =
      add_parsed (net.parse (before +++ (ip +++ after))) (peers_of before after ips)

  direct_peers : Url → List String × List String → List Url
  unfolding peers_of
  direct_peers u (four, six) =
      peers_of "nats://" (":" +++ (u.port +++ "/")) four
      ++ peers_of "nats://[" ("]:" +++ (u.port +++ "/")) six

  unfoldable pub get_direct_nats_addresses : Url → Act W (List Url)
  unfolding query_dns direct_peers
  get_direct_nats_addresses u = query_dns u.hostname >>= λ ips. pure (direct_peers u ips)

  default_peers : Option ℤ → ℤ
  default_peers none = pos 2
  default_peers (some n) = n

  -- How many peers are waited for.
  unfoldable pub min_peers : Url → Bool → ℤ
  unfolding default_peers
  min_peers u wait_dns_entries =
      if wait_dns_entries then pos 0 else default_peers (atoi (query_value "min" u.query))

  unfoldable pub enough : ℤ → List Url → Bool
  enough (pos n) peers = leb n (length peers)
  enough (negsuc n) peers = true

  unfoldable pub after_query : ℤ → Result (List Url) → Option (List Url)
  unfolding enough
  after_query least (ok peers) = if enough least peers then some peers else none
  after_query least (err e) = none
  after_query least (panic m) = none

  -- The loop of `queryDNSRoutes`, on so many rounds; none when it would go on. The value of
  -- `interval_ms` is how long it sleeps between two.
  unfoldable pub discover : ℕ → ℤ → Url → W → Option (List Url × W)
  unfolding after_query
  discover zero least u w = none
  discover (suc rounds) least u w =
      let (r, w') = get_direct_nats_addresses u w in
      let rest = discover rounds least u w' in
      elim (after_query least r) [ some peers ↦ some (peers, w') | none ↦ rest ]

  unfoldable pub query_dns_routes : ℕ → Url → Bool → W → Option (List Url × W)
  unfolding discover min_peers
  query_dns_routes rounds u wait_dns_entries w = discover rounds (min_peers u wait_dns_entries) u w

  abbrev prepend : List Url → Option (List Url × W) → Option (List Url × W)
  prepend peers none = none
  prepend peers (some (urls, w)) = some (peers ++ urls, w)

  -- `flattenRoutes`, each of whose queries has so many rounds.
  unfoldable pub flatten_routes : ℕ → List Url → Bool → W → Option (List Url × W)
  unfolding query_dns_routes
  flatten_routes rounds [] wait_dns_entries w = some ([], w)
  flatten_routes rounds (u ∷ urls) wait_dns_entries w =
      if u.scheme == "dns"
      then elim (query_dns_routes rounds u wait_dns_entries w) [
        | none ↦ none
        | some (peers, w') ↦ prepend peers (flatten_routes rounds urls wait_dns_entries w')
      ]
      else prepend (u ∷ []) (flatten_routes rounds urls wait_dns_entries w)

-- `server.RemoteLeafOpts`
pub record RemoteLeafOpts : Type 0 where
  pub urls : List Url
  pub hub : Bool

abbrev pub remote_leaf : Url → RemoteLeafOpts
remote_leaf u = record { urls = u ∷ []; hub = query_value "hub" u.query == "true" }

abbrev with_leaves : {W : Type 0} → Option (List Url × W) → Option (List RemoteLeafOpts × W)
with_leaves none = none
with_leaves (some (urls, w)) = some (map remote_leaf urls, w)

-- `parseRemoteLeafOpts`, with the routes of the flag. Without a route nothing is queried.
unfoldable pub parse_remote_leaf_opts :
    {W : Type 0} → Net W → ℕ → List Url → W → Option (List RemoteLeafOpts × W)
unfolding flatten_routes
parse_remote_leaf_opts net rounds leaf_servers w =
    with_leaves (flatten_routes net rounds leaf_servers true w)
