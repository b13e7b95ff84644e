-- ===== src/Stream/Routes/Discovered.antt =====
-- What the discovery of routes finds, and that it ends.
use Prim.Native.String.{◌++◌ as ◌+++◌}
use text.Mathlib.Text.{◌==◌}
use text.Mathlib.TextLemmas.{append_assoc}
use marmot.Base.{
  ℕ, zero, suc, ◌<◌, String, ◌≡◌, refl, subst, arith, Bool, true, false, Option, none, some, List,
  [], ◌∷◌, ◌++◌, All, All-append,
}
use marmot.Base.Int.{ℤ}
use marmot.Base.Errors.{Result, ok, err, panic}
use marmot.Base.Act.{pure, ◌>>=◌}
use marmot.Stream.Routes.{
  Url, Net, get_direct_nats_addresses, query_dns, direct_peers, peers_of, add_parsed, min_peers,
  enough, after_query, discover, query_dns_routes, flatten_routes,
}

module _ {W : Type 0} (net : Net W) where
  -- So many queries fail or find too few peers, and the next one finds these.
  pub data Finds (least : ℤ) (u : Url) : ℕ → W → List Url → W → Type 0 where
    found :
        (w : W) (peers : List Url) (v : W)
        → get_direct_nats_addresses net u w ≡ (ok peers, v)
        → enough net least peers ≡ true
        → Finds least u 0 w peers v
    missed :
        (n : ℕ) (w : W) (r : Result (List Url)) (x : W) (peers : List Url) (v : W)
        → get_direct_nats_addresses net u w ≡ (r, x)
        → after_query net least r ≡ none
        → Finds least u n x peers v
        → Finds least u (suc n) w peers v

  discover-ends :
      (rounds n : ℕ) (least : ℤ) (u : Url) (w : W) (peers : List Url) (v : W)
      → Finds least u n w peers v
      → n < rounds
      → discover net rounds least u w ≡ some (peers, v)
  unfolding discover after_query
  discover-ends zero n least u w peers v finds more = absurd (omega arith)
  discover-ends (suc rounds) n least u _ _ _ (found w peers v e many) more = ground (arith, e, many)
  discover-ends (suc rounds) _ least u _ _ _ (missed n w r x peers v e few finds) more =
      ground (arith, e, few, discover-ends rounds n least u x peers v finds (omega arith))

  -- The query ends with the first answer that has enough peers.
  query_dns_routes-ends :
      (rounds n : ℕ) (u : Url) (wait_dns_entries : Bool) (w : W) (peers : List Url) (v : W)
      → Finds (min_peers net u wait_dns_entries) u n w peers v
      → n < rounds
      → query_dns_routes net rounds u wait_dns_entries w ≡ some (peers, v)
  unfolding query_dns_routes
  query_dns_routes-ends rounds n u wait_dns_entries w peers v =
      discover-ends rounds n (min_peers net u wait_dns_entries) u w peers v

  -- When it is to wait for entries, it takes the first answer, whatever the minimum.
  query_dns_routes-no_wait :
      (rounds : ℕ) (u : Url) (w : W) (peers : List Url) (v : W)
      → get_direct_nats_addresses net u w ≡ (ok peers, v)
      → query_dns_routes net (suc rounds) u true w ≡ some (peers, v)
  unfolding query_dns_routes discover after_query enough min_peers
  query_dns_routes-no_wait rounds u w peers v e = ground (arith, e)

abbrev pub NoDns : Url → Type 0
NoDns u = (u.scheme == "dns") ≡ false

module _ {W : Type 0} (net : Net W) where
  -- `url.Parse` keeps the scheme of the text.
  abbrev pub ParsesNats : Type 0
  ParsesNats = (rest : String) (u : Url) → net.parse ("nats://" +++ rest) ≡ some u → NoDns u

  -- Each query that is made for the addresses, one after the other, finds enough peers within the
  -- rounds.
  pub data Answers (rounds : ℕ) (wait : Bool) : List Url → W → Type 0 where
    no_more : (w : W) → Answers rounds wait [] w
    direct :
        (u : Url) (urls : List Url) (w : W)
        → NoDns u
        → Answers rounds wait urls w
        → Answers rounds wait (u ∷ urls) w
    queried :
        (u : Url) (urls : List Url) (n : ℕ) (w : W) (peers : List Url) (v : W)
        → (u.scheme == "dns") ≡ true
        → Finds net (min_peers net u wait) u n w peers v
        → n < rounds
        → Answers rounds wait urls v
        → Answers rounds wait (u ∷ urls) w

  add_parsed-NoDns :
      (o : Option Url) (peers : List Url)
      → ((u : Url) → o ≡ some u → NoDns u)
      → All NoDns peers
      → All NoDns (add_parsed net o peers)
  unfolding add_parsed
  add_parsed-NoDns none peers parses h = h
  add_parsed-NoDns (some u) peers parses h = (parses u refl, h)

  peers_of-NoDns :
      (before after : String) (ips : List String)
      → ((rest : String) (u : Url) → net.parse (before +++ rest) ≡ some u → NoDns u)
      → All NoDns (peers_of net before after ips)
  unfolding peers_of
  peers_of-NoDns before after [] parses = tt
  peers_of-NoDns before after (ip ∷ ips) parses =
      add_parsed-NoDns (net.parse (before +++ (ip +++ after))) (peers_of net before after ips)
        (parses (ip +++ after)) (peers_of-NoDns before after ips parses)

  direct_peers-NoDns :
      ParsesNats → (u : Url) (four six : List String) → All NoDns (direct_peers net u (four, six))
  unfolding direct_peers
  direct_peers-NoDns parses u four six =
      All-append NoDns (peers_of net "nats://" (":" +++ (u.port +++ "/")) four)
        (peers_of net "nats://[" ("]:" +++ (u.port +++ "/")) six)
        (peers_of-NoDns "nats://" (":" +++ (u.port +++ "/")) four parses)
        (peers_of-NoDns "nats://[" ("]:" +++ (u.port +++ "/")) six
          (λ rest v e. parses ("[" +++ rest) v (rw (← append_assoc "nats://" "[" rest) e)))

  got-NoDns :
      ParsesNats
      → (u : Url) (x : Result (List String × List String) × W) (w : W) (peers : List Url) (v : W)
      → ((λ (_ : W). x) >>= λ ips. pure (direct_peers net u ips)) w ≡ (ok peers, v)
      → All NoDns peers
  got-NoDns parses u (ok (four, six), y) w peers v e =
      let same : direct_peers net u (four, six) ≡ peers = cc in
      subst (All NoDns) same (direct_peers-NoDns parses u four six)
  got-NoDns parses u (err x, y) w peers v e = cc
  got-NoDns parses u (panic m, y) w peers v e = cc

  found-NoDns :
      ParsesNats
      → (least : ℤ) (u : Url) (n : ℕ) (w : W) (peers : List Url) (v : W)
      → Finds net least u n w peers v
      → All NoDns peers
  unfolding get_direct_nats_addresses
  found-NoDns parses least u _ _ _ _ (found w peers v e many) =
      got-NoDns parses u (query_dns net u.hostname w) w peers v e
  found-NoDns parses least u _ _ _ _ (missed n w r x peers v e few finds) =
      found-NoDns parses least u n x peers v finds

  -- With a parser that keeps the scheme of an address, and where each query that is made finds
  -- enough peers within the rounds given: flattenRoutes ends, and no route that it returns has the
  -- scheme dns.
  pub flatten_routes-NoDns :
      (rounds : ℕ) (wait_dns_entries : Bool) (urls : List Url) (w : W)
      → ParsesNats
      → Answers rounds wait_dns_entries urls w
      → (routes : List Url) × (v : W) × (flatten_routes net rounds urls wait_dns_entries w
          ≡ some (routes, v))
        × All NoDns routes
  unfolding flatten_routes
  flatten_routes-NoDns rounds wait _ _ parses (no_more w) = ([], w, refl, tt)
  flatten_routes-NoDns rounds wait _ _ parses (direct u urls w no_dns rest) =
      let (routes, v, flat, none_there) = flatten_routes-NoDns rounds wait urls w parses rest in
      (u ∷ routes, v, ground (arith, no_dns, flat), (no_dns, none_there))
  flatten_routes-NoDns rounds wait _ _ parses (queried u urls n w peers x dns finds more rest) =
      let queries = query_dns_routes-ends net rounds n u wait w peers x finds more in
      let (routes, v, flat, none_there) = flatten_routes-NoDns rounds wait urls x parses rest in
      (
        peers ++ routes,
        v,
        ground (arith, dns, queries, flat),
        All-append NoDns peers routes
            (found-NoDns parses (min_peers net u wait) u n w peers x finds) none_there,
      )
