-- ===== src/Tests/Main.antt =====
-- The main loop and the discovery of routes at small inputs.
use text.Mathlib.Text.{starts_with}
use Prim.Native.String.{◌++◌ as ◌+++◌}
use marmot.Base.{
  ℕ, zero, suc, ◌≤◌, ◌+◌, String, ◌≡◌, refl, subst, leb, arith, Bool, true, false, Option, none,
  some, List, [], ◌∷◌, All, Pairwise, if◌then◌else◌,
}
use marmot.Base.Errors.{Result, ok, err, library}
use marmot.Cfg.{Configuration, default_config}
use marmot.LogStream.Replicator.{Replicator}
use marmot.LogStream.Snapshots.{NatsSnapshot, Saving}
use marmot.MainLoop.{Event, cleanup, snapshot, Program}
use marmot.MainLoop.Spacing.{saved_times}
use marmot.MainLoop.Node.{node_program, node_saves-apart}
use marmot.Stream.Routes.{
  Url, Ip, v4, v6, Net, min_peers, flatten_routes, get_direct_nats_addresses, after_query, enough,
}
use marmot.Stream.Routes.Discovered.{
  found, missed, no_more, direct, queried, NoDns, ParsesNats, Answers, flatten_routes-NoDns,
}

-- Snapshots that succeed when the world is even.
abbrev saved : ℕ → Result (Unit {0}) × ℕ
saved zero = (ok tt, 1)
saved (suc w) = (err (library "busy"), w)

abbrev works : NatsSnapshot ℕ
works = record { save_snapshot = saved; restore_snapshot = λ w. (ok tt, w) }

abbrev every_100 : Configuration → Configuration
every_100 d = record d { snapshot = record d.snapshot { interval = 100 } }

abbrev config : Configuration
config = every_100 (default_config "/tmp")

abbrev replicator : Replicator ℕ
replicator = record { config = config; shards = 1; compression_enabled = false; stream_map = [] }

abbrev events : List Event
events = snapshot 100 ∷ cleanup 150 ∷ snapshot 199 ∷ snapshot 200 ∷ snapshot 300 ∷ []

abbrev started : Saving ℕ
started = record { last_snapshot = none; world = 0 }

abbrev program : Program (Saving ℕ)
program = node_program config replicator (some works) (λ w. ok true) (λ t w. (ok 0, w)) (λ w. w)

node_saves-apart_example : Pairwise (λ a b. a + 100 ≤ b) (saved_times config program events started)
node_saves-apart_example =
    node_saves-apart config replicator (some works) (λ w. ok true) (λ t w. (ok 0, w)) (λ w. w)
      events started

-- A name server that fails once, and then knows three addresses, one of which does not parse.
abbrev answer : Bool → Result (List Ip) × Bool
answer true = (ok (v6 "fd00::1" ∷ v4 "10.0.0.1" ∷ v4 "bad" ∷ []), true)
answer false = (err (library "no such host"), true)

abbrev peer : Url
peer = record { scheme = "nats"; hostname = "peer"; port = "4222"; query = [] }

abbrev parse : String → Option Url
parse s = if starts_with s "nats://bad" then none else some peer

abbrev net : Net Bool
net = record { lookup_ip = λ domain. answer; parse = parse }

parsed-NoDns : (b : Bool) (u : Url) → (if b then none else some peer) ≡ some u → NoDns u
parsed-NoDns true u e = cc
parsed-NoDns false u e = let same : peer ≡ u = cc in subst NoDns same refl

net-ParsesNats : ParsesNats net
net-ParsesNats rest u e = parsed-NoDns (starts_with ("nats://" +++ rest) "nats://bad") u e

leb-zero : (n : ℕ) → leb 0 n ≡ true
leb-zero n = ground arith

abbrev urls : List Url
urls = record peer { scheme = "dns" } ∷ peer ∷ []

net-Answers : Answers net 2 true urls false
unfolding get_direct_nats_addresses min_peers after_query enough
net-Answers =
    queried (record peer { scheme = "dns" }) (peer ∷ []) 1 false _ true refl
      (missed 0 false _ true _ true refl refl (found true _ true refl (leb-zero 2))) (omega arith)
      (direct peer [] true refl (no_more true))

flatten_routes-NoDns_example :
    (routes : List Url) × (w : Bool) × (flatten_routes net 2 urls true false ≡ some (routes, w))
    × All NoDns routes
flatten_routes-NoDns_example = flatten_routes-NoDns net 2 true urls false net-ParsesNats net-Answers
