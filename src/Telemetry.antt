-- ===== src/Telemetry.antt =====
-- telemetry/telemetry.go: the metrics, which are registered with Prometheus or do nothing. The library is a
-- parameter.
pub mod Silent
use marmot.Base.{ℕ, String, Option, none, some, if◌then◌else◌}
use marmot.Base.Errors.{Result, ok, err, panic}
use marmot.Base.Decimal.{decimal}
use marmot.Base.Int.{ℤ}
use marmot.Cfg.{Configuration}

pub data Kind : Type 0 where
  counter gauge histogram : Kind

-- The options of a metric; its one label is the node's id.
pub record Opts : Type 0 where
  pub kind : Kind
  pub namespace : String
  pub subsystem : String
  pub name : String
  pub help : String
  pub node_id : String

-- The calls of the interfaces `Histogram`, `Counter` and `Gauge`; a value is a whole number here.
pub data Call : Type 0 where
  observe : ℤ → Call
  inc : Call
  dec : Call
  add : ℤ → Call
  sub : ℤ → Call
  set : ℤ → Call
  set_to_current_time : Call

-- The Prometheus client, on registries `R`: a new one, `MustRegister`, which may panic, and a call of a
-- metric of one.
pub record Prometheus (R : Type 0) : Type 0 where
  pub new_registry : R
  pub must_register : Opts → R → Result (Unit {0}) × R
  pub call : Opts → Call → R → R

pub data Stat : Type 0 where
  noop_stat : Stat
  registered : Opts → Stat

-- The variable `registry`, nil until the telemetry is initialized, and the address that is served.
pub record Telemetry (R : Type 0) : Type 0 where
  pub registry : Option R
  pub serving : Option String

abbrev opts_of : Configuration → Kind → String → String → Opts
opts_of c kind name help = record {
  kind = kind;
  namespace = c.prometheus.namespace;
  subsystem = c.prometheus.subsystem;
  name = name;
  help = help;
  node_id = decimal c.node_id;
}

module _ {R : Type 0} (client : Prometheus R) (c : Configuration) where
  abbrev after_register : Opts → Result (Unit {0}) × R → Telemetry R → Result Stat × Telemetry R
  after_register o (ok _, r) t = (ok (registered o), record t { registry = some r })
  after_register o (err e, r) t = (err e, record t { registry = some r })
  after_register o (panic m, r) t = (panic m, record t { registry = some r })

  new_stat : Kind → String → String → Telemetry R → Result Stat × Telemetry R
  new_stat kind name help t = elim t.registry [
    | none ↦ (ok noop_stat, t)
    | some r ↦ let o = opts_of c kind name help in after_register o (client.must_register o r) t
  ]

  unfoldable pub new_counter : String → String → Telemetry R → Result Stat × Telemetry R
  unfolding new_stat
  new_counter name help t = new_stat counter name help t

  unfoldable pub new_gauge : String → String → Telemetry R → Result Stat × Telemetry R
  unfolding new_stat
  new_gauge name help t = new_stat gauge name help t

  unfoldable pub new_histogram : String → String → Telemetry R → Result Stat × Telemetry R
  unfolding new_stat
  new_histogram name help t = new_stat histogram name help t

  abbrev called : Opts → Call → Option R → Option R
  called o call none = none
  called o call (some r) = some (client.call o call r)

  -- A call of a metric: the methods of `NoopStat` do nothing.
  unfoldable pub on_stat : Stat → Call → Telemetry R → Telemetry R
  on_stat noop_stat call t = t
  on_stat (registered o) call t = record t { registry = called o call t.registry }

  unfoldable pub initialize_telemetry : Telemetry R → Telemetry R
  initialize_telemetry t =
      if c.prometheus.enable
      then record { registry = some client.new_registry; serving = some c.prometheus.bind }
      else t
