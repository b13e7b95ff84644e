-- ===== src/LogStream/Names.antt =====
-- The names of streams and subjects, `streamName` and `subjectName` of logstream/replicator.go.
use Prim.Native.String.{◌++◌}
use text.Mathlib.TextLemmas.{append_cancel_left}
use marmot.Base.{ℕ, String, ◌≡◌, Bool, if◌then◌else◌}
use marmot.Base.Decimal.{decimal, decimal_inj}
use marmot.Cfg.{Configuration}

unfoldable pub stream_name : Configuration → ℕ → Bool → String
stream_name config shard compressed =
    config.nats.stream_prefix ++ ((if compressed then "-c" else "") ++ ("-" ++ decimal shard))

unfoldable pub subject_name : Configuration → ℕ → String
subject_name config shard = config.nats.subject_prefix ++ ("-" ++ decimal shard)

-- Two shards with one stream name, or with one subject, are the same shard.
shard_names_inj :
    (config : Configuration) (compressed : Bool) (a b : ℕ)
    → (stream_name config a compressed ≡ stream_name config b compressed → a ≡ b)
      × (subject_name config a ≡ subject_name config b → a ≡ b)
unfolding stream_name subject_name
shard_names_inj config compressed a b = (
  λ e. decimal_inj a b (
      append_cancel_left "-" _ _ (
        append_cancel_left (if compressed then "-c" else "") _ _
          (append_cancel_left config.nats.stream_prefix _ _ e))),
  λ e.
      decimal_inj a b
        (append_cancel_left "-" _ _ (append_cancel_left config.nats.subject_prefix _ _ e)),
)
