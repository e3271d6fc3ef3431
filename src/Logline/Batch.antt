-- ===== src/Logline/Batch.antt =====
-- internal/logline/batch.go: one `plog.Logs` under construction. Of the third-party log data model
-- the resource attributes and the records are kept; an instant stands for its pdata timestamp.
use k8spodlogreceiver.Prelude.{ℕ, ◌+◌, List, [], ◌∷◌, ◌++◌, if◌then◌else◌, Bytes, bytes_eq}
use k8spodlogreceiver.Prelude.Int.{ℤ}
use k8spodlogreceiver.Instant.{Instant, is_unset}

pub record Meta : Type 0 where
  pub namespace : Bytes
  pub pod_name : Bytes
  pub pod_uid : Bytes
  pub container_name : Bytes
  pub node_name : Bytes
  pub restart_count : ℤ  -- int32

-- The attribute names of the semantic conventions, a third-party package.
pub data Attribute : Type 0 where
  namespace_name pod_name_key pod_uid_key container_name_key node_name_key : Attribute

pub record LogRecord : Type 0 where
  pub observed_timestamp : Instant
  pub timestamp : Instant
  pub body : Bytes

pub record Batch : Type 0 where
  pub attributes : List (Attribute × Bytes)
  pub restart_count_attribute : ℤ
  pub records : List LogRecord
  pub count : ℕ

-- NewBatch
unfoldable pub new_batch : Meta → Batch
new_batch m = record {
  attributes =
      (namespace_name, m.namespace)
      ∷ (pod_name_key, m.pod_name)
      ∷ (pod_uid_key, m.pod_uid)
      ∷ (container_name_key, m.container_name)
      ∷ (node_name_key, m.node_name)
      ∷ [];
  restart_count_attribute = m.restart_count;
  records = [];
  count = 0;
}

-- Append, at the time `now`: a record with no timestamp of its own gets `now`.
unfoldable pub append : Batch → Bytes → Instant → Instant → Batch
append b body ts now = record b {
  records =
      b.records
      ++ record {
        observed_timestamp = now;
        timestamp = if is_unset ts then now else ts;
        body = body;
      }
        ∷ [];
  count = b.count + 1;
}
