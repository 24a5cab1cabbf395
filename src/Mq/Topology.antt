-- ===== src/Mq/Topology.antt =====
-- internal/mq/topology.go: DeclareTopology as the list of calls that it makes on the channel, and
-- what the declarations say of a queue. How a broker routes is the interface `Broker`.
use address_monitor.Prelude.{
  ℕ, ◌≡◌, false, Option, none, some, List, [], ◌∷◌, ◌&&◌, Text, bytes, text_eq, if◌then◌else◌,
  is_empty_text,
}

-- The arguments x-message-ttl, x-dead-letter-exchange and x-dead-letter-routing-key.
pub record QueueArgs : Type 0 where
  pub message_ttl : Option ℕ
  pub dead_letter_exchange : Option Text
  pub dead_letter_routing_key : Option Text

pub data Declaration : Type 0 where
  exchange_declare : (name kind : Text) → Declaration
  queue_declare : (name : Text) (args : QueueArgs) → Declaration
  queue_bind : (queue key exchange : Text) → Declaration

abbrev plain : QueueArgs
plain = record { message_ttl = none; dead_letter_exchange = none; dead_letter_routing_key = none }

abbrev retry_args : ℕ → QueueArgs
retry_args ttl = record {
  message_ttl = some ttl;
  dead_letter_exchange = some (bytes "dispatch.exchange");
  dead_letter_routing_key = some (bytes "dispatch");
}

-- One round of the loop over the retry queues.
abbrev declare_retry : Text → Text → ℕ → List Declaration → List Declaration
declare_retry name key ttl rest =
    queue_declare name (retry_args ttl) ∷ queue_bind name key (bytes "dlx.exchange") ∷ rest

unfoldable pub declare_topology : List Declaration
declare_topology =
    exchange_declare (bytes "matched.exchange") (bytes "direct")
    ∷ exchange_declare (bytes "dispatch.exchange") (bytes "direct")
    ∷ exchange_declare (bytes "dlx.exchange") (bytes "direct")
    ∷ queue_declare (bytes "matched.events") plain
    ∷ queue_bind (bytes "matched.events") (bytes "matched") (bytes "matched.exchange")
    ∷ queue_declare (bytes "dispatch.tasks")
        (record plain { dead_letter_exchange = some (bytes "dlx.exchange") })
    ∷ queue_bind (bytes "dispatch.tasks") (bytes "dispatch") (bytes "dispatch.exchange")
    ∷ declare_retry (bytes "dispatch.retry.1m") (bytes "retry.1") 60000 (
        declare_retry (bytes "dispatch.retry.5m") (bytes "retry.2") 300000 (
          declare_retry (bytes "dispatch.retry.30m") (bytes "retry.3") 1800000 (
            declare_retry (bytes "dispatch.retry.2h") (bytes "retry.4") 7200000 (
              queue_declare (bytes "dispatch.dead") plain
              ∷ queue_bind (bytes "dispatch.dead") (bytes "dead") (bytes "dlx.exchange")
              ∷ []))))

-- The arguments with which a queue was declared.
unfoldable pub queue_args : Text → List Declaration → Option QueueArgs
queue_args q [] = none
queue_args q (queue_declare name args ∷ ds) = if text_eq name q then some args else queue_args q ds
queue_args q (exchange_declare _ _ ∷ ds) = queue_args q ds
queue_args q (queue_bind _ _ _ ∷ ds) = queue_args q ds

-- The queues bound to an exchange under a key.
unfoldable pub bound_queues : Text → Text → List Declaration → List Text
bound_queues ex k [] = []
bound_queues ex k (queue_bind q key e ∷ ds) =
    if text_eq e ex && text_eq key k then q ∷ bound_queues ex k ds else bound_queues ex k ds
bound_queues ex k (exchange_declare _ _ ∷ ds) = bound_queues ex k ds
bound_queues ex k (queue_declare _ _ ∷ ds) = bound_queues ex k ds

-- The broker: where a message published under a declared topology arrives. The laws are the
-- documented ones: the exchange "" leads to the queue that the key names, and a direct exchange
-- to the queue bound under the key, where there is exactly one.
pub record Broker : Type 0 where
  pub arrives : List Declaration → Text → Text → Option Text
  pub default_exchange :
      (t : List Declaration) (q : Text) (args : QueueArgs)
      → queue_args q t ≡ some args
      → arrives t [] q ≡ some q
  pub direct_exchange :
      (t : List Declaration) (ex k q : Text)
      → is_empty_text ex ≡ false
      → bound_queues ex k t ≡ q ∷ []
      → arrives t ex k ≡ some q
