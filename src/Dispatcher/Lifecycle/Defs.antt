-- ===== src/Dispatcher/Lifecycle/Defs.antt =====
-- One task, from its delivery to the sender until no message of it is left.
use address_monitor.Prelude.{
  ℕ, zero, suc, ◌+◌, false, Option, none, some, Text, bytes, text_eq, if◌then◌else◌,
}
use address_monitor.Mq.Topology.{Broker, QueueArgs, declare_topology, queue_args}
use address_monitor.Dispatcher.Task.{DispatchTask, HeaderValue, int32, Publishing}
use address_monitor.Dispatcher.Sender.{SenderEnv, SendOutcome, acked, panicked, sender_handle}
use address_monitor.Dispatcher.DeadLetter.{dead_handle}
use address_monitor.Store.WebhookLogs.{LogTable}

-- Where a published task ends up: at the sender after a delay in ms, or at the dead letter queue.
pub data Landing : Type 0 where
  to_sender : ℕ → Landing
  to_dead nowhere : Landing

pub data End : Type 0 where
  finished buried crashed lost running : End

pub record Life : Type 0 where
  pub logs : LogTable
  pub attempts : ℕ
  pub waited : ℕ
  pub end : End

unfoldable pub in_queue : Option Text → ℕ → Landing
in_queue none delay = Landing.nowhere
in_queue (some q) delay =
    if text_eq q (bytes "dispatch.tasks") then to_sender delay else Landing.nowhere

-- A message whose time in its queue is over goes to the queue's dead letter exchange.
unfoldable pub expire : Broker → Option QueueArgs → Landing
unfolding in_queue
expire b none = nowhere
expire b (some args) = elim args.message_ttl [
  | none ↦ nowhere
  | some ttl ↦ elim args.dead_letter_exchange [
    | none ↦ nowhere
    | some ex ↦ elim args.dead_letter_routing_key [
      | none ↦ nowhere
      | some key ↦ in_queue (b.arrives declare_topology ex key) ttl
    ]
  ]
]

unfoldable pub land_in : Broker → Option Text → Landing
unfolding expire
land_in b none = nowhere
land_in b (some q) =
    if text_eq q (bytes "dispatch.tasks")
    then to_sender 0
    else if text_eq q (bytes "dispatch.dead")
    then to_dead
    else expire b (queue_args q declare_topology)

unfoldable pub land : Broker → Text → Text → Landing
unfolding land_in
land b ex key = land_in b (b.arrives declare_topology ex key)

-- What becomes of the task after attempt number `n`; `again` is the next delivery.
unfoldable pub follow :
    Broker → (Publishing DispatchTask → ℕ → LogTable → Life) → ℕ → ℕ → SendOutcome → Life
follow b again n waited out = elim out.verdict [
  | panicked ↦ record { logs = out.logs; attempts = n; waited = waited; end = crashed }
  | acked ↦ elim out.sent [
    | none ↦ record { logs = out.logs; attempts = n; waited = waited; end = finished }
    | some p ↦ elim (land b p.exchange p.routing_key) [
      | nowhere ↦ record { logs = out.logs; attempts = n; waited = waited; end = lost }
      | to_dead ↦ record {
        logs =
            dead_handle false
              (record { body = some p.body; retry_header = some (int32 p.retry_count) }) out.logs;
        attempts = n;
        waited = waited;
        end = buried;
      }
      | to_sender delay ↦ again p delay out.logs
    ]
  ]
]

-- `env n` is the world at attempt n; `header` is the retry header of the message.
unfoldable pub live :
    Broker → (ℕ → SenderEnv) → ℕ → ℕ → DispatchTask → Option HeaderValue → LogTable → ℕ → Life
live b env zero n task header logs waited = record {
  logs = logs;
  attempts = n;
  waited = waited;
  end = running;
}
live b env (suc fuel) n task header logs waited =
    follow b
      (λ p delay l. live b env fuel (suc n) p.body (some (int32 p.retry_count)) l (waited + delay))
      (suc n) waited
      (sender_handle (env n) (record { body = some task; retry_header = header }) logs)
