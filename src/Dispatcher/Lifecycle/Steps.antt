-- ===== src/Dispatcher/Lifecycle/Steps.antt =====
-- One round of a task's life: where the four retry keys lead, and what a failed push does.
use address_monitor.Prelude.{
  ℕ, zero, suc, ◌+◌, ◌≡◌, ◌<◌, refl, subst, true, false, none, some, List, [], ◌∷◌, Text, bytes,
  text_eq, get_elem?, arith,
}
use native.Mathlib.Numerals.{add-one}
use address_monitor.Prelude.Int.{pos}
use address_monitor.Mq.Topology.{Broker, declare_topology, queue_args, bound_queues}
use address_monitor.Dispatcher.Task.{DispatchTask, Delivery, Publishing, int32}
use address_monitor.Dispatcher.Sender.{
  SenderEnv, HttpResponse, SendOutcome, acked, routes, is_success, response_body, request_of,
  record_failure, push, sender_handle, requeue, retry_route,
}
use address_monitor.Dispatcher.DeadLetter.{dead_handle}
use address_monitor.Store.WebhookLogs.{LogTable, Status, update_status, mark_dead}
use address_monitor.Dispatcher.Lifecycle.Defs.{
  Life, finished, buried, to_sender, to_dead, land, follow, live,
}

-- The delays of the four retry queues in ms: 1 min, 5 min, 30 min, 2 h.
abbrev pub delays : List ℕ
delays = 60000 ∷ 300000 ∷ 1800000 ∷ 7200000 ∷ []

abbrev pub delay_at : ℕ → ℕ
delay_at n = elim (get_elem? delays n) [ none ↦ 0 | some d ↦ d ]

-- A queue that is bound to dlx.exchange under a retry key sends its messages back to the sender.
land-retry_queue :
    (b : Broker) (key q : Text) (ttl : ℕ)
    → bound_queues (bytes "dlx.exchange") key declare_topology ≡ q ∷ []
    → text_eq q (bytes "dispatch.tasks") ≡ false
    → text_eq q (bytes "dispatch.dead") ≡ false
    → queue_args q declare_topology
      ≡ some (record {
        message_ttl = some ttl;
        dead_letter_exchange = some (bytes "dispatch.exchange");
        dead_letter_routing_key = some (bytes "dispatch");
      })
    → land b (bytes "dlx.exchange") key ≡ to_sender ttl
unfolding land declare_topology bound_queues text_eq
land-retry_queue b key q ttl bound tasks dead args =
    rw (b.direct_exchange declare_topology (bytes "dlx.exchange") key q refl bound) (
      rw (tasks, dead, args)
        (rw (
          b.direct_exchange declare_topology (bytes "dispatch.exchange") (bytes "dispatch")
            (bytes "dispatch.tasks") refl refl)))

some_inj : {A : Type 0} {a b : A} → some a ≡ some b → a ≡ b
some_inj h = cc

abbrev LandsBack : Broker → Text → ℕ → Type 0
LandsBack b key delay = land b (bytes "dlx.exchange") key ≡ to_sender delay

-- The n-th retry key leads back to the sender after the n-th delay.
pub land-routes :
    (b : Broker) (n : ℕ) (key : Text)
    → get_elem? routes n ≡ some key
    → land b (bytes "dlx.exchange") key ≡ to_sender (delay_at n)
unfolding declare_topology bound_queues queue_args text_eq
land-routes b zero key h =
    subst (λ k. LandsBack b k 60000) (some_inj h)
      (land-retry_queue b _ (bytes "dispatch.retry.1m") 60000 refl refl refl refl)
land-routes b (suc zero) key h =
    subst (λ k. LandsBack b k 300000) (some_inj h)
      (land-retry_queue b _ (bytes "dispatch.retry.5m") 300000 refl refl refl refl)
land-routes b (suc (suc zero)) key h =
    subst (λ k. LandsBack b k 1800000) (some_inj h)
      (land-retry_queue b _ (bytes "dispatch.retry.30m") 1800000 refl refl refl refl)
land-routes b (suc (suc (suc zero))) key h =
    subst (λ k. LandsBack b k 7200000) (some_inj h)
      (land-retry_queue b _ (bytes "dispatch.retry.2h") 7200000 refl refl refl refl)
land-routes b (suc (suc (suc (suc n)))) key h = cc

pub land-dead : (b : Broker) → land b [] (bytes "dispatch.dead") ≡ to_dead
unfolding land declare_topology queue_args text_eq
land-dead b = rw (b.default_exchange declare_topology (bytes "dispatch.dead") _ refl)

-- A published message that lands at the sender is delivered again.
follow-to_sender :
    (b : Broker) (again : Publishing DispatchTask → ℕ → LogTable → Life) (n waited : ℕ)
    (out : SendOutcome) (p : Publishing DispatchTask) {delay : ℕ}
    → out.verdict ≡ acked
    → out.sent ≡ some p
    → land b p.exchange p.routing_key ≡ to_sender delay
    → follow b again n waited out ≡ again p delay out.logs
unfolding follow
follow-to_sender b again n waited out p v s l = rw (v, s, l)

follow-to_dead :
    (b : Broker) (again : Publishing DispatchTask → ℕ → LogTable → Life) (n waited : ℕ)
    (out : SendOutcome) (p : Publishing DispatchTask)
    → out.verdict ≡ acked
    → out.sent ≡ some p
    → land b p.exchange p.routing_key ≡ to_dead
    → follow b again n waited out ≡ record {
      logs =
          dead_handle false
            (record { body = some p.body; retry_header = some (int32 p.retry_count) })
            out.logs;
      attempts = n;
      waited = waited;
      end = buried;
    }
unfolding follow
follow-to_dead b again n waited out p v s l = rw (v, s, l)

-- The calls that the sender makes at attempt n succeed.
pub record IsHealthy (env : SenderEnv) : Type 0 where
  pub status : env.status_fails ≡ false
  pub incr : env.incr_fails ≡ false
  pub publish : env.publish_fails ≡ false

retry_route_of :
    (n : ℕ) (key : Text) → get_elem? routes n ≡ some key → retry_route (pos (n + 1)) ≡ some key
unfolding retry_route
retry_route_of n key k = rw add-one k

pub route_exists : (n : ℕ) → n < 4 → (key : Text) × (get_elem? routes n ≡ some key)
route_exists zero lt = (_, refl)
route_exists (suc zero) lt = (_, refl)
route_exists (suc (suc zero)) lt = (_, refl)
route_exists (suc (suc (suc zero))) lt = (_, refl)
route_exists (suc (suc (suc (suc n)))) lt = absurd (omega arith)

module _ (b : Broker) (env : ℕ → SenderEnv) (task : DispatchTask) where
  -- The answer of the callback at attempt n.
  abbrev pub reply : ℕ → HttpResponse
  reply n = (env n).post (request_of (env n) task)

  abbrev pub failure : ℕ → LogTable → LogTable
  failure n logs = record_failure (env n) task (reply n) logs

  abbrev pub message : ℕ → Delivery DispatchTask
  message n = record { body = some task; retry_header = some (int32 (pos n)) }

  abbrev republished : Text → Text → ℕ → LogTable → SendOutcome
  republished ex key n logs = record {
    logs = failure n logs;
    request = some (request_of (env n) task);
    sent =
        some (record { exchange = ex; routing_key = key; body = task; retry_count = pos (suc n) });
    verdict = acked;
  }

  -- A failed push with retries left is published under the next retry key.
  pub sender_handle_retry :
      (n : ℕ) (key : Text) (logs : LogTable)
      → n < 4
      → get_elem? routes n ≡ some key
      → IsHealthy (env n)
      → is_success (reply n) ≡ false
      → sender_handle (env n) (message n) logs ≡ republished (bytes "dlx.exchange") key n logs
  unfolding sender_handle push requeue retry_route
  sender_handle_retry n key logs lt k h e =
      rw (e, h.publish) (ground (arith, retry_route_of n key k))

  pub sender_handle_last :
      (logs : LogTable)
      → IsHealthy (env 4)
      → is_success (reply 4) ≡ false
      → sender_handle (env 4) (message 4) logs ≡ republished [] (bytes "dispatch.dead") 4 logs
  unfolding sender_handle push requeue
  sender_handle_last logs h e = rw (e, h.publish)

  -- A failed attempt with retries left comes back with its count raised.
  pub live_retry :
      (fuel n : ℕ) (logs : LogTable) (waited : ℕ)
      → n < 4
      → IsHealthy (env n)
      → is_success (reply n) ≡ false
      → live b env (suc fuel) n task (some (int32 (pos n))) logs waited
        ≡ live b env fuel
            (suc n)
            task
            (some (int32 (pos (suc n))))
            (failure n logs)
            (waited + delay_at n)
  unfolding live
  live_retry fuel n logs waited lt h e =
      let (key, k) = route_exists n lt in
      rw (sender_handle_retry n key logs lt k h e)
        (follow-to_sender b _ (suc n) waited _ _ refl refl (land-routes b n key k))

  -- A push that succeeds leaves no message behind.
  pub live_success :
      (fuel n : ℕ) (logs : LogTable) (waited : ℕ)
      → IsHealthy (env n)
      → is_success (reply n) ≡ true
      → live b env (suc fuel) n task (some (int32 (pos n))) logs waited ≡ record {
        logs =
            update_status task.webhook_log_id Status.success
              (reply n).code
              (response_body (reply n))
              logs;
        attempts = suc n;
        waited = waited;
        end = finished;
      }
  unfolding live follow sender_handle push
  live_success fuel n logs waited h e = rw (e, h.status)

  -- The fifth failure leads to the dead letter handler.
  pub live_last :
      (fuel : ℕ) (logs : LogTable) (waited : ℕ)
      → IsHealthy (env 4)
      → is_success (reply 4) ≡ false
      → live b env (suc fuel) 4 task (some (int32 (pos 4))) logs waited ≡ record {
        logs = mark_dead task.webhook_log_id (failure 4 logs);
        attempts = 5;
        waited = waited;
        end = buried;
      }
  unfolding live dead_handle
  live_last fuel logs waited h e =
      rw (sender_handle_last logs h e) (follow-to_dead b _ 5 waited _ _ refl refl (land-dead b))
