-- ===== src/Mq/Publisher.antt =====
-- internal/mq/publisher.go: Publish with its retries. What the client library and the broker answer
-- to an attempt is a value; times are in ms.
use address_monitor.Prelude.{
  ℕ, zero, suc, ◌+◌, ◌*◌, ◌≡◌, ◌≤◌, Bool, true, false, Option, none, some, not, ◌&&◌, ◌||◌,
  if◌then◌else◌, arith,
}

-- The errors of the channel, of Confirm and of Publish, and the confirmation: an ack or a nack, or
-- none within five seconds.
pub record Attempt : Type 0 where
  pub channel_fails : Bool
  pub confirm_fails : Bool
  pub publish_fails : Bool
  pub confirmed : Option Bool

abbrev pub max_retries : ℕ
max_retries = 3

-- publishOnce: whether it returns no error.
unfoldable pub publish_once : Attempt → Bool
publish_once a =
    if a.channel_fails
    then false
    else if a.confirm_fails
    then false
    else if a.publish_fails
    then false
    else elim a.confirmed [ none ↦ false | some ack ↦ ack ]

-- Whether the attempt hands the message to the broker, which may route it whatever it answers.
unfoldable pub sends_message : Attempt → ℕ
sends_message a = if a.channel_fails || a.confirm_fails || a.publish_fails then 0 else 1

-- How a call of Publish ends, the messages it has handed over, and the time it has slept.
pub record PublishRun : Type 0 where
  pub returns_nil : Bool
  pub sent : ℕ
  pub slept : ℕ

unfoldable pub publish_from : (ℕ → Attempt) → ℕ → ℕ → PublishRun
unfolding publish_once sends_message
publish_from attempt zero i = record { returns_nil = false; sent = 0; slept = 0 }
publish_from attempt (suc n) i =
    let rest = publish_from attempt n (i + 1) in
    if publish_once (attempt i)
    then record { returns_nil = true; sent = sends_message (attempt i); slept = 0 }
    else record {
      returns_nil = rest.returns_nil;
      sent = sends_message (attempt i) + rest.sent;
      slept = (i + 1) * 200 + rest.slept;
    }

unfoldable pub publish : (ℕ → Attempt) → PublishRun
unfolding publish_from
publish attempt = publish_from attempt max_retries 0

-- The broker has taken the message of an attempt and said so.
abbrev pub is_acked : Attempt → Bool
is_acked a = elim a.confirmed [
  | none ↦ false
  | some ack ↦ not a.channel_fails && not a.confirm_fails && not a.publish_fails && ack
]

acked_once : (a : Attempt) → publish_once a ≡ is_acked a
unfolding publish_once
acked_once a = ground arith

sends_le : (a : Attempt) → sends_message a ≤ 1
unfolding sends_message
sends_le a = ground arith

once_sends : (a : Attempt) → publish_once a ≡ true → sends_message a ≡ 1
unfolding sends_message publish_once
once_sends a h = ground arith

-- Publish returns no error exactly if one of its three attempts is acknowledged; it hands over at
-- most three messages, and at least one when it returns no error; it sleeps at most 1.2 s.
pub publish_bounded :
    (attempt : ℕ → Attempt)
    → ((publish attempt).returns_nil
        ≡ (is_acked (attempt 0) || is_acked (attempt 1) || is_acked (attempt 2)))
      × ((publish attempt).sent ≤ 3)
      × ((if (publish attempt).returns_nil then 1 else 0) ≤ (publish attempt).sent)
      × ((publish attempt).slept ≤ 1200)
unfolding publish publish_from
publish_bounded attempt = (
  ground (arith, acked_once (attempt 0), acked_once (attempt 1), acked_once (attempt 2)),
  ground (arith, sends_le (attempt 0), sends_le (attempt 1), sends_le (attempt 2)),
  ground (arith, once_sends (attempt 0), once_sends (attempt 1), once_sends (attempt 2)),
  ground arith,
)
