-- ===== src/Tests/Expander.antt =====
-- The expander at a concrete event.
use address_monitor.Prelude.{◌≡◌, refl, true, false, none, some, [], ◌∷◌, bytes, text_eq, arith}
use address_monitor.Store.Apps.{AllowedJson, App, get_by_id}
use address_monitor.Store.WebhookLogs.{exists_by_event_and_address}
use address_monitor.Dispatcher.Expander.{
  ExpanderEnv, ExpanderState, expander_handle, expand_one, is_contract_allowed,
}
use address_monitor.Dispatcher.Expander.Laws.{
  IsOnce, expander_handle-IsOnce, IsServed, unpublished_is_lost,
}
use address_monitor.Mq.Publisher.{Attempt, publish}
use address_monitor.Tests.Samples.{event, row, table, base}

-- The broker acknowledges, or there is no channel.
abbrev acks : Attempt
acks = record {
  channel_fails = false;
  confirm_fails = false;
  publish_fails = false;
  confirmed = some true;
}

abbrev closed : Attempt
closed = record acks { channel_fails = true }

abbrev pub env : ExpanderEnv
env = record {
  base = base;
  same = text_eq;
  redis_fails = false;
  list_fails = false;
  check_fails = λ w. false;
  app_fails = λ w. false;
  create_fails = λ w. false;
  attempts = λ w i. acks;
}

abbrev app : App
app = record {
  id = 1;
  user_id = 1;
  name = bytes "shop";
  api_key = bytes "k";
  secret = bytes "sk";
  callback_url = bytes "http://cb";
  allowed_contracts = AllowedJson.blank;
  status = 1;
}

abbrev pub fresh : ExpanderState
fresh = record {
  logs = record { rows = []; next_id = 1 };
  addresses = table;
  apps = record { rows = app ∷ []; next_id = 2 };
  sub_cache = λ k. none;
  app_cache = λ i. none;
  published = [];
}

fresh-IsOnce : IsOnce fresh
fresh-IsOnce e a = (omega arith, omega arith)

expander_handle-IsOnce_example :
    IsOnce (expander_handle env (record { body = some event; retry_header = none }) fresh)
expander_handle-IsOnce_example =
    expander_handle-IsOnce env (record { body = some event; retry_header = none }) fresh
      fresh-IsOnce

abbrev cut_off : ExpanderEnv
cut_off = record env { attempts = λ w i. closed }

nothing_sent : (publish (λ i. closed)).sent ≡ 0
unfolding publish
nothing_sent = refl

served :
    (e : ExpanderEnv)
    → e.base ≡ base
    → e.check_fails row ≡ false
    → e.app_fails row ≡ false
    → e.create_fails row ≡ false
    → IsServed e event row app fresh
unfolding exists_by_event_and_address text_eq get_by_id is_contract_allowed
served e b check read create = record {
  check = check;
  read = read;
  create = create;
  fresh = refl;
  uncached = refl;
  found = refl;
  url = refl;
  allowed = refl;
}

unpublished_is_lost_example :
    let s' = expand_one cut_off event row fresh in
    (exists_by_event_and_address event.event_id row.id s'.logs ≡ true)
    × (s'.published ≡ fresh.published)
    × (expand_one env event row s' ≡ s')
unpublished_is_lost_example =
    unpublished_is_lost cut_off env event row app fresh (served cut_off refl refl refl refl)
      nothing_sent
