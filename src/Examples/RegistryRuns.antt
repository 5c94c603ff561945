-- ===== src/Examples/RegistryRuns.antt =====
-- Runs of the theorems about the registration of webhooks.
use dupdap_backend.Base.{◌≡◌, arith, true, false, List, [], ◌∷◌, none, some, All}
use dupdap_backend.Webhooks.Registry.{Webhook, Registry, LoggedDelivery, ReplayWebhooksDto, replay}
use dupdap_backend.Webhooks.Destinations.{Node}
use dupdap_backend.Webhooks.Destinations.Networks.{IsNode}
use dupdap_backend.Webhooks.Registry.Safety.{GoesOut, here, next, replays, Reach-GoesOut}

-- Every host is 203.0.113.7.
abbrev node : Node
node = record {
  parse_url = λ url. some (record { is_https = true; hostname = 104 ∷ [] });
  octets = λ text. some (203, 0);
  is_v6 = λ text. false;
  mapped = λ text. none;
  lookup_host = λ host. none;
}

node-IsNode : IsNode node
node-IsNode = record {
  octets-bounded = λ {text} {a} {b} h.
      let first : a ≡ 203 = cc h in
      let second : b ≡ 0 = cc h in (rw first (omega arith), rw second (omega arith));
}

abbrev hook : Webhook
hook = record {
  id = 7;
  merchant_id = 4;
  url = "https://shop.example";
  events = "payment.confirmed" ∷ [];
  secret = none;
  is_active = true;
  failure_count = 2;
  circuit_open_until = none;
}

abbrev registry : Registry
registry = record { webhooks = hook ∷ []; queue = [] }

abbrev log : List LoggedDelivery
log =
    record { webhook_id = 7; event = "payment.confirmed"; request_body = "second"; created_at = 90 }
    ∷ record {
      webhook_id = 7;
      event = "payment.confirmed";
      request_body = "first";
      created_at = 80;
    }
    ∷ []

abbrev window : ReplayWebhooksDto
window = record { from = some 50; to = some 100; event_type = none }

Reach-GoesOut_example : All (GoesOut node) (replay node true true 4 window log registry).0.queue
Reach-GoesOut_example =
    Reach-GoesOut node node-IsNode {s = registry}
      {t = (replay node true true 4 window log registry).0}
      (next here (replays true true 4 window log)) tt
