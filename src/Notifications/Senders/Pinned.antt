-- ===== src/Notifications/Senders/Pinned.antt =====
-- Where a webhook of src/notifications/webhook.rs can send to.
use legaltech_contract_autom.Common.{
  ℕ, String, Bool, ◌≡◌, refl, ap, Option, none, some, List, Result, ok, err, ◌>>=◌, ◌>>◌,
}
use legaltech_contract_autom.Notifications.Channel.{Notification, DeliveryError, invalid_url}
use legaltech_contract_autom.Notifications.Ssrf.{Url, SocketAddr, validate_and_resolve}
use legaltech_contract_autom.Notifications.Ssrf.Gate.{Safe, validate_and_resolve-Safe}
use legaltech_contract_autom.Notifications.Senders.{
  ReqwestError, Response, Request, webhook_request, classify, required, pinned, send_webhook,
}

module _ (show_date show_uuid : ℕ → String) (parse_url : String → Option Url)
    (resolve : String → ℕ → Option (List SocketAddr)) (pins : String → List SocketAddr → Bool)
    (http http' : Request → Result ReqwestError Response) (allow : Bool) (n : Notification)
    (agree : (url : Url) (addrs : List SocketAddr)
      → Safe resolve allow addrs
      → http (webhook_request url addrs n n.reminder_id)
        ≡ http' (webhook_request url addrs n n.reminder_id)) where
  -- What follows the gate.
  abbrev sent :
      (Request → Result ReqwestError Response)
      → Url
      → List SocketAddr
      → Result DeliveryError (Unit {0})
  sent client url addrs = required invalid_url url.host_str >>= λ host.
      pinned show_date show_uuid parse_url resolve pins client host addrs
      >> classify (client (webhook_request url addrs n n.reminder_id))

  same_pinned :
      (p : Result DeliveryError (Unit {0})) (url : Url) (addrs : List SocketAddr)
      → Safe resolve allow addrs
      → (p >> classify (http (webhook_request url addrs n n.reminder_id)))
        ≡ (p >> classify (http' (webhook_request url addrs n n.reminder_id)))
  same_pinned (ok _) url addrs safe = ap classify (agree url addrs safe)
  same_pinned (err e) url addrs safe = refl

  same_sent :
      (url : Url) (addrs : List SocketAddr)
      → Safe resolve allow addrs
      → sent http url addrs ≡ sent http' url addrs
  unfolding pinned
  same_sent url addrs safe = go url.host_str
    where
      go :
          (o : Option String)
          → (required invalid_url o >>= λ host.
              pinned show_date show_uuid parse_url resolve pins http host addrs
              >> classify (http (webhook_request url addrs n n.reminder_id)))
            ≡ (required invalid_url o >>= λ host.
                pinned show_date show_uuid parse_url resolve pins http' host addrs
                >> classify (http' (webhook_request url addrs n n.reminder_id)))
      go none = refl
      go (some host) = same_pinned _ url addrs safe

  same_resolved :
      (url : Url) (r : Result DeliveryError (List SocketAddr))
      → validate_and_resolve resolve url allow ≡ r
      → (r >>= sent http url) ≡ (r >>= sent http' url)
  same_resolved url (ok addrs) h =
      let (_, some_address, all_public) = validate_and_resolve-Safe resolve url allow addrs h in
      same_sent url addrs (some_address, all_public)
  same_resolved url (err e) h = refl

  -- The outcome of a webhook delivery depends on the network only through the requests that are
  -- pinned to at least one address and to public addresses alone: two clients that answer those in
  -- the same way give the same outcome.
  pub send_webhook-pinned :
      (configured : Option Url)
      → send_webhook show_date show_uuid parse_url resolve pins http configured allow n
        ≡ send_webhook show_date show_uuid parse_url resolve pins http' configured allow n
  unfolding send_webhook
  send_webhook-pinned none = refl
  send_webhook-pinned (some url) = same_resolved url (validate_and_resolve resolve url allow) refl
