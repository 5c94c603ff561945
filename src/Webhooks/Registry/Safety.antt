-- ===== src/Webhooks/Registry/Safety.antt =====
-- Where deliveries go (src/webhooks/webhook-delivery.service.ts).
use Prim.Native.String.{String}
use dupdap_backend.Base.{
  ℕ, ◌≡◌, Bool, true, false, List, [], ◌∷◌, some, any, All, All-append, filter, find, take, arith,
  Bool-cases, Option-cases, inl, inr, ltb, ◌==◌, length, ◌⊎◌,
}
use dupdap_backend.Webhooks.Records.{QueuedJob}
use dupdap_backend.Webhooks.Registry.{
  Webhook, LoggedDelivery, Registry, ReplayWebhooksDto, enqueue_delivery, enqueue_each, dispatch,
  send_test, replay_one, replay_each, replay, same_key, has_id, job_of, subscribes, is_active_of,
  is_selected, replay_page,
}
use dupdap_backend.Webhooks.Destinations.Networks.{
  IsNode, IsPublicQuad, IsPublicV6, is_private_address-IsPublic,
}
use dupdap_backend.Webhooks.Destinations.{
  Node, ParsedUrl, is_private_address, addresses_of, is_safe_url,
}

not-any-All :
    {A : Type 0} (p : A → Bool) (xs : List A) → any p xs ≡ false → All (λ x. p x ≡ false) xs
not-any-All p [] h = tt
not-any-All p (x ∷ xs) h = elim (Bool-cases (p x)) [
  | inl passes ↦ cc (rw passes at h)
  | inr fails ↦ (fails, not-any-All p xs (rw fails at h))
]

module _ (node : Node) where
  -- A URL that parses as https, and whose host has an address, all of them public.
  abbrev pub IsPublic : String → Type 0
  IsPublic url =
      (parsed : ParsedUrl) × (address : List ℕ) × (addresses : List (List ℕ)) × (node.parse_url url
        ≡ some parsed)
      × (parsed.is_https ≡ true)
      × (addresses_of node parsed.hostname ≡ some (address ∷ addresses))
      × All (λ a. IsPublicQuad node a ⊎ IsPublicV6 node a) (address ∷ addresses)

  -- A job goes to a public URL.
  abbrev pub GoesOut : QueuedJob → Type 0
  GoesOut job = IsPublic job.payload.url

  -- A call that puts jobs on the queue.
  pub data Step (s : Registry) : Registry → Type 0 where
    dispatches : (merchant : ℕ) (event body : String) → Step s (dispatch node merchant event body s)
    tests : (merchant : ℕ) (body : String) → Step s (send_test node merchant body s).0
    replays :
        (available allowed : Bool) (merchant : ℕ) (dto : ReplayWebhooksDto)
        (logs : List LoggedDelivery)
        → Step s (replay node available allowed merchant dto logs s).0

  pub data Reach (s : Registry) : Registry → Type 0 where
    here : Reach s s
    next : {t u : Registry} → Reach s t → Step t u → Reach s u

  module _ (laws : IsNode node) where
    All-IsPublic :
        (addresses : List (List ℕ))
        → All (λ a. is_private_address node a ≡ false) addresses
        → All (λ a. IsPublicQuad node a ⊎ IsPublicV6 node a) addresses
    All-IsPublic [] h = tt
    All-IsPublic (address ∷ addresses) h =
        (is_private_address-IsPublic node laws address h.0, All-IsPublic addresses h.1)

    is_safe_url-IsPublic : (url : String) → is_safe_url node url ≡ true → IsPublic url
    unfolding is_safe_url
    is_safe_url-IsPublic url h = elim (Option-cases (node.parse_url url)) [
      | inl malformed ↦ cc (rw (malformed, is_safe_url) at h)
      | inr (parsed, is_url) ↦ elim (Bool-cases parsed.is_https) [
        | inr plain ↦ cc (rw plain at (rw (is_url, is_safe_url) at h))
        | inl https ↦ elim (Option-cases (addresses_of node parsed.hostname)) [
          | inl unresolved ↦ cc (rw unresolved at (rw https at (rw (is_url, is_safe_url) at h)))
          | inr ([], nowhere) ↦ cc (rw nowhere at (rw https at (rw (is_url, is_safe_url) at h)))
          | inr (address ∷ addresses, resolved) ↦
              let clear : any (is_private_address node) (address ∷ addresses) ≡ false =
                ground (arith, rw resolved at (rw https at (rw (is_url, is_safe_url) at h))) in
              (
                parsed,
                address,
                addresses,
                is_url,
                https,
                resolved,
                All-IsPublic (address ∷ addresses)
                    (not-any-All (is_private_address node) (address ∷ addresses) clear),
              )
        ]
      ]
    ]

    enqueue_delivery-GoesOut :
        (webhook : Webhook) (event body : String) (is_replay : Bool) (queue : List QueuedJob)
        → All GoesOut queue
        → All GoesOut (enqueue_delivery node webhook event body is_replay queue)
    unfolding enqueue_delivery
    enqueue_delivery-GoesOut webhook event body is_replay queue h =
        elim (Bool-cases (is_safe_url node webhook.url)) [
          | inr refused ↦ rw refused h
          | inl safe ↦ rw safe (
              All-append GoesOut queue (job_of webhook event body is_replay ∷ []) h
                (is_safe_url-IsPublic webhook.url safe, tt))
        ]

    enqueue_each-GoesOut :
        (webhooks : List Webhook) (event body : String) (queue : List QueuedJob)
        → All GoesOut queue
        → All GoesOut (enqueue_each node webhooks event body queue)
    unfolding enqueue_each
    enqueue_each-GoesOut [] event body queue h = h
    enqueue_each-GoesOut (webhook ∷ webhooks) event body queue h =
        enqueue_each-GoesOut webhooks event body
          (enqueue_delivery node webhook event body false queue)
          (enqueue_delivery-GoesOut webhook event body false queue h)

    replay_one-GoesOut :
        (hooks : List Webhook) (log : LoggedDelivery) (seen : List (ℕ × String))
        (queue : List QueuedJob)
        → All GoesOut queue
        → All GoesOut (replay_one node hooks log seen queue).1
    unfolding replay_one
    replay_one-GoesOut hooks log seen queue h =
        elim (Bool-cases (any (same_key (log.webhook_id, log.event)) seen)) [
          | inl again ↦ rw again h
          | inr new ↦ elim (Option-cases (find (has_id log.webhook_id) hooks)) [
            | inl gone ↦ rw new (rw gone h)
            | inr (hook, found) ↦
                rw new
                  (rw found (enqueue_delivery-GoesOut hook log.event log.request_body true queue h))
          ]
        ]

    replay_each-GoesOut :
        (hooks : List Webhook) (logs : List LoggedDelivery) (seen : List (ℕ × String))
        (queue : List QueuedJob)
        → All GoesOut queue
        → All GoesOut (replay_each node hooks logs seen queue).0
    unfolding replay_each
    replay_each-GoesOut hooks [] seen queue h = h
    replay_each-GoesOut hooks (log ∷ logs) seen queue h =
        let one = replay_one node hooks log seen queue in
        replay_each-GoesOut hooks logs one.0 one.1 (replay_one-GoesOut hooks log seen queue h)

    -- The queue after a replay is the queue before, or that of its loop.
    replay-GoesOut :
        (available allowed : Bool) (merchant : ℕ) (dto : ReplayWebhooksDto)
        (logs : List LoggedDelivery) (s : Registry)
        → All GoesOut s.queue
        → All GoesOut (replay node available allowed merchant dto logs s).0.queue
    unfolding replay
    replay-GoesOut false allowed merchant dto logs s h = h
    replay-GoesOut true false merchant dto logs s h = h
    replay-GoesOut true true merchant dto logs s h = elim (Option-cases dto.from) [
      | inl bad ↦ rw (bad, replay) h
      | inr (from, starts) ↦ elim (Option-cases dto.to) [
        | inl bad ↦ rw (starts, replay) (rw bad h)
        | inr (to, ends) ↦
            let hooks = filter (is_active_of merchant) s.webhooks in
            let selected =
              take replay_page (filter (is_selected hooks from to dto.event_type) logs) in
            elim (Bool-cases (ltb to from)) [
              | inl backwards ↦ rw (starts, replay) (rw ends (rw backwards h))
              | inr forwards ↦ elim (Bool-cases (length hooks == 0)) [
                | inl none_active ↦ rw (starts, replay) (rw ends (rw forwards (rw none_active h)))
                | inr active ↦
                    rw (starts, replay)
                      (rw ends
                        (rw forwards (rw active (replay_each-GoesOut hooks selected [] s.queue h))))
              ]
            ]
      ]
    ]

    -- Whatever is dispatched, tested and replayed, whatever the URLs and the names in them resolve to,
    -- if an octet of an address is less than 256: each job that is put on the queue is for an https URL
    -- whose host had an address when it was checked, and each of its addresses was then an IPv4 address
    -- outside 0.0.0.0/8, 10.0.0.0/8, 100.64.0.0/10, 127.0.0.0/8, 169.254.0.0/16, 172.16.0.0/12 and
    -- 192.168.0.0/16, or an IPv6 address that is not "::1" or "::", whose text does not begin with
    -- "fe80", "fc" or "fd", and in which a mapped IPv4 address is outside those networks.
    pub Reach-GoesOut : {s t : Registry} → Reach s t → All GoesOut s.queue → All GoesOut t.queue
    unfolding dispatch send_test
    Reach-GoesOut here h = h
    Reach-GoesOut (next {t = t} r (dispatches merchant event body)) h =
        enqueue_each-GoesOut (filter (subscribes event) (filter (is_active_of merchant) t.webhooks))
          event body t.queue (Reach-GoesOut r h)
    Reach-GoesOut (next {t = t} r (tests merchant body)) h =
        enqueue_each-GoesOut (filter (is_active_of merchant) t.webhooks) "webhook.test" body t.queue
          (Reach-GoesOut r h)
    Reach-GoesOut (next {t = t} r (replays available allowed merchant dto logs)) h =
        replay-GoesOut available allowed merchant dto logs t (Reach-GoesOut r h)
