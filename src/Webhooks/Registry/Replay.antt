-- ===== src/Webhooks/Registry/Replay.antt =====
-- How often a replay delivers (src/webhooks/webhooks.service.ts).
use Prim.Native.String.{String, compare}
use Prim.Native.Nat.{Ordering}
use text.Mathlib.TextEquality.{path_by_compare}
use text.Mathlib.TextPositions.{compare_refl}
use dupdap_backend.Base.{
  ℕ, ◌+◌, ◌≡◌, ◌≤◌, ◌∙◌, refl, sym, subst, Bool, true, false, List, [], ◌∷◌, any, count,
  count-append, filter, find, find-passes, take, arith, if◌then◌else◌, Bool-cases, Option-cases,
  inl, inr, ltb, ◌==◌, ==_iff, length,
}
use dupdap_backend.Webhooks.Records.{QueuedJob}
use dupdap_backend.Webhooks.Registry.{
  Webhook, LoggedDelivery, Registry, ReplayWebhooksDto, enqueue_delivery, replay_one, replay_each,
  replay, same_key, has_id, job_of, is_active_of, is_selected, replay_page,
}
use dupdap_backend.Webhooks.Destinations.{Node, is_safe_url, same_text}

is_eq→path :
    (o : Ordering)
    → (elim o as (λ x. Bool) [ Ordering.eq ↦ true | _ ↦ false ]) ≡ true
    → o ≡ Ordering.eq
is_eq→path Ordering.eq h = refl
is_eq→path Ordering.lt h = cc
is_eq→path Ordering.gt h = cc

same_text→path : (a b : String) → same_text a b ≡ true → a ≡ b
same_text→path a b h = path_by_compare a b (is_eq→path (compare a b) h)

same_text_refl : (a : String) → same_text a a ≡ true
same_text_refl a = rw (compare_refl a, same_text) refl

same_key→path : (a b : ℕ × String) → same_key a b ≡ true → a ≡ b
same_key→path (i, a) (j, b) h = elim (Bool-cases (i == j)) [
  | inr differs ↦ cc (rw differs at h)
  | inl same ↦
      let p : i ≡ j = (==_iff i j).0 same in
      let q : a ≡ b = same_text→path a b (rw same at h) in λ k. (p k, q k)
]

same_key_refl : (a : ℕ × String) → same_key a a ≡ true
same_key_refl (i, a) = rw (same_text_refl a) (ground arith)

-- A job for a webhook and an event.
abbrev pub is_for : ℕ × String → QueuedJob → Bool
is_for key job = same_key (job.payload.webhook_id, job.payload.event) key

module _ (node : Node) (key : ℕ × String) where
  new_jobs-le :
      (webhook : Webhook) (event body : String) (queue : List QueuedJob)
      → count (is_for key) (enqueue_delivery node webhook event body true queue)
        ≤ count (is_for key) queue + 1
  unfolding enqueue_delivery
  new_jobs-le webhook event body queue =
      ground (arith, count-append (is_for key) queue (job_of webhook event body true ∷ []))

  other_jobs :
      (webhook : Webhook) (event body : String) (queue : List QueuedJob)
      → same_key (webhook.id, event) key ≡ false
      → count (is_for key) (enqueue_delivery node webhook event body true queue)
        ≡ count (is_for key) queue
  unfolding enqueue_delivery
  other_jobs webhook event body queue differs =
      let added = count-append (is_for key) queue (job_of webhook event body true ∷ []) in
      elim (Bool-cases (is_safe_url node webhook.url)) [
        | inr refused ↦ rw refused refl
        | inl safe ↦ rw safe (omega (arith, rw differs at added))
      ]

  -- The set of seen keys holds the key.
  abbrev Seen : List (ℕ × String) → Type 0
  Seen seen = any (same_key key) seen ≡ true

  -- A round for another key than this one.
  replay_one-other :
      (hooks : List Webhook) (log : LoggedDelivery) (seen : List (ℕ × String))
      (queue : List QueuedJob)
      → same_key (log.webhook_id, log.event) key ≡ false
      → count (is_for key) (replay_one node hooks log seen queue).1 ≡ count (is_for key) queue
  unfolding replay_one
  replay_one-other hooks log seen queue differs =
      elim (Bool-cases (any (same_key (log.webhook_id, log.event)) seen)) [
        | inl again ↦ rw again refl
        | inr new ↦ elim (Option-cases (find (has_id log.webhook_id) hooks)) [
          | inl gone ↦ rw new (rw gone refl)
          | inr (hook, found) ↦
              let its : hook.id ≡ log.webhook_id =
                (==_iff hook.id log.webhook_id).0
                  (find-passes (has_id log.webhook_id) hooks found) in
              rw new (rw found (other_jobs hook log.event log.request_body queue (rw its differs)))
        ]
      ]

  -- A round for this key, which has been seen.
  replay_one-again :
      (hooks : List Webhook) (log : LoggedDelivery) (seen : List (ℕ × String))
      (queue : List QueuedJob)
      → Seen seen
      → count (is_for key) (replay_one node hooks log seen queue).1 ≡ count (is_for key) queue
  unfolding replay_one
  replay_one-again hooks log seen queue h =
      elim (Bool-cases (same_key (log.webhook_id, log.event) key)) [
        | inr differs ↦ replay_one-other hooks log seen queue differs
        | inl same ↦
            let its : (log.webhook_id, log.event) ≡ key =
              same_key→path (log.webhook_id, log.event) key same in
            let again : any (same_key (log.webhook_id, log.event)) seen ≡ true = rw its h in
            rw again refl
      ]

  -- A round keeps what has been seen, and adds its own key.
  replay_one-Seen :
      (hooks : List Webhook) (log : LoggedDelivery) (seen : List (ℕ × String))
      (queue : List QueuedJob)
      → Seen seen
      → Seen (replay_one node hooks log seen queue).0
  unfolding replay_one
  replay_one-Seen hooks log seen queue h =
      elim (Bool-cases (any (same_key (log.webhook_id, log.event)) seen)) [
        | inl again ↦ rw again h
        | inr new ↦ elim (Option-cases (find (has_id log.webhook_id) hooks)) [
          | inl gone ↦ rw new (rw gone (ground (arith, h)))
          | inr (hook, found) ↦ rw new (rw found (ground (arith, h)))
        ]
      ]

  replay_each-Seen :
      (hooks : List Webhook) (logs : List LoggedDelivery) (seen : List (ℕ × String))
      (queue : List QueuedJob)
      → Seen seen
      → count (is_for key) (replay_each node hooks logs seen queue).0 ≡ count (is_for key) queue
  unfolding replay_each
  replay_each-Seen hooks [] seen queue h = refl
  replay_each-Seen hooks (log ∷ logs) seen queue h =
      let one = replay_one node hooks log seen queue in
      replay_each-Seen hooks logs one.0 one.1 (replay_one-Seen hooks log seen queue h)
      ∙ replay_one-again hooks log seen queue h

  replay_one-le :
      (hooks : List Webhook) (log : LoggedDelivery) (seen : List (ℕ × String))
      (queue : List QueuedJob)
      → count (is_for key) (replay_one node hooks log seen queue).1 ≤ count (is_for key) queue + 1
  unfolding replay_one
  replay_one-le hooks log seen queue =
      elim (Bool-cases (any (same_key (log.webhook_id, log.event)) seen)) [
        | inl again ↦ rw again (omega arith)
        | inr new ↦ elim (Option-cases (find (has_id log.webhook_id) hooks)) [
          | inl gone ↦ rw new (rw gone (omega arith))
          | inr (hook, found) ↦
              rw new (rw found (new_jobs-le hook log.event log.request_body queue))
        ]
      ]

  -- After a round for this key, it has been seen.
  replay_one-own :
      (hooks : List Webhook) (log : LoggedDelivery) (seen : List (ℕ × String))
      (queue : List QueuedJob)
      → (log.webhook_id, log.event) ≡ key
      → Seen (replay_one node hooks log seen queue).0
  unfolding replay_one
  replay_one-own hooks log seen queue its =
      elim (Bool-cases (any (same_key (log.webhook_id, log.event)) seen)) [
        | inl again ↦
            let h : Seen seen = subst (λ k. any (same_key k) seen ≡ true) its again in rw again h
        | inr new ↦
            let h : same_key key (log.webhook_id, log.event) ≡ true =
              subst (λ k. same_key key k ≡ true) (sym its) (same_key_refl key) in
            elim (Option-cases (find (has_id log.webhook_id) hooks)) [
              | inl gone ↦ rw new (rw gone (rw h refl))
              | inr (hook, found) ↦ rw new (rw found (rw h refl))
            ]
      ]

  replay_each-once :
      (hooks : List Webhook) (logs : List LoggedDelivery) (seen : List (ℕ × String))
      (queue : List QueuedJob)
      → count (is_for key) (replay_each node hooks logs seen queue).0 ≤ count (is_for key) queue + 1
  unfolding replay_each
  replay_each-once hooks [] seen queue = omega arith
  replay_each-once hooks (log ∷ logs) seen queue =
      let one = replay_one node hooks log seen queue in
      elim (Bool-cases (same_key (log.webhook_id, log.event) key)) [
        | inr differs ↦ omega (
          arith,
          replay_each-once hooks logs one.0 one.1,
          replay_one-other hooks log seen queue differs,
        )
        | inl same ↦
            let its = same_key→path (log.webhook_id, log.event) key same in
            omega (
              arith,
              replay_each-Seen hooks logs one.0 one.1 (replay_one-own hooks log seen queue its),
              replay_one-le hooks log seen queue,
            )
      ]

  -- However many deliveries the log holds, a replay puts at most one job on the queue for a webhook
  -- and an event; and it puts none there when the limiter refuses it.
  replay-once :
      (available allowed : Bool) (merchant : ℕ) (dto : ReplayWebhooksDto)
      (logs : List LoggedDelivery) (s : Registry)
      → let s' = (replay node available allowed merchant dto logs s).0 in
        count (is_for key) s'.queue ≤ count (is_for key) s.queue + (if allowed then 1 else 0)
  unfolding replay
  replay-once false allowed merchant dto logs s = omega arith
  replay-once true false merchant dto logs s = omega arith
  replay-once true true merchant dto logs s = elim (Option-cases dto.from) [
    | inl bad ↦ rw (bad, replay) (omega arith)
    | inr (from, starts) ↦ elim (Option-cases dto.to) [
      | inl bad ↦ rw (starts, replay) (rw bad (omega arith))
      | inr (to, ends) ↦
          let hooks = filter (is_active_of merchant) s.webhooks in
          let selected =
            take replay_page (filter (is_selected hooks from to dto.event_type) logs) in
          elim (Bool-cases (ltb to from)) [
            | inl backwards ↦ rw (starts, replay) (rw ends (rw backwards (omega arith)))
            | inr forwards ↦ elim (Bool-cases (length hooks == 0)) [
              | inl none_active ↦
                  rw (starts, replay) (rw ends (rw forwards (rw none_active (omega arith))))
              | inr active ↦
                  rw (starts, replay)
                    (rw ends (rw forwards (rw active (replay_each-once hooks selected [] s.queue))))
            ]
          ]
    ]
  ]
