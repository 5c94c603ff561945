-- ===== src/Payments/Idempotency.antt =====
-- src/payments/idempotency.interceptor.ts. The handler behind the interceptor, with the state that it changes, and
-- the hash of a request are arguments. An entry of the cache is there until its time to live is over.
pub mod Retries
use dupdap_backend.Base.{
  ℕ, ◌+◌, Bool, true, false, not, ltb, leb, ◌==◌, ◌||◌, Option, none, some, Result, ok, err, Dict,
  lookup, insert, if◌then◌else◌,
}

abbrev pub idempotency_ttl : ℕ
idempotency_ttl = 300

-- The header is `none` where it is missing or no single text; its length is that of the text.
pub record Request : Type 0 where
  pub is_post : Bool
  pub request_id : Option ℕ
  pub id_length : ℕ
  pub hash : ℕ

pub record Response : Type 0 where
  pub status : ℕ
  pub body : ℕ

pub record CachedResponse : Type 0 where
  pub hash : ℕ
  pub response : Response
  pub expires_at : ℕ

pub data InterceptError (E : Type 0) : Type 0 where
  conflict : InterceptError E
  thrown : E → InterceptError E

pub record Server (S : Type 0) : Type 0 where
  pub cache : Dict CachedResponse
  pub state : S

-- `this.cacheService.get`
abbrev pub cached_at : (now id : ℕ) → Dict CachedResponse → Option CachedResponse
cached_at now id cache = elim (lookup id cache) [
  | none ↦ none
  | some entry ↦ if ltb now entry.expires_at then some entry else none
]

-- The id by which a request is recognised: not empty, and of at most 200 characters.
abbrev pub dedup_id : Request → Option ℕ
dedup_id request =
    if not request.is_post
    then none
    else if request.id_length == 0 || ltb 200 request.id_length
    then none
    else request.request_id

module _ {S E : Type 0} (handle : S → S × Result E Response) where
  -- `next.handle()` alone.
  unfoldable pub pass_through : Server S → Server S × Result (InterceptError E) Response
  pass_through s =
      let (state, outcome) = handle s.state in
      (
        record s { state = state },
        elim outcome [ ok response ↦ ok response | err e ↦ err (thrown e) ],
      )

  -- The handler, and what the pipe stores when it returns.
  unfoldable pub handle_and_store :
      (now id hash : ℕ) → Server S → Server S × Result (InterceptError E) Response
  handle_and_store now id hash s =
      let (state, outcome) = handle s.state in
      elim outcome [
        | err e ↦ (record s { state = state }, err (thrown e))
        | ok response ↦
            let entry : CachedResponse = record {
              hash = hash;
              response = response;
              expires_at = now + idempotency_ttl;
            } in
            (record { cache = insert id entry s.cache; state = state }, ok response)
      ]

  unfoldable pub intercept :
      (now : ℕ) → Request → Server S → Server S × Result (InterceptError E) Response
  intercept now request s = elim (dedup_id request) [
    | none ↦ pass_through s
    | some id ↦ elim (cached_at now id s.cache) [
      | none ↦ handle_and_store now id request.hash s
      | some entry ↦
          if entry.hash == request.hash then (s, ok entry.response) else (s, err conflict)
    ]
  ]
