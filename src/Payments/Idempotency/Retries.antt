-- ===== src/Payments/Idempotency/Retries.antt =====
-- Requests that are sent again (src/payments/idempotency.interceptor.ts).
use dupdap_backend.Base.{
  ℕ, ◌+◌, ◌≡◌, ◌<◌, refl, lt→ltb, ◌∙◌, ◌==◌, List, [], ◌∷◌, none, some, Result, ok, err, All,
  lookup, insert, lookup-insert, arith, if◌then◌else◌, Bool-cases, inl, inr, map,
}
use dupdap_backend.Payments.Idempotency.{
  Request, Response, CachedResponse, InterceptError, conflict, Server, idempotency_ttl, cached_at,
  dedup_id, handle_and_store, intercept,
}

module _ {S E : Type 0} (handle : S → S × Result E Response) where
  -- The requests that follow one another on a server, with their times.
  pub serve : List (ℕ × Request) → Server S → Server S × List (Result (InterceptError E) Response)
  serve [] s = (s, [])
  serve ((now, request) ∷ rest) s =
      let (s', answer) = intercept handle now request s in
      let (final, answers) = serve rest s' in (final, answer ∷ answers)

  -- What a request gets that finds an entry.
  abbrev pub answer_of : CachedResponse → Request → Result (InterceptError E) Response
  answer_of entry request = if entry.hash == request.hash then ok entry.response else err conflict

  -- The requests carry the id and arrive before the time.
  abbrev pub Carries : (id until : ℕ) → List (ℕ × Request) → Type 0
  Carries id until = All (λ r. (dedup_id r.1 ≡ some id) × (r.0 < until))

  -- A request that finds an entry does not reach the handler.
  intercept-cached :
      (now id : ℕ) (entry : CachedResponse) (request : Request) (s : Server S)
      → lookup id s.cache ≡ some entry
      → dedup_id request ≡ some id
      → now < entry.expires_at
      → intercept handle now request s ≡ (s, answer_of entry request)
  unfolding intercept
  intercept-cached now id entry request s held its early =
      let live : cached_at now id s.cache ≡ some entry =
        rw (held, cached_at) (rw (lt→ltb now entry.expires_at early) refl) in
      elim (Bool-cases (entry.hash == request.hash)) [
        | inl same ↦ rw (its, intercept) (rw live (rw same refl))
        | inr differs ↦ rw (its, intercept) (rw live (rw differs refl))
      ]

  serve-cached :
      (id : ℕ) (entry : CachedResponse) (requests : List (ℕ × Request)) (s : Server S)
      → lookup id s.cache ≡ some entry
      → Carries id entry.expires_at requests
      → serve requests s ≡ (s, map (λ r. answer_of entry r.1) requests)
  unfolding serve
  serve-cached id entry [] s held carries = refl
  serve-cached id entry ((now, request) ∷ rest) s held ((its, early), carries) =
      let again = serve-cached id entry rest s held carries in
      rw (intercept-cached now id entry request s held its early) (rw again refl)

  -- A request with an id that is not in use, which the handler answers: the requests with the same id
  -- that arrive within the five minutes after it do not reach the handler, however many they are.
  -- One of the same content gets the same answer, and one of another content is a conflict.
  pub intercept-serve :
      (now id : ℕ) (request : Request) (response : Response) (requests : List (ℕ × Request))
      (s : Server S)
      → dedup_id request ≡ some id
      → lookup id s.cache ≡ none
      → (handle s.state).1 ≡ ok response
      → Carries id (now + idempotency_ttl) requests
      → let s' = (intercept handle now request s).0 in
        ((intercept handle now request s).1 ≡ ok response)
        × (s'.state ≡ (handle s.state).0)
        × (serve requests s' ≡ (
          s',
          map (λ r. if request.hash == r.1.hash then ok response else err conflict) requests,
        ))
  unfolding intercept handle_and_store
  intercept-serve now id request response requests s its unused answered carries =
      let entry : CachedResponse = record {
        hash = request.hash;
        response = response;
        expires_at = now + idempotency_ttl;
      } in
      let first : intercept handle now request s
          ≡ (record { cache = insert id entry s.cache; state = (handle s.state).0 }, ok response) =
        rw (its, intercept) (rw (unused, cached_at) (rw (answered, handle_and_store) refl)) in
      let s' : Server S = record { cache = insert id entry s.cache; state = (handle s.state).0 } in
      let held : lookup id s'.cache ≡ some entry =
        lookup-insert id id entry s.cache ∙ ground arith in
      rw first (refl, refl, serve-cached id entry requests s' held carries)
