-- ===== src/Doh/Answers.antt =====
-- src/doh.rs: what a DoH request is answered.
use dotdns.Prelude.{
  ℕ, ◌≡◌, ◌⊎◌, inl, inr, refl, ◌∙◌, true, false, Bool-cases, List, Result, ok, err, Result-cases,
  Option,
}
use dotdns.Dns.{Dns}
use dotdns.Doh.{
  Http, HttpResponse, StatusCode, bad_request, unsupported_media_type, internal_server_error,
  DohState, DnsQueryParams, dns_message, is_dns_message, content_type_of, peer_or_default, context,
  doh_resolve, respond, answer_query, dns_query_post, dns_query_get,
}
use dotdns.Net.{SocketAddr}
use dotdns.Server.Answers.{resolve_with_context-id}
use dotdns.Server.Resolve.{Ask, Clock, Stores}
use dotdns.Text.{Text}

module _ (D : Dns) (lower : Text → Text) (http : Http) (from_bytes : List ℕ → Result Text D.Message)
    (ask : Ask D) (clock : Clock) (addr : Option SocketAddr) (state : DohState) where
  open D use {Message, view}

  -- What is answered to a body: nothing was done and the body is no message, or the handler's response
  -- has no encoding, or its encoding is the response, and has the query's identifier.
  pub data Answered (body : List ℕ) (s : Stores D)
      : Stores D × Result StatusCode HttpResponse → Type 0 where
    undecodable : (e : Text) → from_bytes body ≡ err e → Answered body s (s, err bad_request)
    unencodable :
        (query : Message) (e : Text)
        → from_bytes body ≡ ok query
        → D.to_bytes (doh_resolve D lower ask clock query (peer_or_default addr) state s).1 ≡ err e
        → Answered body s (
          (doh_resolve D lower ask clock query (peer_or_default addr) state s).0,
          err internal_server_error,
        )
    encoded :
        (query response : Message) (bytes : List ℕ)
        → from_bytes body ≡ ok query
        → from_bytes bytes ≡ ok response
        → (view response).id ≡ (view query).id
        → D.to_bytes (doh_resolve D lower ask clock query (peer_or_default addr) state s).1
          ≡ ok bytes
        → Answered body s (
          (doh_resolve D lower ask clock query (peer_or_default addr) state s).0,
          ok (record { content_type = dns_message; body = bytes }),
        )

  abbrev pub Codec : Type 0
  Codec =
      (m : Message) (bytes : List ℕ)
      → D.to_bytes m ≡ ok bytes
      → (m' : Message) × (from_bytes bytes ≡ ok m') × ((view m').id ≡ (view m).id)

  doh_resolve-id :
      (query : Message) (peer : SocketAddr) (s : Stores D)
      → (view (doh_resolve D lower ask clock query peer state s).1).id ≡ (view query).id
  unfolding doh_resolve
  doh_resolve-id query peer s =
      resolve_with_context-id D lower ask (context D lower peer state) clock query s

  answer_query-Answered :
      (body : List ℕ) (s : Stores D)
      → Codec
      → Answered body s
          (answer_query D lower http from_bytes ask clock addr state (from_bytes body) s)
  unfolding answer_query respond
  answer_query-Answered body s codec = elim (Result-cases (from_bytes body)) [
    | inr (e, bad) ↦ rw bad (undecodable e bad)
    | inl (query, decodes) ↦
        let out = doh_resolve D lower ask clock query (peer_or_default addr) state s in
        elim (Result-cases (D.to_bytes out.1)) [
          | inr (e, bad) ↦ rw (decodes, bad) (unencodable query e decodes bad)
          | inl (bytes, encodes) ↦
              let (response, h, same) = codec out.1 bytes encodes in
              rw (decodes, encodes)
                (encoded query response bytes decodes h
                  (same ∙ doh_resolve-id query (peer_or_default addr) s) encodes)
        ]
  ]

  -- A body that is posted as a DNS message, and the same body in the parameter of a GET request, have the
  -- same answer: 400 and nothing is done if the body is no message, else the encoding of the handler's
  -- response, or 500 if it has none. A posted body of another type has 415 and nothing is done, and
  -- so has a parameter that is not base64, with 400.
  pub dns_query-Answered :
      (headers : http.HeaderMap) (body : List ℕ) (params : DnsQueryParams) (s : Stores D)
      → Codec
      → (((is_dns_message (content_type_of http headers) ≡ true)
            × Answered body s
                (dns_query_post D lower http from_bytes ask clock addr state headers body s))
          ⊎ ((is_dns_message (content_type_of http headers) ≡ false)
              × (dns_query_post D lower http from_bytes ask clock addr state headers body s
                  ≡ (s, err unsupported_media_type))))
        × (((decoded : List ℕ) × (http.decode params.dns ≡ ok decoded)
              × Answered decoded s
                  (dns_query_get D lower http from_bytes ask clock addr state params s))
            ⊎ ((e : Text) × (http.decode params.dns ≡ err e)
                × (dns_query_get D lower http from_bytes ask clock addr state params s
                    ≡ (s, err bad_request))))
  unfolding dns_query_post dns_query_get
  dns_query-Answered headers body params s codec = (
    elim (Bool-cases (is_dns_message (content_type_of http headers))) [
      | inl h ↦ inl (h, rw h (answer_query-Answered body s codec))
      | inr h ↦ inr (h, rw h refl)
    ],
    elim (Result-cases (http.decode params.dns)) [
      | inl (decoded, h) ↦
          inl (decoded, h, rw (dns_query_get, h) (answer_query-Answered decoded s codec))
      | inr (e, h) ↦ inr (e, h, rw (dns_query_get, h) refl)
    ],
  )
