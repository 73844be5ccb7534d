-- ===== src/Tests/Browsing.antt =====
-- DoH requests to src/doh.rs for a blocked name.
use dotdns.Prelude.{◌≡◌, refl, sym, ◌⊎◌, true, none, false, ℕ, List, [], ◌∷◌, some, Result, ok, err}
use dotdns.Dns.{View}
use dotdns.Doh.{
  Http, bad_request, unsupported_media_type, DohState, is_dns_message, content_type_of,
  dns_query_post, dns_query_get,
}
use dotdns.Doh.Answers.{Answered, Codec, dns_query-Answered}
use dotdns.Samples.{sample, question, types}
use dotdns.Tests.Serving.{context, ads, stores, clock, answers, lower}
use dotdns.Text.{Text}

-- A request without a body is no message, and any other one asks for the name.
from_bytes : List ℕ → Result Text (View types)
from_bytes [] = err []
from_bytes (id ∷ bytes) = ok (record question { id = id })

-- The header is its own text, and base64 is left as it is.
abbrev http : Http
http = record {
  HeaderMap = Text;
  HeaderValue = Text;
  get_content_type = λ t. some t;
  to_str = λ t. some t;
  decode = λ t. ok t;
}

abbrev state : DohState
state = record {
  blocklist = (context ads).blocklist;
  edns = (context ads).edns;
  blocklist_config = (context ads).blocklist_config;
}

codec : Codec sample lower http from_bytes answers clock none state
unfolding from_bytes
codec m bytes h = let same : m.id ∷ [] ≡ bytes = cc in rw (sym same) (_, refl, refl)

abbrev unknown : Text
unknown = 42 ∷ []

-- The name is asked for in a GET request, and in a posted one with another type.
dns_query-Answered_example :
    (((is_dns_message (content_type_of http unknown) ≡ true)
        × Answered sample lower http from_bytes answers clock none state (7 ∷ []) stores (
            dns_query_post sample lower http from_bytes answers clock none state unknown
              (7 ∷ [])
              stores))
      ⊎ ((is_dns_message (content_type_of http unknown) ≡ false)
          × (dns_query_post sample lower http from_bytes answers clock none state unknown
                (7 ∷ [])
                stores
              ≡ (stores, err unsupported_media_type))))
    × (((decoded : List ℕ) × (http.decode (7 ∷ []) ≡ ok decoded)
          × Answered sample lower http from_bytes answers clock none state decoded stores (
              dns_query_get sample lower http from_bytes answers clock none state
                (record { dns = 7 ∷ [] })
                stores))
        ⊎ ((e : Text) × (http.decode (7 ∷ []) ≡ err e)
            × (dns_query_get sample lower http from_bytes answers clock none state
                  (record { dns = 7 ∷ [] })
                  stores
                ≡ (stores, err bad_request))))
dns_query-Answered_example =
    dns_query-Answered sample lower http from_bytes answers clock none state unknown (7 ∷ [])
      (record { dns = 7 ∷ [] }) stores codec
