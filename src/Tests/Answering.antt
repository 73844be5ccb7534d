-- ===== src/Tests/Answering.antt =====
-- A DoT connection of src/server.rs that asks for a blocked name, over the wire of `Framing`.
use dotdns.Prelude.{ℕ, ◌≡◌, refl, ap, List, [], ◌∷◌, ◌++◌, ok, Result, map, false, arith}
use dotdns.Dns.{View}
use dotdns.Samples.{sample, question, types}
use dotdns.Server.Answers.{resolve_with_context-id}
use dotdns.Server.Connection.{handle_messages}
use dotdns.Server.Connection.Answering.{
  Exchanged, Passes, resolved, answer_all, frames, handle_messages-answers,
}
use dotdns.Tests.Framing.{wire, writes}
use dotdns.Tests.Serving.{context, ads, stores, clock, answers, lower}
use dotdns.Text.{Text}

abbrev from_bytes : List ℕ → Result Text (View types)
from_bytes bytes = ok question

abbrev asked_once : Exchanged sample
asked_once = record {
  round = record { others = λ s. s; ask = answers; clock = clock; late = false };
  query = question;
  query_bytes = 7 ∷ [];
  response_bytes = 7 ∷ [];
}

passes : Passes sample from_bytes lower (context ads) (asked_once ∷ []) stores
unfolding resolved
passes = (
  refl,
  omega arith,
  omega arith,
  ap (λ n. ok (n ∷ []))
      (resolve_with_context-id sample lower answers (context ads) clock question stores),
  refl,
  tt,
)

handle_messages-answers_example :
    ((w' : List ℕ) × (handle_messages sample wire from_bytes lower
          (context ads)
          (map (λ (x : Exchanged sample). x.round) (asked_once ∷ []) ++ [])
          (wire.before (frames (λ (x : Exchanged sample). x.query_bytes) (asked_once ∷ [])) [])
          []
          stores
        ≡ handle_messages sample wire from_bytes lower
            (context ads)
            []
            []
            w'
            (answer_all sample from_bytes lower (context ads) (asked_once ∷ []) stores).0)
      × (wire.sent w'
          ≡ wire.sent [] ++ frames (λ (x : Exchanged sample). x.response_bytes) (asked_once ∷ [])))
    × (map
          (λ m. (sample.view m).id)
          (answer_all sample from_bytes lower (context ads) (asked_once ∷ []) stores).1
        ≡ 7 ∷ [])
handle_messages-answers_example =
    handle_messages-answers sample wire from_bytes lower (context ads) (asked_once ∷ []) [] [] []
      stores writes passes
