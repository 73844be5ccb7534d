-- ===== src/Server/Connection/Answering.antt =====
-- src/server.rs, `handle_connection`: each query of a connection is answered, in their order.
use dotdns.Prelude.{
  ℕ, ◌<◌, ◌≡◌, ◌^◌, refl, sym, ap, ◌∙◌, Bool, false, List, [], ◌∷◌, ◌++◌, some, Result, ok, length,
  map,
}
use mathlib.Core.List.{append_assoc, append-nil}
use dotdns.Dns.{Dns}
use dotdns.Server.Answers.{resolve_with_context-id}
use dotdns.Server.Connection.{Round, handle_messages}
use dotdns.Server.Framing.{
  AsyncIo, read_message, write_message, write_frame, framed, read_message-framed,
  sent-write_message,
}
use dotdns.Server.Resolve.{ResolveContext, Stores, resolve_with_context}
use dotdns.Text.{Text}

-- A query with its bytes, the round in which it comes, and the bytes of its response.
pub record Exchanged (D : Dns) : Type 0 where
  pub round : Round D
  pub query : D.Message
  pub query_bytes : List ℕ
  pub response_bytes : List ℕ

abbrev pub frames : {D : Dns} → (Exchanged D → List ℕ) → List (Exchanged D) → List ℕ
frames f [] = []
frames f (x ∷ xs) = framed (f x) ++ frames f xs

module _ (D : Dns) (from_bytes : List ℕ → Result Text D.Message) (lower : Text → Text)
    (ctx : ResolveContext D) where
  open D use {Message, view}

  unfoldable pub resolved : Exchanged D → Stores D → Stores D × Message
  resolved x s =
      resolve_with_context D lower x.round.ask ctx x.round.clock x.query (x.round.others s)

  -- The handler on each query, in their order.
  unfoldable pub answer_all : List (Exchanged D) → Stores D → Stores D × List Message
  unfolding resolved
  answer_all [] s = (s, [])
  answer_all (x ∷ xs) s =
      let (s', response) = resolved x s in
      let (s'', responses) = answer_all xs s' in (s'', response ∷ responses)

  -- The bytes are those of the queries and of the handler's responses, and no time-out elapses.
  abbrev pub Passes : List (Exchanged D) → Stores D → Type 0
  Passes [] s = Unit
  Passes (x ∷ xs) s =
      (from_bytes x.query_bytes ≡ ok x.query)
      × (0 < length x.query_bytes)
      × (length x.query_bytes < 2 ^ 16)
      × (D.to_bytes (resolved x s).1 ≡ ok x.response_bytes)
      × (x.round.late ≡ false)
      × Passes xs (resolved x s).0

module _ (D : Dns) {R W : Type 0} (tokio : AsyncIo R W)
    (from_bytes : List ℕ → Result Text D.Message) (lower : Text → Text)
    (ctx : ResolveContext D) where
  open D use {Message, view}

  written :
      (m : Message) (bytes : List ℕ) (late : Bool) (w w' : W)
      → D.to_bytes m ≡ ok bytes
      → late ≡ false
      → write_frame tokio bytes w ≡ ok w'
      → write_message tokio D.to_bytes m late w ≡ ok w'
  unfolding write_message
  written m bytes late w w' encoded in_time h = rw (encoded, in_time, h) refl

  one_round :
      (x : Exchanged D) (rounds : List (Round D)) (r r' : R) (w w' : W) (s : Stores D)
      → read_message tokio from_bytes r ≡ ok (some x.query, r')
      → write_message tokio D.to_bytes (resolved D from_bytes lower ctx x s).1 x.round.late w
        ≡ ok w'
      → handle_messages D tokio from_bytes lower ctx (x.round ∷ rounds) r w s
        ≡ handle_messages D tokio from_bytes lower ctx rounds r' w'
            (resolved D from_bytes lower ctx x s).0
  unfolding handle_messages resolved
  one_round x rounds r r' w w' s reads writes = rw (reads, handle_messages, writes) refl

  -- The queries of a connection, whose bytes come in time one after the other, are all answered: what is
  -- written is the handler's response to each, in the order of the queries, framed by its length, and
  -- has the query's identifier. The loop then goes on with what comes after them.
  pub handle_messages-answers :
      (xs : List (Exchanged D)) (rounds : List (Round D)) (r : R) (w : W) (s : Stores D)
      → ((bytes : List ℕ) (w : W) → (w' : W) × (write_frame tokio bytes w ≡ ok w'))
      → Passes D from_bytes lower ctx xs s
      → ((w' : W) × (handle_messages D tokio from_bytes lower ctx
              (map (λ (x : Exchanged D). x.round) xs ++ rounds)
              (tokio.before (frames (λ (x : Exchanged D). x.query_bytes) xs) r)
              w
              s
            ≡ handle_messages D tokio from_bytes lower ctx rounds r w'
                (answer_all D from_bytes lower ctx xs s).0)
          × (tokio.sent w' ≡ tokio.sent w ++ frames (λ (x : Exchanged D). x.response_bytes) xs))
        × (map (λ m. (view m).id) (answer_all D from_bytes lower ctx xs s).1
            ≡ map (λ (x : Exchanged D). (view x.query).id) xs)
  unfolding answer_all resolved
  handle_messages-answers [] rounds r w s writes h =
      ((w, rw (tokio.before-nil r) refl, sym (append-nil (tokio.sent w))), refl)
  handle_messages-answers (x ∷ xs) rounds r w s writes
        (decoded, some_bytes, fits, encoded, in_time, h) =
      let (w1, wrote) = writes x.response_bytes w in
      let sends =
        written (resolved D from_bytes lower ctx x s).1 x.response_bytes x.round.late w w1 encoded
          in_time wrote in
      let later = frames (λ (y : Exchanged D). y.query_bytes) xs in
      let reads =
        read_message-framed tokio from_bytes x.query x.query_bytes later r decoded some_bytes
          fits in
      let ((w2, goes_on, sent), ids) =
        handle_messages-answers xs rounds r w1 (resolved D from_bytes lower ctx x s).0 writes h in
      (
        (
          w2,
          one_round x _ _ (tokio.before later r) w w1 s reads sends ∙ goes_on,
          sent
              ∙ ap (λ start. start ++ frames (λ (y : Exchanged D). y.response_bytes) xs)
                  (sent-write_message tokio D.to_bytes (resolved D from_bytes lower ctx x s).1
                    x.response_bytes x.round.late w w1 encoded sends)
              ∙ append_assoc (tokio.sent w) (framed x.response_bytes) _,
        ),
        ap
              (λ n.
                n
                ∷ map (λ m. (view m).id)
                    (answer_all D from_bytes lower ctx xs
                      (resolved D from_bytes lower ctx x s).0).1)
              (resolve_with_context-id D lower x.round.ask ctx x.round.clock x.query
                (x.round.others s))
            ∙ ap (◌∷◌ ((view x.query).id)) ids,
      )
