-- ===== src/Management/Exchange.antt =====
-- src/management.rs: a command of the client, over a connection, against the server.
use dotdns.Prelude.{ℕ, ◌≡◌, refl, ap, ◌∙◌, false, [], ◌∷◌, Result, ok, err, ◌>>=◌, map_err}
use dotdns.Dns.{Dns}
use dotdns.Management.{
  ManagementRequest, ManagementResponse, ManagementError, request, Json, TextWriter, write_line,
  Shared, Crates, dispatch, handle_line, handle_connection, send_response,
}
use dotdns.Management.Client.{Transport, read_response}
use dotdns.Management.Lines.{
  first_line, line-object, write_line-sent, IsReliable, read_response-object,
}
use dotdns.Text.{Text, trim, is_empty}

module _ {D : Dns} {F IoError HttpError W : Type 0} (crates : Crates F IoError HttpError)
    (io : TextWriter W) (requests : Json ManagementRequest) (responses : Json ManagementResponse)
    (new : W) where
  open crates use {fs, client, fetch, lower, display}

  -- What the client reads once the server is done with its line.
  reply :
      Shared D F × Result ManagementError W → Shared D F × Result ManagementError ManagementResponse
  reply (s, err e) = (s, read_response responses (ok []))
  reply (s, ok w) = (s, read_response responses (ok (first_line (io.sent w))))

  -- `send_request` to a server that nobody else uses meanwhile: the client's line is what the server
  -- reads, and the server's is what the client reads. `new` is a writer of a new connection.
  unfoldable pub send_over : ℕ → Transport (Shared D F)
  unfolding reply
  send_over now req s =
      elim (map_err request (requests.to_string req) >>= λ json. write_line io json new) [
        | err e ↦ (s, err e)
        | ok w ↦ reply (
            handle_connection crates io requests responses
              ((now, (λ x. x), ok (first_line (io.sent w))) ∷ []) s new)
      ]

  handle_line-request :
      (now : ℕ) (line t : Text) (req : ManagementRequest) (s : Shared D F) (w : W)
      → trim line ≡ t
      → is_empty t ≡ false
      → requests.from_str t ≡ ok req
      → handle_line crates io requests responses now line s w ≡ (
        (dispatch crates now req s).0,
        send_response io responses (dispatch crates now req s).1 w,
      )
  unfolding handle_line
  handle_line-request now line t req s w e full parsed = rw (handle_line, e, full, parsed) refl

  handle_connection-request :
      (now : ℕ) (line t : Text) (req : ManagementRequest) (s : Shared D F) (w w' : W)
      → trim line ≡ t
      → is_empty t ≡ false
      → requests.from_str t ≡ ok req
      → send_response io responses (dispatch crates now req s).1 w ≡ ok w'
      → handle_connection crates io requests responses ((now, (λ x. x), ok line) ∷ []) s w
        ≡ ((dispatch crates now req s).0, ok w')
  unfolding handle_connection
  handle_connection-request now line t req s w w' e full parsed sent =
      let h = handle_line-request now line t req s w e full parsed in
      rw (handle_connection, ap (λ (x : Shared D F × Result ManagementError W). x.1) h ∙ sent)
        (ap (λ (x : Shared D F × Result ManagementError W). (x.0, ok w')) h)

  -- A command that can be sent and answered is carried out, and the client gets the response to it.
  pub send_over-dispatch :
      (now : ℕ) (req : ManagementRequest) (s : Shared D F) (t t' : Text)
      → IsReliable io new
      → requests.to_string req ≡ ok t
      → responses.to_string (dispatch crates now req s).1 ≡ ok t'
      → send_over now req s ≡ ((dispatch crates now req s).0, ok (dispatch crates now req s).1)
  unfolding send_over send_response reply
  send_over-dispatch now req s t t' rel e e' =
      let (w, writes, sent) = write_line-sent io new rel t in
      let (line, trimmed, full, parsed) = line-object io requests req t w e sent in
      let resp = (dispatch crates now req s).1 in
      let (w', writes', sent') = write_line-sent io new rel t' in
      let (line', trimmed', full', parsed') = line-object io responses resp t' w' e' sent' in
      let told : send_response io responses resp new ≡ ok w' =
        rw (send_response, e', writes') refl in
      let served = handle_connection-request now _ t req s new w' trimmed full parsed told in
      rw (send_over, e, writes)
        (ap reply served
          ∙ ap (λ x. ((dispatch crates now req s).0, x))
              (read_response-object responses _ t' resp line' trimmed' full' parsed'))
