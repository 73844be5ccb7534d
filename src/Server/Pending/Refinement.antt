-- ===== src/Server/Pending/Refinement.antt =====
-- src/server.rs, `PendingQueries::query`: what it promises to its callers, with no table, channels or
-- tasks in sight.
use dotdns.Prelude.{
  ℕ, ◌≡◌, refl, sym, ap, ◌∙◌, inl, inr, List, [], ◌∷◌, ◌++◌, Option, none, some, err, Result-cases,
  Option-cases, get_elem?, modify, map, map-append_one, get_elem?-map, map-modify, modify_same,
  length, true, false,
}
use dotdns.Dns.{Dns}
use dotdns.Map.{lookup}
use dotdns.Metrics.{MetricsRecorder}
use dotdns.Server.Pending.{
  Outcome, CallStage, joined, waiting, returned, dropped, Caller, PendingQueries, new_pending, call,
  enter, open_channel, ask, set_slot, set_caller, count, start, follow, finish, take_out, send_to,
  send, conclude, return, Step, asks, starts, follows, finishes, takes_out, sends, returns, leaves,
  counts, Reach, here, next,
}
use dotdns.Server.Pending.Invariant.{Fair, Sound}
use dotdns.Server.Pending.Soundness.{found-Fair, Reach-Sound}
use dotdns.Server.Resolve.{pending_key}
use dotdns.Text.{eq_text}
use dotdns.Upstream.{serialization}

module _ (D : Dns) where
  open D use {Message}

  -- A call is open, has returned a result, or was dropped by its caller.
  pub data Fate : Type 0 where
    open_call dropped_call : Fate
    result : Outcome D → Fate

  pub record Call : Type 0 where
    pub query : Message
    pub fate : Fate

  abbrev pub decide_call : ℕ → Fate → List Call → List Call
  decide_call i fate calls = modify i (λ (c : Call). record c { fate = fate }) calls

  -- The abstract service: each call is answered by itself, with an answer of the upstreams to its own
  -- question, with the error of its own encoding or with a time-out, or it is dropped.
  module _ (Answers : Message → Outcome D → Type 0) where
    pub data Serves (calls : List Call) : List Call → Type 0 where
      opens : (q : Message) → Serves calls (calls ++ (record { query = q; fate = open_call } ∷ []))
      rejects :
          (q : Message) (e : List ℕ)
          → pending_key D q ≡ err e
          → Serves calls
              (calls ++ (record { query = q; fate = result (err (serialization e)) } ∷ []))
      decides :
          (i : ℕ) (c : Call) (r : Outcome D)
          → get_elem? calls i ≡ some c
          → c.fate ≡ open_call
          → Fair D Answers c.query r
          → Serves calls (decide_call i (result r) calls)
      drops :
          (i : ℕ) (c : Call)
          → get_elem? calls i ≡ some c
          → c.fate ≡ open_call
          → Serves calls (decide_call i dropped_call calls)

    pub data Served : List Call → Type 0 where
      nothing : Served []
      then : {calls calls' : List Call} → Served calls → Serves calls calls' → Served calls'

  fate_of : CallStage D → Fate
  fate_of (joined ch) = open_call
  fate_of (waiting leader ch) = open_call
  fate_of (returned r) = result r
  fate_of (dropped leader) = dropped_call

  view_call : Caller D → Call
  unfolding fate_of
  view_call c = record { query = c.query; fate = fate_of c.stage }

  -- What the callers see.
  pub calls_of : PendingQueries D → List Call
  unfolding view_call
  calls_of w = map view_call w.callers

  calls-call :
      (q : Message) (stage : CallStage D) (w : PendingQueries D)
      → calls_of (call D q stage w)
        ≡ calls_of w ++ (record { query = q; fate = fate_of stage } ∷ [])
  unfolding calls_of call
  calls-call q stage w = map-append_one view_call w.callers (record { query = q; stage = stage })

  calls-set_caller :
      (i : ℕ) (stage : CallStage D) (w : PendingQueries D)
      → calls_of (set_caller D i stage w) ≡ decide_call i (fate_of stage) (calls_of w)
  unfolding calls_of set_caller
  calls-set_caller i stage w = map-modify view_call i _ _ w.callers (λ x. refl)

  module _ (Answers : Message → Outcome D → Type 0) where
    serve_call :
        (q : Message) (stage : CallStage D) (w : PendingQueries D)
        → Serves Answers
            (calls_of w)
            (calls_of w ++ (record { query = q; fate = fate_of stage } ∷ []))
        → Served Answers (calls_of w)
        → Served Answers (calls_of (call D q stage w))
    serve_call q stage w step s = rw (calls-call q stage w) (then s step)

    decide_caller :
        (i : ℕ) (c : Caller D) (stage : CallStage D) (w : PendingQueries D)
        → Serves Answers (calls_of w) (decide_call i (fate_of stage) (calls_of w))
        → Served Answers (calls_of w)
        → Served Answers (calls_of (set_caller D i stage w))
    decide_caller i c stage w step s = rw (calls-set_caller i stage w) (then s step)

    ask-Served :
        (q : Message) (w : PendingQueries D)
        → Served Answers (calls_of w)
        → Served Answers (calls_of (ask D q w))
    unfolding ask enter open_channel fate_of calls_of
    ask-Served q w s = elim (Result-cases (pending_key D q)) [
      | inr (e, p) ↦
          rw (p, ask) (serve_call q (returned (err (serialization e))) w (rejects q e p) s)
      | inl (key, p) ↦ elim (Option-cases (lookup eq_text key w.inner)) [
        | inr (ch, found) ↦ rw (p, ask) (rw (found, enter) (serve_call q (joined ch) w (opens q) s))
        | inl absent ↦
            rw (p, ask)
              (rw (absent, enter)
                (serve_call q (waiting true (length w.slots)) (open_channel D key q w) (opens q) s))
      ]
    ]

    waiting-open :
        (w : PendingQueries D) (i : ℕ) (c : Caller D)
        → get_elem? w.callers i ≡ some c
        → get_elem? (calls_of w) i ≡ some (view_call c)
    unfolding calls_of
    waiting-open w i c at = get_elem?-map view_call w.callers i c at

    calls-follow :
        (w : PendingQueries D) (i ch : ℕ) (c : Caller D)
        → get_elem? w.callers i ≡ some c
        → c.stage ≡ joined ch
        → calls_of (follow D i ch w) ≡ calls_of w
    unfolding follow count calls_of view_call fate_of
    calls-follow w i ch c at e =
        calls-set_caller i (waiting false ch) w
        ∙ modify_same i _ (calls_of w) (view_call c) (waiting-open w i c at) (
            ap (λ (f : Fate). let x : Call = record { query = c.query; fate = f } in x)
              (ap fate_of (sym e)))

    calls-send :
        (w : PendingQueries D) (ch : ℕ) (tx : Option ℕ) (r : Outcome D)
        → calls_of (send D ch tx r w) ≡ calls_of w
    unfolding calls_of send send_to set_slot
    calls-send w ch none r = refl
    calls-send w ch (some t) r = refl

    Step-Served :
        {w u : PendingQueries D}
        → Step D Answers w u
        → Sound D Answers w
        → Served Answers (calls_of w)
        → Served Answers (calls_of u)
    unfolding start follow finish take_out send send_to set_slot count return conclude view_call
        fate_of calls_of
    Step-Served {w} (asks q) sound s = ask-Served q w s
    Step-Served {w} (starts ch slot at e) sound s = s
    Step-Served {w} (follows i ch c at e) sound s = rw (calls-follow w i ch c at e) s
    Step-Served {w} (finishes ch slot r at e a) sound s = s
    Step-Served {w} (takes_out ch slot r at e) sound s = s
    Step-Served {w} (sends ch slot tx r at e) sound s = rw (calls-send w ch tx r) s
    Step-Served {w} (returns i ch leader awaited c at e f) sound s =
        decide_caller i c (returned (conclude D leader awaited).1)
          (count D (conclude D leader awaited).0 w)
          (decides i (view_call c) _ (waiting-open w i c at) (ap fate_of e)
            (found-Fair D Answers w sound i ch c at leader e awaited f))
          s
    Step-Served {w} (leaves i ch leader c at e) sound s =
        decide_caller i c (dropped leader) w
          (drops i (view_call c) (waiting-open w i c at) (ap fate_of e)) s
    Step-Served {w} (counts m p q) sound s = s

    -- Sharing is not observable: whatever the callers, the tasks and the time-outs do, and whoever is
    -- dropped, each call gets what a service without sharing may give it, an answer of the upstreams
    -- to the same question (with an id that may differ), the error of its own encoding or a time-out,
    -- and gets it once. No caller is told that its request was cancelled.
    pub calls-Served :
        (m : MetricsRecorder) {w : PendingQueries D}
        → Reach D Answers (new_pending D m) w
        → Served Answers (calls_of w)
    unfolding calls_of new_pending
    calls-Served m here = nothing
    calls-Served m (next r st) = Step-Served st (Reach-Sound D Answers m r) (calls-Served m r)
