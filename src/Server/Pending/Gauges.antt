-- ===== src/Server/Pending/Gauges.antt =====
-- src/server.rs, `PendingQueries::query`, and the gauges of src/metrics.rs: what `pending_leaders` and
-- `pending_followers` count.
use dotdns.Prelude.{
  ℕ, ◌+◌, ◌%◌, ◌^◌, ◌≡◌, refl, sym, ap, ◌∙◌, inl, inr, Bool, true, false, not, List, Option, none,
  some, Result-cases, Option-cases, get_elem?, modify, count_of, count_of-modify,
  count_of-modify_same, modify-at, count_of-append_one, if◌then◌else◌, arith, length, decr,
}
use dotdns.Dns.{Dns}
use dotdns.Map.{lookup}
use dotdns.Metrics
use dotdns.Metrics.{MetricsRecorder}
use dotdns.Server.Pending.{
  Outcome, Stage, entered, querying, answered, holding, over, Slot, CallStage, joined, waiting,
  returned, dropped, Caller, PendingQueries, new_pending, call, enter, open_channel, ask, set_slot,
  set_stage, set_value, set_caller, count, start, follow, finish, take_out, send_to, send, Awaited,
  resolved, closed, elapsed, conclude, return, Step, asks, starts, follows, finishes, takes_out,
  sends, returns, leaves, counts, Reach, here, next,
}
use dotdns.Server.Resolve.{pending_key}
use dotdns.Text.{eq_text}

module _ (D : Dns) where
  open D use {Message}

  is_querying_stage : Stage D → Bool
  is_querying_stage querying = true
  is_querying_stage _ = false

  -- The task of the slot is in its query to the upstreams.
  pub is_querying : Slot D → Bool
  unfolding is_querying_stage
  is_querying slot = is_querying_stage slot.stage

  follows_stage : CallStage D → Bool
  follows_stage (waiting leader ch) = not leader
  follows_stage (dropped leader) = not leader
  follows_stage _ = false

  -- The caller is a follower that waits, or that was dropped while it waited.
  pub is_following : Caller D → Bool
  unfolding follows_stage
  is_following c = follows_stage c.stage

  -- What the gauges show.
  pub record Gauged (w : PendingQueries D) : Type 0 where
    pub leaders : w.metrics.pending_leaders ≡ count_of is_querying w.slots % 2 ^ 64
    pub followers : w.metrics.pending_followers ≡ count_of is_following w.callers % 2 ^ 64

  -- One task moves on, or one caller.
  moved_slot :
      (ch : ℕ) (slot : Slot D) (old stage : Stage D) (slots : List (Slot D))
      → get_elem? slots ch ≡ some slot
      → slot.stage ≡ old
      → count_of is_querying (modify ch (set_stage D stage) slots)
          + (if is_querying_stage old then 1 else 0)
        ≡ count_of is_querying slots + (if is_querying_stage stage then 1 else 0)
  unfolding is_querying set_stage
  moved_slot ch slot old stage slots at e =
      rw e at (count_of-modify is_querying (set_stage D stage) ch slots slot at)

  moved_caller :
      (i : ℕ) (c : Caller D) (old stage : CallStage D) (callers : List (Caller D))
      → get_elem? callers i ≡ some c
      → c.stage ≡ old
      → count_of is_following (modify i (λ (x : Caller D). record x { stage = stage }) callers)
          + (if follows_stage old then 1 else 0)
        ≡ count_of is_following callers + (if follows_stage stage then 1 else 0)
  unfolding is_following
  moved_caller i c old stage callers at e =
      rw e at
        (count_of-modify is_following (λ (x : Caller D). record x { stage = stage }) i callers c at)

  call-Gauged :
      (q : Message) (stage : CallStage D) (w : PendingQueries D)
      → follows_stage stage ≡ false
      → Gauged w
      → Gauged (call D q stage w)
  unfolding call is_following
  call-Gauged q stage w h g = record {
    leaders = g.leaders;
    followers =
        g.followers
        ∙ ap (λ n. n % 2 ^ 64)
            (sym (
              count_of-append_one is_following w.callers (record { query = q; stage = stage })
              ∙ rw h (omega arith)));
  }

  open_channel-Gauged :
      (key : List ℕ) (q : Message) (w : PendingQueries D)
      → Gauged w
      → Gauged (open_channel D key q w)
  unfolding open_channel is_querying
  open_channel-Gauged key q w g = record {
    leaders =
        g.leaders
        ∙ ap (λ n. n % 2 ^ 64) (sym (count_of-append_one is_querying w.slots _ ∙ (omega arith)));
    followers = g.followers;
  }

  ask-Gauged : (q : Message) (w : PendingQueries D) → Gauged w → Gauged (ask D q w)
  unfolding ask enter follows_stage
  ask-Gauged q w g = elim (Result-cases (pending_key D q)) [
    | inr (e, p) ↦ rw (p, ask) (call-Gauged q _ w refl g)
    | inl (key, p) ↦ elim (Option-cases (lookup eq_text key w.inner)) [
      | inr (ch, found) ↦ rw (p, ask) (rw (found, enter) (call-Gauged q (joined ch) w refl g))
      | inl absent ↦
          rw (p, ask)
            (rw (absent, enter)
              (call-Gauged q (waiting true (length w.slots)) (open_channel D key q w) refl
                (open_channel-Gauged key q w g)))
    ]
  ]

  conclude-gauges :
      (leader : Bool) (awaited : Awaited D) (m : MetricsRecorder)
      → (((conclude D leader awaited).0 m).pending_leaders ≡ m.pending_leaders)
        × (((conclude D leader awaited).0 m).pending_followers
            ≡ (if leader then m.pending_followers else decr m.pending_followers))
  unfolding conclude Metrics.record_pending_follower_resolved
      Metrics.record_pending_follower_timeout
  conclude-gauges true (resolved r) m = (refl, refl)
  conclude-gauges true closed m = (refl, refl)
  conclude-gauges true elapsed m = (refl, refl)
  conclude-gauges false (resolved r) m = (refl, refl)
  conclude-gauges false closed m = (refl, refl)
  conclude-gauges false elapsed m = (refl, refl)

  -- One follower fewer.
  one_fewer :
      (leader : Bool) (gauge n n' : ℕ)
      → n' + (if not leader then 1 else 0) ≡ n + 0
      → gauge ≡ n % 2 ^ 64
      → (if leader then gauge else decr gauge) ≡ n' % 2 ^ 64
  one_fewer true gauge n n' moved h = omega arith
  one_fewer false gauge n n' moved h = omega arith

  module _ (w : PendingQueries D) (g : Gauged w) where
    start-Gauged :
        (ch : ℕ) (slot : Slot D)
        → get_elem? w.slots ch ≡ some slot
        → slot.stage ≡ entered
        → Gauged (start D ch w)
    unfolding start set_slot count Metrics.record_pending_leader_started is_querying_stage
    start-Gauged ch slot at e =
        let moved = moved_slot ch slot entered querying w.slots at e in
        record { leaders = omega (arith, moved, g.leaders); followers = g.followers }

    follow-Gauged :
        (i ch : ℕ) (c : Caller D)
        → get_elem? w.callers i ≡ some c
        → c.stage ≡ joined ch
        → Gauged (follow D i ch w)
    unfolding follow set_caller count Metrics.record_pending_follower_joined follows_stage
    follow-Gauged i ch c at e =
        let moved = moved_caller i c (joined ch) (waiting false ch) w.callers at e in
        record { leaders = g.leaders; followers = omega (arith, moved, g.followers) }

    finish-Gauged :
        (ch : ℕ) (slot : Slot D) (r : Outcome D)
        → get_elem? w.slots ch ≡ some slot
        → slot.stage ≡ querying
        → Gauged (finish D ch r w)
    unfolding finish set_slot count Metrics.record_pending_leader_completed is_querying_stage
    finish-Gauged ch slot r at e =
        let moved = moved_slot ch slot querying (answered r) w.slots at e in
        record { leaders = omega (arith, moved, g.leaders); followers = g.followers }

    take_out-Gauged :
        (ch : ℕ) (slot : Slot D) (r : Outcome D)
        → get_elem? w.slots ch ≡ some slot
        → slot.stage ≡ answered r
        → Gauged (take_out D ch slot.key r w)
    unfolding take_out set_slot is_querying_stage
    take_out-Gauged ch slot r at e =
        let stage : Stage D = holding (lookup eq_text slot.key w.inner) r in
        let moved = moved_slot ch slot (answered r) stage w.slots at e in
        record { leaders = omega (arith, moved, g.leaders); followers = g.followers }

    -- A value that is set leaves the tasks where they are.
    send_to-querying :
        (tx : Option ℕ) (r : Outcome D)
        → count_of is_querying (send_to D tx r w).slots ≡ count_of is_querying w.slots
    unfolding send_to set_slot set_value is_querying
    send_to-querying none r = refl
    send_to-querying (some t) r = count_of-modify_same is_querying _ t w.slots (λ x. refl)

    send_to-at :
        (tx : Option ℕ) (r : Outcome D) (ch : ℕ) (slot : Slot D)
        → get_elem? w.slots ch ≡ some slot
        → (y : Slot D) × (get_elem? (send_to D tx r w).slots ch ≡ some y) × (y.stage ≡ slot.stage)
    unfolding send_to set_slot set_value
    send_to-at none r ch slot at = (slot, at, refl)
    send_to-at (some t) r ch slot at = elim (modify-at t ch (set_value D r) w.slots slot at) [
      | inl (e, there) ↦ (set_value D r slot, there, refl)
      | inr (n, there) ↦ (slot, there, refl)
    ]

    send_to-rest :
        (tx : Option ℕ) (r : Outcome D)
        → ((send_to D tx r w).metrics ≡ w.metrics) × ((send_to D tx r w).callers ≡ w.callers)
    unfolding send_to set_slot
    send_to-rest none r = (refl, refl)
    send_to-rest (some t) r = (refl, refl)

    send-Gauged :
        (ch : ℕ) (slot : Slot D) (tx : Option ℕ) (r : Outcome D)
        → get_elem? w.slots ch ≡ some slot
        → slot.stage ≡ holding tx r
        → Gauged (send D ch tx r w)
    unfolding send set_slot is_querying_stage
    send-Gauged ch slot tx r at e =
        let (y, there, same) = send_to-at tx r ch slot at in
        let moved = moved_slot ch y (holding tx r) over (send_to D tx r w).slots there (same ∙ e) in
        let (metrics, callers) = send_to-rest tx r in
        record {
          leaders = rw metrics (omega (arith, moved, send_to-querying tx r, g.leaders));
          followers = rw (metrics, callers) g.followers;
        }

    leave-Gauged :
        (i ch : ℕ) (leader : Bool) (c : Caller D)
        → get_elem? w.callers i ≡ some c
        → c.stage ≡ waiting leader ch
        → Gauged (set_caller D i (dropped leader) w)
    unfolding set_caller follows_stage
    leave-Gauged i ch leader c at e =
        let moved = moved_caller i c (waiting leader ch) (dropped leader) w.callers at e in
        record { leaders = g.leaders; followers = omega (arith, moved, g.followers) }

    return-Gauged :
        (i ch : ℕ) (leader : Bool) (awaited : Awaited D) (c : Caller D)
        → get_elem? w.callers i ≡ some c
        → c.stage ≡ waiting leader ch
        → Gauged (return D i leader awaited w)
    unfolding return set_caller count follows_stage
    return-Gauged i ch leader awaited c at e =
        let result = (conclude D leader awaited).1 in
        let moved = moved_caller i c (waiting leader ch) (returned result) w.callers at e in
        let (leaders, followers) = conclude-gauges leader awaited w.metrics in
        record {
          leaders = leaders ∙ g.leaders;
          followers = followers ∙ one_fewer leader _ _ _ moved g.followers;
        }

  Step-Gauged :
      (Answers : Message → Outcome D → Type 0) {w u : PendingQueries D}
      → Step D Answers w u
      → Gauged w
      → Gauged u
  unfolding count
  Step-Gauged A {w} (asks q) g = ask-Gauged q w g
  Step-Gauged A {w} (starts ch slot at e) g = start-Gauged w g ch slot at e
  Step-Gauged A {w} (follows i ch c at e) g = follow-Gauged w g i ch c at e
  Step-Gauged A {w} (finishes ch slot r at e a) g = finish-Gauged w g ch slot r at e
  Step-Gauged A {w} (takes_out ch slot r at e) g = take_out-Gauged w g ch slot r at e
  Step-Gauged A {w} (sends ch slot tx r at e) g = send-Gauged w g ch slot tx r at e
  Step-Gauged A {w} (returns i ch leader awaited c at e f) g =
      return-Gauged w g i ch leader awaited c at e
  Step-Gauged A {w} (leaves i ch leader c at e) g = leave-Gauged w g i ch leader c at e
  Step-Gauged A {w} (counts m p q) g = record {
    leaders = p ∙ g.leaders;
    followers = q ∙ g.followers;
  }

  -- From gauges at 0, `pending_leaders` is the number of tasks that are in a query to the upstreams, and
  -- `pending_followers` is that of the followers that wait together with all that were ever dropped while
  -- they waited, modulo 2^64.
  pub Reach-Gauged :
      (Answers : Message → Outcome D → Type 0) (m : MetricsRecorder) {w : PendingQueries D}
      → m.pending_leaders ≡ 0
      → m.pending_followers ≡ 0
      → Reach D Answers (new_pending D m) w
      → Gauged w
  unfolding new_pending
  Reach-Gauged A m l f here = record { leaders = l; followers = f }
  Reach-Gauged A m l f (next r st) = Step-Gauged A st (Reach-Gauged A m l f r)
