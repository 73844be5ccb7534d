-- ===== src/Server/Pending.antt =====
-- src/server.rs, `PendingQueries::query`: callers that ask the same question at the same time share
-- one query to the upstreams. A `Slot` is one `watch::channel` together with the task that its leader
-- spawns; the number of a channel is its place in `slots`. The callers and the tasks run concurrently:
-- a step is what one of them does between two points at which others may run. That a spawned task
-- runs to its end and does not panic is assumed; the leader's caller may give up or be dropped at any
-- time, also before its task starts, which the source rules out.
pub mod Invariant
pub mod Table
pub mod Steps
pub mod Gauges
pub mod Soundness
pub mod Refinement
use dotdns.Prelude.{
  ℕ, ◌≡◌, ◌≢◌, Bool, true, false, List, [], ◌∷◌, ◌++◌, Option, none, some, Result, ok, err, length,
  get_elem?, modify, if◌then◌else◌,
}
use dotdns.Dns.{Dns}
use dotdns.Map.{lookup, insert, remove}
use dotdns.Metrics
use dotdns.Metrics.{MetricsRecorder}
use dotdns.Server.Resolve.{pending_key}
use dotdns.Text.{codes, eq_text}
use dotdns.Upstream.{UpstreamError, network, timeout, serialization}

module _ (D : Dns) where
  open D use {Message}

  -- `PendingResult`
  abbrev pub Outcome : Type 0
  Outcome = Result UpstreamError Message

  -- The leader's task: spawned, in `pool.query`, with its result, with the sender that it took out of
  -- the table, at its end.
  pub data Stage : Type 0 where
    entered querying : Stage
    answered : Outcome → Stage
    holding : Option ℕ → Outcome → Stage
    over : Stage

  pub record Slot : Type 0 where
    pub key : List ℕ
    pub query : Message
    pub stage : Stage
    pub value : Option Outcome

  -- `joined` is a follower before it is counted; `waiting` says whether it is the leader.
  pub data CallStage : Type 0 where
    joined : ℕ → CallStage
    waiting : Bool → ℕ → CallStage
    returned : Outcome → CallStage
    dropped : Bool → CallStage

  pub record Caller : Type 0 where
    pub query : Message
    pub stage : CallStage

  pub record PendingQueries : Type 0 where
    pub inner : List (List ℕ × ℕ)
    pub metrics : MetricsRecorder
    pub slots : List Slot
    pub callers : List Caller

  unfoldable pub new_pending : MetricsRecorder → PendingQueries
  new_pending metrics = record { inner = []; metrics = metrics; slots = []; callers = [] }

  unfoldable pub call : Message → CallStage → PendingQueries → PendingQueries
  call query stage w = record w {
    callers = w.callers ++ (record { query = query; stage = stage } ∷ []);
  }

  -- `watch::channel(None)`, and its entry in the table.
  unfoldable pub open_channel : List ℕ → Message → PendingQueries → PendingQueries
  open_channel key query w = record w {
    inner = insert eq_text key (length w.slots) w.inner;
    slots = w.slots ++ (record { key = key; query = query; stage = entered; value = none } ∷ []);
  }

  -- The section under the lock.
  unfoldable pub enter : List ℕ → Message → PendingQueries → PendingQueries
  unfolding call open_channel
  enter key query w = elim (lookup eq_text key w.inner) [
    | some ch ↦ call query (joined ch) w
    | none ↦ call query (waiting true (length w.slots)) (open_channel key query w)
  ]

  unfoldable pub ask : Message → PendingQueries → PendingQueries
  unfolding enter call
  ask query w = elim (pending_key D query) [
    | err e ↦ call query (returned (err (serialization e))) w
    | ok key ↦ enter key query w
  ]

  unfoldable pub set_slot : ℕ → (Slot → Slot) → PendingQueries → PendingQueries
  set_slot ch f w = record w { slots = modify ch f w.slots }

  unfoldable pub set_stage : Stage → Slot → Slot
  set_stage stage slot = record slot { stage = stage }

  unfoldable pub set_value : Outcome → Slot → Slot
  set_value result slot = record slot { value = some result }

  unfoldable pub set_caller : ℕ → CallStage → PendingQueries → PendingQueries
  set_caller i stage w = record w { callers = modify i (λ c. record c { stage = stage }) w.callers }

  unfoldable pub count : (MetricsRecorder → MetricsRecorder) → PendingQueries → PendingQueries
  count f w = record w { metrics = f w.metrics }

  -- The leader counts itself, and its task starts.
  unfoldable pub start : ℕ → PendingQueries → PendingQueries
  unfolding set_slot set_stage count
  start ch w = set_slot ch (set_stage querying) (count Metrics.record_pending_leader_started w)

  unfoldable pub follow : ℕ → ℕ → PendingQueries → PendingQueries
  unfolding set_caller count
  follow i ch w = set_caller i (waiting false ch) (count Metrics.record_pending_follower_joined w)

  -- `pool.query` has returned.
  unfoldable pub finish : ℕ → Outcome → PendingQueries → PendingQueries
  unfolding set_slot set_stage count
  finish ch result w =
      set_slot ch (set_stage (answered result)) (count Metrics.record_pending_leader_completed w)

  unfoldable pub take_out : ℕ → List ℕ → Outcome → PendingQueries → PendingQueries
  unfolding set_slot set_stage
  take_out ch key result w =
      set_slot ch (set_stage (holding (lookup eq_text key w.inner) result))
        (record w { inner = remove eq_text key w.inner })

  unfoldable pub send_to : Option ℕ → Outcome → PendingQueries → PendingQueries
  unfolding set_slot set_value
  send_to none result w = w
  send_to (some tx) result w = set_slot tx (set_value result) w

  unfoldable pub send : ℕ → Option ℕ → Outcome → PendingQueries → PendingQueries
  unfolding set_slot set_stage send_to
  send ch tx result w = set_slot ch (set_stage over) (send_to tx result w)

  -- What the wait for the channel gives: a value, no more sender, or the time-out.
  pub data Awaited : Type 0 where
    resolved : Outcome → Awaited
    closed elapsed : Awaited

  -- The last `match`: how it is counted, and what is returned.
  unfoldable pub conclude : Bool → Awaited → (MetricsRecorder → MetricsRecorder) × Outcome
  conclude leader (resolved result) =
      (if leader then (λ m. m) else Metrics.record_pending_follower_resolved, result)
  conclude leader closed = (
    if leader then (λ m. m) else Metrics.record_pending_follower_timeout,
    err (network (codes "pending upstream request was cancelled")),
  )
  conclude leader elapsed =
      (if leader then (λ m. m) else Metrics.record_pending_follower_timeout, err timeout)

  unfoldable pub return : ℕ → Bool → Awaited → PendingQueries → PendingQueries
  unfolding conclude set_caller count
  return i leader awaited w =
      let (counted, result) = conclude leader awaited in
      set_caller i (returned result) (count counted w)

  -- Nobody holds the sender of the channel: it is neither in the table nor with a task.
  abbrev pub Unsent : ℕ → PendingQueries → Type 0
  Unsent ch w =
      ((key : List ℕ) → lookup eq_text key w.inner ≢ some ch)
      × ((j : ℕ) (slot : Slot) (result : Outcome)
          → get_elem? w.slots j ≡ some slot
          → slot.stage ≢ holding (some ch) result)

  -- What a waiting caller may find.
  pub data Finds (w : PendingQueries) (ch : ℕ) : Awaited → Type 0 where
    value :
        (slot : Slot) (result : Outcome)
        → get_elem? w.slots ch ≡ some slot
        → slot.value ≡ some result
        → Finds w ch (resolved result)
    hang_up :
        (slot : Slot)
        → get_elem? w.slots ch ≡ some slot
        → slot.value ≡ none
        → Unsent ch w
        → Finds w ch closed
    expire : Finds w ch elapsed

  -- `Answers query result`: the pool may answer the query with that result.
  module _ (Answers : Message → Outcome → Type 0) where
    pub data Step (w : PendingQueries) : PendingQueries → Type 0 where
      asks : (query : Message) → Step w (ask query w)
      starts :
          (ch : ℕ) (slot : Slot)
          → get_elem? w.slots ch ≡ some slot
          → slot.stage ≡ entered
          → Step w (start ch w)
      follows :
          (i ch : ℕ) (c : Caller)
          → get_elem? w.callers i ≡ some c
          → c.stage ≡ joined ch
          → Step w (follow i ch w)
      finishes :
          (ch : ℕ) (slot : Slot) (result : Outcome)
          → get_elem? w.slots ch ≡ some slot
          → slot.stage ≡ querying
          → Answers slot.query result
          → Step w (finish ch result w)
      takes_out :
          (ch : ℕ) (slot : Slot) (result : Outcome)
          → get_elem? w.slots ch ≡ some slot
          → slot.stage ≡ answered result
          → Step w (take_out ch slot.key result w)
      sends :
          (ch : ℕ) (slot : Slot) (tx : Option ℕ) (result : Outcome)
          → get_elem? w.slots ch ≡ some slot
          → slot.stage ≡ holding tx result
          → Step w (send ch tx result w)
      returns :
          (i ch : ℕ) (leader : Bool) (awaited : Awaited) (c : Caller)
          → get_elem? w.callers i ≡ some c
          → c.stage ≡ waiting leader ch
          → Finds w ch awaited
          → Step w (return i leader awaited w)
      -- The caller's own request is dropped while it waits.
      leaves :
          (i ch : ℕ) (leader : Bool) (c : Caller)
          → get_elem? w.callers i ≡ some c
          → c.stage ≡ waiting leader ch
          → Step w (set_caller i (dropped leader) w)
      -- Other parts of the server count.
      counts :
          (m : MetricsRecorder)
          → m.pending_leaders ≡ w.metrics.pending_leaders
          → m.pending_followers ≡ w.metrics.pending_followers
          → Step w (count (λ _. m) w)

    pub data Reach (w : PendingQueries) : PendingQueries → Type 0 where
      here : Reach w w
      next : {u v : PendingQueries} → Reach w u → Step u v → Reach w v
