-- ===== src/Server/Pending/Soundness.antt =====
-- src/server.rs, `PendingQueries::query`: what a caller finds, and what is so after any steps.
use dotdns.Prelude.{
  ℕ, ◌≡◌, refl, sym, ap, ◌∙◌, inl, inr, Bool, false, List, none, some, some_inj, ok, get_elem?,
}
use mathlib.Core.Path.{subst}
use dotdns.Dns.{Dns}
use dotdns.Map.{lookup}
use dotdns.Metrics.{MetricsRecorder}
use dotdns.Server.Pending.{
  Outcome, Stage, entered, querying, answered, holding, over, Slot, joined, waiting, returned,
  dropped, Caller, PendingQueries, new_pending, set_caller, count, follow, Awaited, resolved,
  closed, elapsed, conclude, return, Unsent, Finds, value, hang_up, expire, Step, asks, starts,
  follows, finishes, takes_out, sends, returns, leaves, counts, Reach, here, next,
}
use dotdns.Server.Pending.Invariant.{IsListed, Fair, Staged, Called, Sound, set_caller-Sound}
use dotdns.Server.Pending.Steps.{ask-Sound, start-Sound, finish-Sound, take_out-Sound, send-Sound}
use dotdns.Text.{eq_text}

not_found : {A : Type 0} {a : A} → none ≡ some a → ⊥
not_found h = cc

module _ (D : Dns) (Answers : D.Message → Outcome D → Type 0) where
  open D use {Message}

  abbrev Good : PendingQueries D → Type 0
  Good w = Sound D Answers w

  -- What the channel holds is an answer to the query of its leader.
  value-Answers :
      (inner : List (List ℕ × ℕ)) (ch : ℕ) (slot : Slot D) (stage : Stage D) (result : Outcome D)
      → Staged D Answers inner ch slot stage
      → slot.value ≡ some result
      → Answers slot.query result
  value-Answers inner ch slot entered result h v = cc
  value-Answers inner ch slot querying result h v = cc
  value-Answers inner ch slot (answered r) result (f, u, a) v = cc
  value-Answers inner ch slot (holding tx r) result (f, u, a) v = cc
  value-Answers inner ch slot over result (r, u, a) v = rw (some_inj (sym v ∙ u)) a

  -- As long as nothing was sent, somebody holds the sender.
  not-Unsent :
      (w : PendingQueries D) (ch : ℕ) (slot : Slot D) (stage : Stage D)
      → get_elem? w.slots ch ≡ some slot
      → slot.stage ≡ stage
      → Staged D Answers w.inner ch slot stage
      → slot.value ≡ none
      → ¬ Unsent D ch w
  not-Unsent w ch slot entered at e (f, u) v (table, tasks) = table slot.key f
  not-Unsent w ch slot querying at e (f, u) v (table, tasks) = table slot.key f
  not-Unsent w ch slot (answered r) at e (f, u, a) v (table, tasks) = table slot.key f
  not-Unsent w ch slot (holding tx r) at e (f, u, a) v (table, tasks) =
      tasks ch slot r at (e ∙ ap (λ t. holding t r) f)
  not-Unsent w ch slot over at e (r, u, a) v (table, tasks) = cc

  module _ (w : PendingQueries D) (s : Good w) (i ch : ℕ) (c : Caller D)
      (at : get_elem? w.callers i ≡ some c) where
    follow-Sound : c.stage ≡ joined ch → Good (follow D i ch w)
    unfolding follow set_caller count
    follow-Sound e =
        set_caller-Sound D Answers s i c (waiting false ch) at
          (subst (Called D Answers w.slots c.query) e (s.called i c at))

    module _ (leader : Bool) (e : c.stage ≡ waiting leader ch) where
      pub found-Fair :
          (awaited : Awaited D)
          → Finds D w ch awaited
          → Fair D Answers c.query (conclude D leader awaited).1
      unfolding conclude
      found-Fair (resolved result) (value slot _ there v) =
          let (x, known, k) = subst (Called D Answers w.slots c.query) e (s.called i c at) in
          let same : x ≡ slot = some_inj (sym known ∙ there) in
          inr (
            inr (
              slot.query,
              (slot.key, k ∙ ap ok (ap (λ (y : Slot D). y.key) same), s.keyed ch slot there),
              value-Answers w.inner ch slot slot.stage result (s.staged ch slot there) v,
            ))
      found-Fair closed (hang_up slot there v gone) =
          absurd (not-Unsent w ch slot slot.stage there refl (s.staged ch slot there) v gone)
      found-Fair elapsed expire = inl refl

      return-Sound :
          (awaited : Awaited D) → Finds D w ch awaited → Good (return D i leader awaited w)
      unfolding return set_caller count
      return-Sound awaited f =
          set_caller-Sound D Answers s i c (returned (conclude D leader awaited).1) at
            (found-Fair awaited f)

      leave-Sound : Good (set_caller D i (dropped leader) w)
      unfolding set_caller
      leave-Sound = set_caller-Sound D Answers s i c (dropped leader) at tt

  listed-found :
      (inner : List (List ℕ × ℕ)) (j : ℕ) (slot : Slot D) (stage : Stage D)
      → Staged D Answers inner j slot stage
      → IsListed D Answers stage
      → lookup eq_text slot.key inner ≡ some j
  listed-found inner j slot entered h l = h.0
  listed-found inner j slot querying h l = h.0
  listed-found inner j slot (answered r) h l = h.0
  listed-found inner j slot (holding tx r) h l = absurd l
  listed-found inner j slot over h l = absurd l

  pub Step-Sound : {w u : PendingQueries D} → Step D Answers w u → Good w → Good u
  unfolding count
  Step-Sound {w} (asks query) s = ask-Sound D Answers query w s
  Step-Sound {w} (starts ch slot at e) s = start-Sound D Answers w s ch slot at e
  Step-Sound {w} (follows i ch c at e) s = follow-Sound w s i ch c at e
  Step-Sound {w} (finishes ch slot result at e a) s =
      finish-Sound D Answers w s ch slot at result e a
  Step-Sound {w} (takes_out ch slot result at e) s =
      take_out-Sound D Answers w s ch slot at result e
  Step-Sound {w} (sends ch slot tx result at e) s = send-Sound D Answers w s ch slot at tx result e
  Step-Sound {w} (returns i ch leader awaited c at e f) s =
      return-Sound w s i ch c at leader e awaited f
  Step-Sound {w} (leaves i ch leader c at e) s = leave-Sound w s i ch c at leader e
  Step-Sound {w} (counts m p q) s = s

  new_pending-Sound : (m : MetricsRecorder) → Good (new_pending D m)
  unfolding new_pending lookup
  new_pending-Sound m = record {
    distinct = tt;
    mapped = λ key ch g. absurd (not_found g);
    keyed = λ j slot g. absurd (not_found g);
    staged = λ j slot g. absurd (not_found g);
    called = λ i c g. absurd (not_found g);
  }

  pub Reach-Sound :
      (m : MetricsRecorder) {w : PendingQueries D} → Reach D Answers (new_pending D m) w → Good w
  Reach-Sound m here = new_pending-Sound m
  Reach-Sound m (next r st) = Step-Sound st (Reach-Sound m r)

  -- At most one query to the upstreams is in flight for a question: of the tasks that have not yet
  -- taken their sender out of the table, no two have the same key. Each entry of the table belongs to
  -- such a task, so that none is left behind when the tasks are over.
  pub Reach-single :
      (m : MetricsRecorder) {w : PendingQueries D}
      → Reach D Answers (new_pending D m) w
      → ((i j : ℕ) (x y : Slot D)
          → get_elem? w.slots i ≡ some x
          → get_elem? w.slots j ≡ some y
          → IsListed D Answers x.stage
          → IsListed D Answers y.stage
          → x.key ≡ y.key
          → i ≡ j)
        × ((key : List ℕ) (ch : ℕ)
            → lookup eq_text key w.inner ≡ some ch
            → (x : Slot D) × (get_elem? w.slots ch ≡ some x)
              × (x.key ≡ key)
              × IsListed D Answers x.stage)
  Reach-single m {w} r =
      let s = Reach-Sound m r in
      (
        λ i j x y at at' l l' e. some_inj (
            sym (listed-found w.inner i x x.stage (s.staged i x at) l)
            ∙ ap (λ k. lookup eq_text k w.inner) e
            ∙ listed-found w.inner j y y.stage (s.staged j y at') l'),
        s.mapped,
      )
