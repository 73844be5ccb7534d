-- ===== src/Tests/Sharing.antt =====
-- The pending queries of src/server.rs at work: a second caller joins the query of the first, a third
-- leaves while it waits, and the first two get the answer.
use dotdns.Prelude.{ℕ, ◌≡◌, refl, false, List, [], ◌∷◌, some, ok, get_elem?}
use dotdns.Dns.{View}
use dotdns.Map.{lookup, insert, remove}
use dotdns.Metrics
use dotdns.Samples.{types, sample, question, answer}
use dotdns.Server.Pending.{
  Outcome, PendingQueries, new_pending, Reach, here, next, asks, starts, follows, finishes,
  takes_out, sends, returns, leaves, value, resolved, ask, enter, open_channel, call, start, follow,
  finish, take_out, send, send_to, return, set_caller, set_slot, count, Slot, set_stage, set_value,
  dropped,
}
use dotdns.Server.Pending.Refinement.{calls_of, Served, calls-Served}
use dotdns.Server.Pending.Gauges.{Gauged, Reach-Gauged}
use dotdns.Server.Pending.Invariant.{IsListed}
use dotdns.Server.Pending.Soundness.{Reach-single}
use dotdns.Server.Resolve.{pending_key}
use dotdns.Text.{eq_text}

abbrev Answered : View types → Outcome sample → Type 0
Answered q result = result ≡ ok answer

abbrev start_state : PendingQueries sample
start_state = new_pending sample (Metrics.new 0)

abbrev asked : PendingQueries sample
asked = ask sample question (ask sample question (ask sample question start_state))

abbrev joined_all : PendingQueries sample
joined_all = follow sample 2 0 (follow sample 1 0 (start sample 0 asked))

abbrev after_leaving : PendingQueries sample
after_leaving = set_caller sample 2 (dropped false) joined_all

abbrev done : PendingQueries sample
done =
    send sample 0 (some 0) (ok answer)
      (take_out sample 0 (0 ∷ []) (ok answer) (finish sample 0 (ok answer) after_leaving))

abbrev end : PendingQueries sample
end = return sample 1 false (resolved (ok answer)) done

until_joined : Reach sample Answered start_state joined_all
unfolding new_pending ask enter open_channel call start follow set_caller set_slot count pending_key
    lookup insert eq_text set_stage
until_joined =
    next
      (next
        (next (next (next (next here (asks question)) (asks question)) (asks question))
          (starts 0 _ refl refl))
        (follows 1 0 _ refl refl))
      (follows 2 0 _ refl refl)

history : Reach sample Answered start_state end
unfolding new_pending ask enter open_channel call start follow finish take_out send send_to return
    set_caller set_slot count pending_key lookup insert remove eq_text set_stage set_value
history =
    next
      (next
        (next
          (next (next until_joined (leaves 2 0 false _ refl refl))
            (finishes 0 _ (ok answer) refl refl refl))
          (takes_out 0 _ (ok answer) refl refl))
        (sends 0 _ (some 0) (ok answer) refl refl))
      (returns 1 0 false (resolved (ok answer)) _ refl refl (value _ (ok answer) refl refl))

calls-Served_example : Served sample Answered (calls_of sample end)
calls-Served_example = calls-Served sample Answered (Metrics.new 0) history

Reach-Gauged_example : Gauged sample end
Reach-Gauged_example = Reach-Gauged sample Answered (Metrics.new 0) refl refl history

Reach-single_example :
    ((i j : ℕ) (x y : Slot sample)
      → get_elem? joined_all.slots i ≡ some x
      → get_elem? joined_all.slots j ≡ some y
      → IsListed sample Answered x.stage
      → IsListed sample Answered y.stage
      → x.key ≡ y.key
      → i ≡ j)
    × ((key : List ℕ) (ch : ℕ)
        → lookup eq_text key joined_all.inner ≡ some ch
        → (x : Slot sample) × (get_elem? joined_all.slots ch ≡ some x)
          × (x.key ≡ key)
          × IsListed sample Answered x.stage)
Reach-single_example = Reach-single sample Answered (Metrics.new 0) until_joined
