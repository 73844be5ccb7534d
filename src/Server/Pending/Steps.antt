-- ===== src/Server/Pending/Steps.antt =====
-- src/server.rs, `PendingQueries::query`: each step keeps the table, the channels and the callers
-- sound.
use dotdns.Prelude.{
  ℕ, ◌≡◌, refl, sym, ap, ◌∙◌, inl, inr, true, List, [], ◌∷◌, ◌++◌, Option, none, some, some_inj, ok,
  Result-cases, Option-cases, length, get_elem?, get_elem?-last, get_elem?-append, modify_twice,
  append_one-cases,
}
use mathlib.Core.Path.{subst}
use dotdns.Dns.{Dns}
use dotdns.Map.{lookup, insert, insert-Distinct, remove-Distinct}
use dotdns.Server.Pending.{
  Outcome, Stage, entered, querying, answered, holding, over, Slot, joined, waiting, Caller,
  PendingQueries, call, enter, open_channel, ask, set_slot, set_stage, set_value, count, start,
  finish, take_out, send_to, send,
}
use dotdns.Server.Pending.Invariant.{
  IsListed, Staged, IsSound, Sound, call-Sound, Called-Extends, Staged-inner, slot-Sound,
}
use dotdns.Server.Pending.Table.{found-insert, kept-insert, found_self, found-remove, kept-remove}
use dotdns.Server.Resolve.{pending_key}
use dotdns.Text.{eq_text}
use dotdns.Text.Laws.{text_Equality}

module _ (D : Dns) (Answers : D.Message → Outcome D → Type 0) where
  open D use {Message}

  abbrev Good : PendingQueries D → Type 0
  Good w = Sound D Answers w

  enter-new-Sound :
      (key : List ℕ) (query : Message) (inner : List (List ℕ × ℕ)) (slots : List (Slot D))
      (callers : List (Caller D))
      → IsSound D Answers inner slots callers
      → pending_key D query ≡ ok key
      → lookup eq_text key inner ≡ none
      → IsSound D Answers
          (insert eq_text key (length slots) inner)
          (slots ++ (record { key = key; query = query; stage = entered; value = none } ∷ []))
          callers
  enter-new-Sound key query inner slots callers s keyed absent =
      let new : Slot D = record { key = key; query = query; stage = entered; value = none } in
      record {
        distinct = insert-Distinct eq_text text_Equality key (length slots) inner s.distinct;
        mapped = λ k c g. elim (found-insert key k (length slots) c inner g) [
          | inl (e, p) ↦
              (new, ap (get_elem? (slots ++ (new ∷ []))) p ∙ get_elem?-last slots new, e, tt)
          | inr old ↦
              let (x, there, e, l) = s.mapped k c old in
              (x, get_elem?-append slots (new ∷ []) c x there, e, l)
        ];
        keyed = λ j y g. elim (append_one-cases slots new j y g) [
          | inl (e, p) ↦ rw p keyed
          | inr old ↦ s.keyed j y old
        ];
        staged = λ j y g. elim (append_one-cases slots new j y g) [
          | inl (e, p) ↦ rw (p, e) (found_self key (length slots) inner, refl)
          | inr old ↦
              Staged-inner D Answers inner _ j y y.stage
                (kept-insert key y.key (length slots) j inner absent) (s.staged j y old)
        ];
        called = λ i c g.
            Called-Extends D Answers slots _ c.query c.stage
              (λ ch x there. (x, get_elem?-append slots (new ∷ []) ch x there, refl))
              (s.called i c g);
      }

  pub ask-Sound : (query : Message) (w : PendingQueries D) → Good w → Good (ask D query w)
  unfolding ask enter open_channel call
  ask-Sound query w s = elim (Result-cases (pending_key D query)) [
    | inr (e, p) ↦ rw (p, ask) (call-Sound D Answers s query _ (inr (inl (e, p, refl))))
    | inl (key, p) ↦ elim (Option-cases (lookup eq_text key w.inner)) [
      | inr (ch, found) ↦
          let (slot, at, k, l) = s.mapped key ch found in
          rw (p, ask)
            (rw (found, enter)
              (call-Sound D Answers s query (joined ch) (slot, at, p ∙ ap ok (sym k))))
      | inl absent ↦
          rw (p, ask)
            (rw (absent, enter)
              (call-Sound D Answers (enter-new-Sound key query w.inner w.slots w.callers s p absent)
                query (waiting true (length w.slots)) (_, get_elem?-last w.slots _, p)))
    ]
  ]

  module _ (w : PendingQueries D) (s : Good w) (ch : ℕ) (slot : Slot D)
      (at : get_elem? w.slots ch ≡ some slot) where
    -- The channel that a key leads to.
    mapped-slot :
        (key : List ℕ) (c : ℕ)
        → lookup eq_text key w.inner ≡ some c
        → c ≡ ch
        → (slot.key ≡ key) × IsListed D Answers slot.stage
    mapped-slot key c g same =
        let (x, there, k, l) = s.mapped key c g in
        let e : x ≡ slot = some_inj (sym there ∙ ap (get_elem? w.slots) same ∙ at) in
        (rw (← e) k, rw (← e) l)

    -- The table is left as it is.
    stage-Sound :
        (stage : Stage D)
        → IsListed D Answers stage
        → Staged D Answers w.inner ch (set_stage D stage slot) stage
        → Good (set_slot D ch (set_stage D stage) w)
    unfolding set_slot set_stage
    stage-Sound stage listed h =
        slot-Sound D Answers s w.inner ch slot (set_stage D stage) at (λ x. (refl, refl)) s.distinct
          (λ key c g. (g, λ e. listed)) (λ j x n g. g) h

    pub start-Sound : slot.stage ≡ entered → Good (start D ch w)
    unfolding start count set_slot set_stage
    start-Sound e =
        stage-Sound querying tt (subst (Staged D Answers w.inner ch slot) e (s.staged ch slot at))

    pub finish-Sound :
        (result : Outcome D)
        → slot.stage ≡ querying
        → Answers slot.query result
        → Good (finish D ch result w)
    unfolding finish count set_slot set_stage
    finish-Sound result e a =
        let (found, unset) = subst (Staged D Answers w.inner ch slot) e (s.staged ch slot at) in
        stage-Sound (answered result) tt (found, unset, a)

    pub take_out-Sound :
        (result : Outcome D) → slot.stage ≡ answered result → Good (take_out D ch slot.key result w)
    unfolding take_out set_slot set_stage
    take_out-Sound result e =
        let (found, unset, a) = subst (Staged D Answers w.inner ch slot) e (s.staged ch slot at) in
        slot-Sound D Answers s _ ch slot _ at (λ x. (refl, refl))
          (remove-Distinct eq_text text_Equality slot.key w.inner s.distinct)
          (λ key c g.
            let (n, old) = found-remove slot.key key c w.inner s.distinct g in
            (old, λ same. n (mapped-slot key c old same).0))
          (λ j x n g.
            kept-remove slot.key x.key j w.inner s.distinct
              (λ same. n (some_inj (sym g ∙ ap (λ k. lookup eq_text k w.inner) (sym same) ∙ found)))
              g)
          (found, unset, a)

    pub send-Sound :
        (tx : Option ℕ) (result : Outcome D)
        → slot.stage ≡ holding tx result
        → Good (send D ch tx result w)
    unfolding send send_to set_slot set_stage set_value
    send-Sound tx result e =
        let (mine, unset, a) = subst (Staged D Answers w.inner ch slot) e (s.staged ch slot at) in
        rw (mine, modify_twice ch (set_stage D over) (set_value D result) w.slots)
          (slot-Sound D Answers s w.inner ch slot (λ x. set_stage D over (set_value D result x)) at
            (λ x. (refl, refl)) s.distinct
            (λ key c g. (g, λ same. subst (IsListed D Answers) e (mapped-slot key c g same).1))
            (λ j x n g. g) (result, refl, a))
