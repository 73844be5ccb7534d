-- ===== src/Server/Pending/Invariant.antt =====
-- src/server.rs, `PendingQueries::query`: what holds of the table, the channels and the callers.
use dotdns.Prelude.{
  ℕ, ◌≡◌, ◌≢◌, ◌⊎◌, refl, sym, ap, ◌∙◌, inl, inr, List, [], ◌∷◌, ◌++◌, none, some, some_inj, ok,
  err, get_elem?, modify, modify-cases, modify-at, append_one-cases,
}
use dotdns.Dns.{Dns}
use dotdns.Map.{lookup, Distinct}
use dotdns.Server.Pending.{
  Outcome, Stage, entered, querying, answered, holding, over, Slot, CallStage, joined, waiting,
  returned, dropped, Caller, PendingQueries,
}
use dotdns.Server.Resolve.{pending_key}
use dotdns.Text.{eq_text}
use dotdns.Upstream.{timeout, serialization}

module _ (D : Dns) (Answers : D.Message → Outcome D → Type 0) where
  open D use {Message}

  -- The task has not yet taken its sender out of the table.
  abbrev pub IsListed : Stage D → Type 0
  IsListed (holding tx result) = ⊥
  IsListed over = ⊥
  IsListed _ = Unit

  -- Two queries with the same bytes once their ids are cleared.
  abbrev pub SameQuestion : Message → Message → Type 0
  SameQuestion q q' = (key : List ℕ) × (pending_key D q ≡ ok key) × (pending_key D q' ≡ ok key)

  -- What may be returned to a caller: the time-out, the error of its own encoding, or an answer of the
  -- upstreams to the same question.
  abbrev pub Fair : Message → Outcome D → Type 0
  Fair q result =
      (result ≡ err timeout)
      ⊎ ((e : List ℕ) × (pending_key D q ≡ err e) × (result ≡ err (serialization e)))
      ⊎ ((q' : Message) × SameQuestion q q' × Answers q' result)

  abbrev pub Staged : List (List ℕ × ℕ) → ℕ → Slot D → Stage D → Type 0
  Staged inner j slot (answered result) =
      (lookup eq_text slot.key inner ≡ some j) × (slot.value ≡ none) × Answers slot.query result
  Staged inner j slot (holding tx result) =
      (tx ≡ some j) × (slot.value ≡ none) × Answers slot.query result
  Staged inner j slot over =
      (result : Outcome D) × (slot.value ≡ some result) × Answers slot.query result
  Staged inner j slot _ = (lookup eq_text slot.key inner ≡ some j) × (slot.value ≡ none)

  abbrev pub Called : List (Slot D) → Message → CallStage D → Type 0
  Called slots q (joined ch) =
      (slot : Slot D) × (get_elem? slots ch ≡ some slot) × (pending_key D q ≡ ok slot.key)
  Called slots q (waiting leader ch) =
      (slot : Slot D) × (get_elem? slots ch ≡ some slot) × (pending_key D q ≡ ok slot.key)
  Called slots q (returned result) = Fair q result
  Called slots q (dropped leader) = Unit

  pub record IsSound (inner : List (List ℕ × ℕ)) (slots : List (Slot D)) (callers : List (Caller D))
      : Type 0 where
    pub distinct : Distinct eq_text inner
    pub mapped :
        (key : List ℕ) (ch : ℕ)
        → lookup eq_text key inner ≡ some ch
        → (slot : Slot D) × (get_elem? slots ch ≡ some slot)
          × (slot.key ≡ key)
          × IsListed slot.stage
    pub keyed :
        (j : ℕ) (slot : Slot D)
        → get_elem? slots j ≡ some slot
        → pending_key D slot.query ≡ ok slot.key
    pub staged :
        (j : ℕ) (slot : Slot D) → get_elem? slots j ≡ some slot → Staged inner j slot slot.stage
    pub called :
        (i : ℕ) (c : Caller D) → get_elem? callers i ≡ some c → Called slots c.query c.stage

  abbrev pub Sound : PendingQueries D → Type 0
  Sound w = IsSound w.inner w.slots w.callers

  module _ {inner : List (List ℕ × ℕ)} {slots : List (Slot D)} {callers : List (Caller D)}
      (s : IsSound inner slots callers) where
    pub call-Sound :
        (q : Message) (stage : CallStage D)
        → Called slots q stage
        → IsSound inner slots (callers ++ (record { query = q; stage = stage } ∷ []))
    call-Sound q stage h = record {
      distinct = s.distinct;
      mapped = s.mapped;
      keyed = s.keyed;
      staged = s.staged;
      called = λ i c g. elim (append_one-cases callers _ i c g) [
        | inl (e, p) ↦ rw p h
        | inr old ↦ s.called i c old
      ];
    }

    pub set_caller-Sound :
        (i : ℕ) (c : Caller D) (stage : CallStage D)
        → get_elem? callers i ≡ some c
        → Called slots c.query stage
        → IsSound inner slots (modify i (λ (x : Caller D). record x { stage = stage }) callers)
    set_caller-Sound i c stage at h = record {
      distinct = s.distinct;
      mapped = s.mapped;
      keyed = s.keyed;
      staged = s.staged;
      called = λ j d g. elim (modify-cases i j _ callers d g) [
        | inl (x, e, there, p) ↦ rw (p, some_inj (sym there ∙ at)) h
        | inr (n, old) ↦ s.called j d old
      ];
    }

  -- Each channel is still there, with its key.
  abbrev pub Extends : List (Slot D) → List (Slot D) → Type 0
  Extends slots slots' =
      (ch : ℕ) (slot : Slot D)
      → get_elem? slots ch ≡ some slot
      → (slot' : Slot D) × (get_elem? slots' ch ≡ some slot') × (slot'.key ≡ slot.key)

  pub Called-Extends :
      (slots slots' : List (Slot D)) (q : Message) (stage : CallStage D)
      → Extends slots slots'
      → Called slots q stage
      → Called slots' q stage
  Called-Extends slots slots' q (joined ch) ext (slot, at, keyed) =
      let (slot', at', e) = ext ch slot at in (slot', at', keyed ∙ ap ok (sym e))
  Called-Extends slots slots' q (waiting leader ch) ext (slot, at, keyed) =
      let (slot', at', e) = ext ch slot at in (slot', at', keyed ∙ ap ok (sym e))
  Called-Extends slots slots' q (returned result) ext h = h
  Called-Extends slots slots' q (dropped leader) ext h = tt

  pub Staged-inner :
      (inner inner' : List (List ℕ × ℕ)) (j : ℕ) (slot : Slot D) (stage : Stage D)
      → (lookup eq_text slot.key inner ≡ some j → lookup eq_text slot.key inner' ≡ some j)
      → Staged inner j slot stage
      → Staged inner' j slot stage
  Staged-inner inner inner' j slot entered keep (e, v) = (keep e, v)
  Staged-inner inner inner' j slot querying keep (e, v) = (keep e, v)
  Staged-inner inner inner' j slot (answered result) keep (e, v, a) = (keep e, v, a)
  Staged-inner inner inner' j slot (holding tx result) keep h = h
  Staged-inner inner inner' j slot over keep h = h

  -- A step of the task of a channel.
  module _ {inner : List (List ℕ × ℕ)} {slots : List (Slot D)} {callers : List (Caller D)}
      (s : IsSound inner slots callers) (inner' : List (List ℕ × ℕ)) (ch : ℕ) (slot : Slot D)
      (f : Slot D → Slot D) (at : get_elem? slots ch ≡ some slot)
      (keeps : (x : Slot D) → ((f x).key ≡ x.key) × ((f x).query ≡ x.query)) where
    modify-Extends : Extends slots (modify ch f slots)
    modify-Extends c x g = elim (modify-at ch c f slots x g) [
      | inl (e, there) ↦ (f x, there, (keeps x).0)
      | inr (n, there) ↦ (x, there, refl)
    ]

    slot-mapped :
        (key : List ℕ) (c : ℕ)
        → lookup eq_text key inner ≡ some c
        → (c ≡ ch → IsListed (f slot).stage)
        → (y : Slot D) × (get_elem? (modify ch f slots) c ≡ some y)
          × (y.key ≡ key)
          × IsListed y.stage
    slot-mapped key c g listed =
        let (x, there, k, l) = s.mapped key c g in
        elim (modify-at ch c f slots x there) [
          | inl (e, now) ↦
              let same : x ≡ slot = some_inj (sym there ∙ ap (get_elem? slots) e ∙ at) in
              (f x, now, (keeps x).0 ∙ k, rw same (listed e))
          | inr (n, now) ↦ (x, now, k, l)
        ]

    pub slot-Sound :
        Distinct eq_text inner'
        → ((key : List ℕ) (c : ℕ)
            → lookup eq_text key inner' ≡ some c
            → (lookup eq_text key inner ≡ some c) × (c ≡ ch → IsListed (f slot).stage))
        → ((j : ℕ) (x : Slot D)
            → j ≢ ch
            → lookup eq_text x.key inner ≡ some j
            → lookup eq_text x.key inner' ≡ some j)
        → Staged inner' ch (f slot) (f slot).stage
        → IsSound inner' (modify ch f slots) callers
    slot-Sound distinct maps others here' = record {
      distinct = distinct;
      mapped = λ key c g. slot-mapped key c (maps key c g).0 (maps key c g).1;
      keyed = λ j y g. elim (modify-cases ch j f slots y g) [
        | inl (x, e, there, p) ↦ rw (p, (keeps x).0, (keeps x).1) (s.keyed ch x there)
        | inr (n, old) ↦ s.keyed j y old
      ];
      staged = λ j y g. elim (modify-cases ch j f slots y g) [
        | inl (x, e, there, p) ↦ rw (p, e, some_inj (sym there ∙ at)) here'
        | inr (n, old) ↦ Staged-inner inner inner' j y y.stage (others j y n) (s.staged j y old)
      ];
      called = λ i c g.
          Called-Extends slots (modify ch f slots) c.query c.stage modify-Extends (s.called i c g);
    }
