-- ===== src/Echo/Clients.antt =====
-- Many clients of the echo server at once, in any interleaving of their events.
use mars_wrapper.Prelude.{
  ℕ, ◌≡◌, ◌≢◌, refl, sym, ap, ap₂, subst, ◌∙◌, List, [], ◌∷◌, some, arith, ℕ_discrete,
}
use mars_wrapper.Memory.{update}
use mars_wrapper.Echo.{Action, Listener, Events, Answers, handle_all}
use mars_wrapper.Echo.Receive.{IsConnected}
use mars_wrapper.Echo.Cycle.{cycles, Fits, echoed}
use mars_wrapper.Echo.Client.{
  Happening, events_of, actions_of, Mode, ready, holding, to_come, to_do, At, At-kept, Advance,
  advance,
}

-- Every client's events are those that its mode and its chunks have to come, and each client with events
-- to come is there.
record Plan (evs : List Happening) (l : Listener) (modes : ℕ → Mode) (chunks : ℕ → List (List ℕ))
    : Type 0 where
  events : (c : ℕ) → events_of c evs ≡ to_come c (modes c) (chunks c)
  fits : (c : ℕ) → Fits (chunks c)
  at : (c : ℕ) → events_of c evs ≢ [] → At l c (modes c)

own_events :
    (c : ℕ) (ev : Events) (answers : Answers) (evs : List Happening)
    → events_of c ((c, ev, answers) ∷ evs) ≡ (c, ev, answers) ∷ events_of c evs
own_events c ev answers evs = ground arith

other_events :
    (c d : ℕ) (ev : Events) (answers : Answers) (evs : List Happening)
    → d ≢ c
    → events_of d ((c, ev, answers) ∷ evs) ≡ events_of d evs
other_events c d ev answers evs other = ground (arith, other)

module _ (c : ℕ) (ev : Events) (answers : Answers) (evs : List Happening) (l : Listener)
    (modes : ℕ → Mode) (chunks : ℕ → List (List ℕ))
    (p : Plan ((c, ev, answers) ∷ evs) l modes chunks) where
  own_step : Advance l c ev answers (events_of c evs) (modes c) (chunks c)
  own_step =
      advance l c ev answers (events_of c evs) (modes c) (chunks c) (p.fits c)
        (p.at c (λ none_there. absurd (cc (sym (own_events c ev answers evs) ∙ none_there))))
        (sym (own_events c ev answers evs) ∙ p.events c)

  modes' : ℕ → Mode
  modes' = update modes c own_step.mode

  chunks' : ℕ → List (List ℕ)
  chunks' = update chunks c own_step.chunks

  mode_own : modes' c ≡ own_step.mode
  unfolding modes'
  mode_own = ground arith

  chunks_own : chunks' c ≡ own_step.chunks
  unfolding chunks'
  chunks_own = ground arith

  mode_other : (d : ℕ) → d ≢ c → modes' d ≡ modes d
  unfolding modes'
  mode_other d other = ground (arith, other)

  chunks_other : (d : ℕ) → d ≢ c → chunks' d ≡ chunks d
  unfolding chunks'
  chunks_other d other = ground (arith, other)

  next-At : (d : ℕ) → d ≢ c → events_of d evs ≢ [] → At own_step.next d (modes' d)
  next-At d other some_there = subst (At own_step.next d) (sym (mode_other d other)) (
      At-kept l own_step.next d (modes d) (own_step.others d other) (
        p.at d
          (λ none_there. some_there (sym (other_events c d ev answers evs other) ∙ none_there))))

  Plan-next : Plan evs own_step.next modes' chunks'
  Plan-next = record {
    events = λ d. elim (ℕ_discrete d c) [
      | yes same ↦
          subst (λ d. events_of d evs ≡ to_come d (modes' d) (chunks' d)) (sym same)
            (own_step.remains ∙ sym (ap₂ (to_come c) mode_own chunks_own))
      | no other ↦
          sym (other_events c d ev answers evs other)
          ∙ p.events d
          ∙ sym (ap₂ (to_come d) (mode_other d other) (chunks_other d other))
    ];
    fits = λ d. elim (ℕ_discrete d c) [
      | yes same ↦
          subst (λ d. Fits (chunks' d)) (sym same) (subst Fits (sym chunks_own) own_step.fits)
      | no other ↦ subst Fits (sym (chunks_other d other)) (p.fits d)
    ];
    at = λ d some_there. elim (ℕ_discrete d c) [
      | yes same ↦
          subst (λ d. At own_step.next d (modes' d)) (sym same)
            (subst (At own_step.next c) (sym mode_own) own_step.at)
      | no other ↦ next-At d other some_there
    ];
  }

  -- What is to be done for each client, before this event and behind it.
  to_do-next :
      (d : ℕ)
      → to_do d (modes' d) (chunks' d) (actions_of d own_step.next.actions)
        ≡ to_do d (modes d) (chunks d) (actions_of d l.actions)
  to_do-next d = elim (ℕ_discrete d c) [
    | yes same ↦
        subst
          (λ d.
            to_do d (modes' d) (chunks' d) (actions_of d own_step.next.actions)
            ≡ to_do d (modes d) (chunks d) (actions_of d l.actions))
          (sym same)
          (ap₂ (λ m cs. to_do c m cs (actions_of c own_step.next.actions)) mode_own chunks_own
            ∙ own_step.does)
    | no other ↦
        ap₂ (λ m cs. to_do d m cs (actions_of d own_step.next.actions)) (mode_other d other)
          (chunks_other d other)
        ∙ ap (to_do d (modes d) (chunks d)) (own_step.quiet d other)
  ]

done :
    (c : ℕ) (m : Mode) (cs : List (List ℕ)) (actions : List Action)
    → [] ≡ to_come c m cs
    → actions ≡ to_do c m cs actions
unfolding to_come to_do
done c ready [] actions e = refl
done c ready (x ∷ cs) actions e = absurd (cc e)
done c (holding x) cs actions e = absurd (cc e)

handle_all-Plan :
    (evs : List Happening) (l : Listener) (modes : ℕ → Mode) (chunks : ℕ → List (List ℕ))
    → Plan evs l modes chunks
    → (v : Listener) × (handle_all evs l ≡ some v)
      × ((c : ℕ) → actions_of c v.actions ≡ to_do c (modes c) (chunks c) (actions_of c l.actions))
unfolding handle_all
handle_all-Plan [] l modes chunks p = (l, refl, λ c. done c (modes c) (chunks c) _ (p.events c))
handle_all-Plan ((c, ev, answers) ∷ evs) l modes chunks p =
    let s = own_step c ev answers evs l modes chunks p in
    let (v, ran, done_for) =
      handle_all-Plan evs s.next (modes' c ev answers evs l modes chunks p)
        (chunks' c ev answers evs l modes chunks p) (Plan-next c ev answers evs l modes chunks p) in
    (
      v,
      rw (s.runs, handle_all) ran,
      λ d. done_for d ∙ to_do-next c ev answers evs l modes chunks p d,
    )

-- Any number of connected clients, each with data in chunks of 1 to 999 bytes, each chunk in one readable
-- event that a writable event follows, and the events of the clients interleaved in any way: nothing
-- faults, and what is done for each client is what would be done for it alone: each of its chunks is sent
-- back to it, whole and once and in order, and its socket is turned to writing before and to reading after.
pub handle_all-clients :
    (chunks : ℕ → List (List ℕ)) (evs : List Happening) (l : Listener)
    → ((c : ℕ) → events_of c evs ≡ cycles c (chunks c))
    → ((c : ℕ) → Fits (chunks c))
    → ((c : ℕ) → events_of c evs ≢ [] → IsConnected l c)
    → (v : Listener) × (handle_all evs l ≡ some v)
      × ((c : ℕ) → actions_of c v.actions ≡ echoed c (chunks c) (actions_of c l.actions))
unfolding to_come to_do At
handle_all-clients chunks evs l events fits connected =
    handle_all-Plan evs l (λ c. ready) chunks
      (record { events = events; fits = fits; at = connected })
