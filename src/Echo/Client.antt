-- ===== src/Echo/Client.antt =====
-- One client of the echo server among others: what is to come for it and to be done for it, and what one of
-- its events does.
use mathlib.Core.List.{head-eq_of_cons-eq, tail-eq_of_cons-eq}
use mars_wrapper.Prelude.{
  ℕ, ◌≡◌, ◌≢◌, refl, sym, ap, ◌∙◌, List, [], ◌∷◌, ◌++◌, fun_ext, some, arith, length, ◌==◌,
  if◌then◌else◌, ℕ_discrete,
}
use mars_wrapper.Prelude.Int.{pos}
use mars_wrapper.Echo.{
  Action, epoll_add, epoll_mod, send, epollin, epollout, Echo, echo_handler, Listener, Events,
  Answers, buffer_size, dispatch,
}
use mars_wrapper.Echo.Receive.{only_out, arrives, IsConnected}
use mars_wrapper.Echo.Cycle.{cycles, Fits, echoed, received_lem, sent_lem, with_echo}

abbrev pub Happening : Type 0
Happening = ℕ × Events × Answers

-- The events of one client, and the calls made for it.
abbrev pub events_of : ℕ → List Happening → List Happening
events_of c [] = []
events_of c ((fd, events, answers) ∷ evs) =
    if fd == c then (fd, events, answers) ∷ events_of c evs else events_of c evs

abbrev pub target : Action → ℕ
target (epoll_add fd _) = fd
target (epoll_mod fd _) = fd
target (send fd _) = fd

abbrev pub actions_of : ℕ → List Action → List Action
actions_of c [] = []
actions_of c (a ∷ actions) =
    if target a == c then a ∷ actions_of c actions else actions_of c actions

-- A client whose chunk was received, and not yet sent back, or one that has none.
pub data Mode : Type 0 where
  ready : Mode
  holding : List ℕ → Mode

unfoldable pub to_come : ℕ → Mode → List (List ℕ) → List Happening
to_come c ready cs = cycles c cs
to_come c (holding x) cs = (c, only_out, arrives []) ∷ cycles c cs

unfoldable pub to_do : ℕ → Mode → List (List ℕ) → List Action → List Action
to_do c ready cs actions = echoed c cs actions
to_do c (holding x) cs actions = echoed c cs (epoll_mod c epollin ∷ send c x ∷ actions)

-- The handler of a client, by its mode.
pub record IsHolding (l : Listener) (c : ℕ) (x : List ℕ) : Type 0 where
  first : ℕ
  others : List ℕ
  behind : List ℕ
  chunk : x ≡ first ∷ others
  held :
      l.handlers c
      ≡ some (
          echo_handler (record {
            fd = c;
            received = some (pos (length (first ∷ others)));
            buffer = (first ∷ others) ++ behind;
          }))
  sized : length ((first ∷ others) ++ behind) ≡ buffer_size

unfoldable pub At : Listener → ℕ → Mode → Type 0
At l c ready = IsConnected l c
At l c (holding x) = IsHolding l c x

pub At-kept :
    (l v : Listener) (c : ℕ) (m : Mode) → v.handlers c ≡ l.handlers c → At l c m → At v c m
unfolding At
At-kept l v c ready same k = record {
  received = k.received;
  buffer = k.buffer;
  held = same ∙ k.held;
  sized = k.sized;
}
At-kept l v c (holding x) same k = record {
  first = k.first;
  others = k.others;
  behind = k.behind;
  chunk = k.chunk;
  held = same ∙ k.held;
  sized = k.sized;
}

mine :
    (c : ℕ) (a : Action) (actions : List Action)
    → target a ≡ c
    → actions_of c (a ∷ actions) ≡ a ∷ actions_of c actions
mine c a actions same = ground (arith, same)

-- The event is the one that is to come.
dispatch_first :
    (l : Listener) {c : ℕ} {ev ev' : Events} {answers answers' : Answers}
    {rest rest' : List Happening}
    → (c, ev, answers) ∷ rest ≡ (c, ev', answers') ∷ rest'
    → dispatch c ev answers l ≡ dispatch c ev' answers' l
dispatch_first l e = ap (λ h. dispatch h.0 h.1 h.2 l) (head-eq_of_cons-eq e)

-- A listener whose handler of `c` is put in again.
put_again :
    (l : Listener) (c : ℕ) (e : Echo)
    → l.handlers c ≡ some (echo_handler e)
    → with_echo c l e l.actions ≡ l
put_again l c e held =
    ap (λ hs. record { handlers = hs; actions = l.actions })
      (fun_ext λ q. elim (ℕ_discrete c q) [
        | yes same ↦ ground (arith, held, ap l.handlers same)
        | no other ↦ ground (arith, other)
      ])

-- What one event does: the listener, the client's mode and chunks behind it.
pub record Advance (l : Listener) (c : ℕ) (ev : Events) (answers : Answers) (rest : List Happening)
    (m : Mode) (cs : List (List ℕ)) : Type 0 where
  pub next : Listener
  pub mode : Mode
  pub chunks : List (List ℕ)
  pub runs : dispatch c ev answers l ≡ some next
  pub fits : Fits chunks
  pub at : At next c mode
  pub remains : rest ≡ to_come c mode chunks
  pub does : to_do c mode chunks (actions_of c next.actions) ≡ to_do c m cs (actions_of c l.actions)
  pub quiet : (d : ℕ) → d ≢ c → actions_of d next.actions ≡ actions_of d l.actions
  pub others : (d : ℕ) → d ≢ c → next.handlers d ≡ l.handlers d

pub advance :
    (l : Listener) (c : ℕ) (ev : Events) (answers : Answers) (rest : List Happening) (m : Mode)
    (cs : List (List ℕ))
    → Fits cs
    → At l c m
    → (c, ev, answers) ∷ rest ≡ to_come c m cs
    → Advance l c ev answers rest m cs
unfolding At to_come to_do
advance l c ev answers rest ready [] fits at e = absurd (cc e)
advance l c ev answers rest ready ([] ∷ cs) (some_there, _, _) at e =
    absurd (omega (arith, some_there))
advance l c ev answers rest ready ((x ∷ xs) ∷ cs) (_, small, fits) at e =
    let (y, ran, whole) = received_lem c l at x xs small in
    record {
      next =
          with_echo c l
            (record { fd = c; received = some (pos (length (x ∷ xs))); buffer = (x ∷ xs) ++ y })
            (epoll_mod c epollout ∷ l.actions);
      mode = holding (x ∷ xs);
      chunks = cs;
      runs = dispatch_first l e ∙ ran;
      fits = fits;
      at = record {
        first = x;
        others = xs;
        behind = y;
        chunk = refl;
        held = ground arith;
        sized = whole;
      };
      remains = tail-eq_of_cons-eq e;
      does =
          ap (λ actions. echoed c cs (epoll_mod c epollin ∷ send c (x ∷ xs) ∷ actions))
            (mine c (epoll_mod c epollout) l.actions refl);
      quiet = λ d other. ground (arith, other);
      others = λ d other. ground (arith, other);
    }
advance l c ev answers rest (holding z) cs fits at e =
    let kept : Echo = record {
      fd = c;
      received = some (pos (length (at.first ∷ at.others)));
      buffer = (at.first ∷ at.others) ++ at.behind;
    } in
    let all = send c (at.first ∷ at.others) ∷ l.actions in
    record {
      next =
          with_echo c l
            (record {
              fd = c;
              received = some (pos 0);
              buffer = (at.first ∷ at.others) ++ at.behind;
            })
            (epoll_mod c epollin ∷ all);
      mode = ready;
      chunks = cs;
      runs =
          dispatch_first l e
          ∙ ap (dispatch c only_out (arrives [])) (sym (put_again l c kept at.held))
          ∙ sent_lem c l at.first at.others at.behind l.actions;
      fits = fits;
      at = record {
        received = some (pos 0);
        buffer = (at.first ∷ at.others) ++ at.behind;
        held = ground arith;
        sized = at.sized;
      };
      remains = tail-eq_of_cons-eq e;
      does = ap (echoed c cs) (
          mine c (epoll_mod c epollin) all refl
          ∙ ap (◌∷◌ (epoll_mod c epollin)) (
              mine c (send c (at.first ∷ at.others)) l.actions refl
              ∙ ap (λ x. send c x ∷ actions_of c l.actions) (sym at.chunk)));
      quiet = λ d other. ground (arith, other);
      others = λ d other. ground (arith, other);
    }
