-- ===== src/Message/Counter.antt =====
-- `newMessageId` of src/im_message.cpp in several threads: `messageId++` reads the plain counter and then
-- writes it, and what other threads do may come between the two.
use mars_wrapper.Prelude.{
  ℕ, zero, suc, ◌+◌, ◌<◌, ◌^◌, ◌%◌, ◌≡◌, ◌≢◌, refl, ap, ◌∙◌, List, [], ◌∷◌, ◌++◌, Option, none,
  some, arith,
}
use mathlib.Core.Option
use mars_wrapper.Memory.{World, update}
use mars_wrapper.Message.{new_message_id}

pub data Action : Type 0 where
  reads : ℕ → Action
  writes : ℕ → Action

-- The counter, what each thread has read and not yet written, and who was given which number, the newest
-- first.
pub record Counting : Type 0 where
  pub counter : ℕ
  pub held : ℕ → Option ℕ
  pub given : List (ℕ × ℕ)

abbrev pub counting_from : ℕ → Counting
counting_from n = record { counter = n; held = λ _. none; given = [] }

wrote : ℕ → Counting → Option ℕ → Option Counting
wrote i s none = none
wrote i s (some n) =
    some
      (record { counter = (n + 1) % 2 ^ 32; held = update s.held i none; given = (i, n) ∷ s.given })

unfoldable pub act : Action → Counting → Option Counting
unfolding wrote
act (reads i) s = some (record s { held = update s.held i (some s.counter) })
act (writes i) s = wrote i s (s.held i)

unfoldable pub act_all : List Action → Counting → Option Counting
act_all [] s = some s
act_all (a ∷ rest) s = Option.bind (act a s) (act_all rest)

-- `k` calls of one thread, and the numbers they give from `n` on.
abbrev pub calls : ℕ → ℕ → List Action
calls j zero = []
calls j (suc k) = reads j ∷ writes j ∷ calls j k

abbrev pub numbers : ℕ → ℕ → ℕ → List (ℕ × ℕ) → List (ℕ × ℕ)
numbers j n zero before = before
numbers j n (suc k) before = numbers j (n + 1) k ((j, n) ∷ before)

-- A call with nothing between its read and its write.
one_call :
    (j : ℕ) (s : Counting) (rest : List Action)
    → (u : Counting) × (act_all (reads j ∷ writes j ∷ rest) s ≡ act_all rest u)
      × (u.counter ≡ (s.counter + 1) % 2 ^ 32)
      × (u.given ≡ (j, s.counter) ∷ s.given)
      × ((i : ℕ) → i ≢ j → u.held i ≡ s.held i)
unfolding act_all act wrote Option.bind
one_call j s rest = (
  record {
    counter = (s.counter + 1) % 2 ^ 32;
    held = update (update s.held j (some s.counter)) j none;
    given = (j, s.counter) ∷ s.given;
  },
  ap
      (λ h.
        Option.bind (wrote j (record s { held = update s.held j (some s.counter) }) h)
          (act_all rest))
      mine,
  refl,
  refl,
  λ i other. ground (arith, other),
)
  where
    mine : update s.held j (some s.counter) j ≡ some s.counter
    mine = ground arith

calls_lem :
    (i j k n : ℕ) (s : Counting) (rest : List Action)
    → i ≢ j
    → s.counter ≡ n
    → n + k < 2 ^ 32
    → (u : Counting) × (act_all (calls j k ++ rest) s ≡ act_all rest u)
      × (u.counter ≡ n + k)
      × (u.given ≡ numbers j n k s.given)
      × (u.held i ≡ s.held i)
calls_lem i j zero n s rest other at few = (s, refl, omega (arith, at), refl, refl)
calls_lem i j (suc k) n s rest other at few =
    let (u, first, next, given, kept) = one_call j s (calls j k ++ rest) in
    let (v, later, last, all, still) =
      calls_lem i j k (n + 1) u rest other (omega (arith, at, next, few)) (omega (arith, few)) in
    (
      v,
      first ∙ later,
      omega (arith, last),
      all ∙ ap (numbers j (n + 1) k) (given ∙ ap (λ c. (j, c) ∷ s.given) at),
      still ∙ kept i other,
    )

-- The read of `i`, `k` calls of `j`, and the write of `i`.
abbrev pub overlapped : ℕ → ℕ → ℕ → List Action
overlapped i j k = reads i ∷ (calls j k ++ (writes i ∷ []))

module _ (i j k n : ℕ) (other : i ≢ j) (few : n + suc k < 2 ^ 32) where
  -- Thread `i` calls `newMessageId` with the counter at `n`, and another thread `j` makes `k + 1` calls,
  -- which stay below 2 ^ 32, between its read and its write: `j` is given `n` and the numbers behind it,
  -- then `i` is given `n` again, and the counter goes back to `n + 1`.
  pub number_again :
      (s : Counting) × (act_all (overlapped i j (suc k)) (counting_from n) ≡ some s)
      × (s.given ≡ (i, n) ∷ numbers j n (suc k) [])
      × (s.counter ≡ n + 1)
  unfolding act_all act wrote Option.bind
  number_again =
      let start : Counting = record {
        counter = n;
        held = update (λ _. none) i (some n);
        given = [];
      } in
      let (u, ran, counter, given, kept) =
        calls_lem i j (suc k) n start (writes i ∷ []) other refl few in
      let has : u.held i ≡ some n = kept ∙ ground arith in
      (
        record {
          counter = (n + 1) % 2 ^ 32;
          held = update u.held i none;
          given = (i, n) ∷ u.given;
        },
        ran ∙ ap (λ h. Option.bind (wrote i u h) (act_all [])) has,
        ap (◌∷◌ (i, n)) given,
        omega (arith, few),
      )

-- A call with nothing between its read and its write is the `newMessageId` of one thread.
call_alone :
    (w : World) (j : ℕ)
    → (u : Counting) × (n : ℕ) × (v : World) × (act_all (calls j 1) (counting_from w.message_id)
        ≡ some u)
      × (new_message_id w ≡ some (n, v))
      × (u.given ≡ (j, n) ∷ [])
      × (u.counter ≡ v.message_id)
unfolding act_all new_message_id
call_alone w j =
    let (u, ran, next, given, _) = one_call j (counting_from w.message_id) [] in
    (u, w.message_id, record w { message_id = (w.message_id + 1) % 2 ^ 32 }, ran, refl, given, next)
