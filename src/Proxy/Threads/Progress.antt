-- ===== src/Proxy/Threads/Progress.antt =====
-- Every call at the map comes to its end: the mutex does not deadlock, and a call takes a bounded number of
-- steps.
use mars_wrapper.Prelude.{
  ℕ, zero, suc, ◌+◌, ◌≤◌, ◌<◌, ◌≡◌, ◌≢◌, ◌⊎◌, inl, inr, refl, sym, ap, ◌∙◌, true, false, Option,
  none, some, arith, ℕ_discrete, dec_lt, subst, eq_of_some, Option-cases, Bool-cases, ◌*◌,
}
use mars_wrapper.Memory.{update}
use mars_wrapper.Proxy.Threads.{
  Pc, idle, store_locked, store_writing, store_written, store_reading, store_read, get_reading,
  remove_reading, remove_found, remove_freed, remove_locked, remove_erasing, remove_erased,
  remove_unlocked, Move, store_locks, store_writes, store_wrote, store_reads, store_reads_end,
  store_unlocks, get_reads, get_reads_end, remove_reads, remove_misses, remove_finds, remove_frees,
  remove_locks, remove_erases, remove_erases_end, remove_unlocks, remove_deletes, System, Step,
  pick, Reach, here, later,
}
use mars_wrapper.Proxy.Threads.Races.{holds, Reach-Exclusive}
use mars_wrapper.Proxy.Threads.Rank.{
  total, Goes, goes, Run, stop, next, Move-rank, total-update, total-le,
}

-- The mutex belongs to a thread that is between `lock` and `unlock`.
abbrev IsUsed : System → Type 0
IsUsed s = (i : ℕ) → s.owner ≡ some i → holds (s.pc i) ≡ true

Move-IsUsed :
    (i : ℕ) {p q : Pc} {o u : Option ℕ}
    → Move i p o q u
    → (j : ℕ) → u ≡ some j
    → ((i ≡ j) × (holds q ≡ true)) ⊎ ((o ≡ some j) × (i ≡ j → holds p ≡ true → holds q ≡ true))
Move-IsUsed i store_locks j own = inl (eq_of_some own, refl)
Move-IsUsed i store_writes j own = inr (own, λ _ _. refl)
Move-IsUsed i store_wrote j own = inr (own, λ _ _. refl)
Move-IsUsed i store_reads j own = inr (own, λ _ _. refl)
Move-IsUsed i store_reads_end j own = inr (own, λ _ _. refl)
Move-IsUsed i (store_unlocks e) j own = absurd (cc own)
Move-IsUsed i get_reads j own = inr (own, λ _ held. absurd (cc held))
Move-IsUsed i get_reads_end j own = inr (own, λ _ held. absurd (cc held))
Move-IsUsed i remove_reads j own = inr (own, λ _ held. absurd (cc held))
Move-IsUsed i remove_misses j own = inr (own, λ _ held. absurd (cc held))
Move-IsUsed i remove_finds j own = inr (own, λ _ held. absurd (cc held))
Move-IsUsed i remove_frees j own = inr (own, λ _ held. absurd (cc held))
Move-IsUsed i remove_locks j own = inl (eq_of_some own, refl)
Move-IsUsed i remove_erases j own = inr (own, λ _ _. refl)
Move-IsUsed i remove_erases_end j own = inr (own, λ _ _. refl)
Move-IsUsed i (remove_unlocks e) j own = absurd (cc own)
Move-IsUsed i remove_deletes j own = inr (own, λ _ held. absurd (cc held))

Step-IsUsed : {s t : System} → IsUsed s → Step s t → IsUsed t
Step-IsUsed {s} used (pick i {p} move) j own = elim (Move-IsUsed i move j own) [
  | inl (same, held) ↦ ground (arith, same, held)
  | inr (was, keeps) ↦ elim (ℕ_discrete i j) [
    | yes same ↦ ground (arith, same, keeps same (ap (λ k. holds (s.pc k)) same ∙ used j was))
    | no other ↦ ground (arith, other, used j was)
  ]
]

Reach-IsUsed : {s : System} → Reach s → IsUsed s
Reach-IsUsed here = λ i own. absurd (cc own)
Reach-IsUsed (later r st) = Step-IsUsed (Reach-IsUsed r) st

-- A thread in a call can go on, but for one that waits for the mutex while it has an owner.
abbrev Moves : ℕ → Pc → Option ℕ → Type 0
Moves i p o = (q : Pc) × (u : Option ℕ) × Move i p o q u

holding-Moves : (i : ℕ) (p : Pc) (o : Option ℕ) → o ≡ some i → holds p ≡ true → Moves i p o
holding-Moves i store_locked o own held = (store_writing, o, store_writes)
holding-Moves i store_writing o own held = (store_written, o, store_wrote)
holding-Moves i store_written o own held = (store_reading, o, store_reads)
holding-Moves i store_reading o own held = (store_read, o, store_reads_end)
holding-Moves i store_read o own held = (idle, none, store_unlocks own)
holding-Moves i remove_locked o own held = (remove_erasing, o, remove_erases)
holding-Moves i remove_erasing o own held = (remove_erased, o, remove_erases_end)
holding-Moves i remove_erased o own held = (remove_unlocked, none, remove_unlocks own)
holding-Moves i p o own held = absurd (cc held)

free-Moves : (i : ℕ) (p : Pc) (o : Option ℕ) → o ≡ none → holds p ≡ false → p ≢ idle → Moves i p o
free-Moves i get_reading o free held busy = (idle, o, get_reads_end)
free-Moves i remove_reading o free held busy = (remove_found, o, remove_finds)
free-Moves i remove_found o free held busy = (remove_freed, o, remove_frees)
free-Moves i remove_freed o free held busy = (
  remove_locked,
  some i,
  subst (λ o. Move i remove_freed o remove_locked (some i)) (sym free) remove_locks,
)
free-Moves i remove_unlocked o free held busy = (idle, o, remove_deletes)
free-Moves i idle o free held busy = absurd (busy refl)
free-Moves i p o free held busy = absurd (cc held)

Pc-cases : (p : Pc) → (p ≡ idle) ⊎ (p ≢ idle)
Pc-cases idle = inl refl
Pc-cases p = inr (λ e. absurd (cc e))

holding_busy : (p : Pc) → holds p ≡ true → p ≢ idle
holding_busy p held e = absurd (cc (held, ap holds e))

-- Some call can go on while one has begun: the owner of the mutex can, and if it has none, any can.
someone-Goes : {s : System} → Reach s → (i : ℕ) → s.pc i ≢ idle → (t : System) × Goes s t
someone-Goes {s} r i busy = elim (Option-cases s.owner) [
  | inr (j, own) ↦
      let held = Reach-IsUsed r j own in
      let (q, u, move) = holding-Moves j (s.pc j) s.owner own held in
      (record { owner = u; pc = update s.pc j q }, goes j (holding_busy (s.pc j) held) move)
  | inl free ↦ elim (Bool-cases (holds (s.pc i))) [
    | inl held ↦ absurd (cc (free, Reach-Exclusive r i held))
    | inr out ↦
        let (q, u, move) = free-Moves i (s.pc i) s.owner free out busy in
        (record { owner = u; pc = update s.pc i q }, goes i busy move)
  ]
]

-- The threads from `n` on are in no call.
abbrev pub Quiet : ℕ → System → Type 0
Quiet n s = (i : ℕ) → n ≤ i → s.pc i ≡ idle

busy-lt : (s : System) (n i : ℕ) → Quiet n s → s.pc i ≢ idle → i < n
busy-lt s n i quiet busy = elim (dec_lt i n) [
  | yes less ↦ less
  | no more ↦ absurd (busy (quiet i (omega arith)))
]

Goes-Quiet : {s t : System} (n : ℕ) → Goes s t → Quiet n s → Quiet n t
Goes-Quiet {s} n (goes i busy move) quiet j above =
    ground (arith, quiet j above, busy-lt s n i quiet busy, above)

Goes-total : {s t : System} (n : ℕ) → Goes s t → Quiet n s → total n t.pc < total n s.pc
Goes-total {s} n (goes i {p} busy move) quiet =
    total-update n i s.pc p (busy-lt s n i quiet busy) (Move-rank move busy)

Goes-Step : {s t : System} → Goes s t → Step s t
Goes-Step (goes i busy move) = pick i move

Run-total : {s t : System} {k : ℕ} (n : ℕ) → Run s t k → Quiet n s → k + total n t.pc ≤ total n s.pc
Run-total n stop quiet = omega arith
Run-total n (next g more) quiet =
    omega (arith, Goes-total n g quiet, Run-total n more (Goes-Quiet n g quiet))

busy_thread : (n : ℕ) (pc : ℕ → Pc) → ((i : ℕ) → i < n → pc i ≡ idle) ⊎ ((i : ℕ) × (pc i ≢ idle))
busy_thread zero pc = inl (λ i below. absurd (omega arith))
busy_thread (suc n) pc = elim (busy_thread n pc) [
  | inr found ↦ inr found
  | inl all ↦ elim (Pc-cases (pc n)) [
    | inr busy ↦ inr (n, busy)
    | inl quiet ↦ inl (λ i below. elim (ℕ_discrete i n) [
      | yes last ↦ ap pc last ∙ quiet
      | no other ↦ all i (omega (arith, other, below))
    ])
  ]
]

-- All calls are over.
abbrev pub AtRest : System → Type 0
AtRest s = (s.owner ≡ none) × ((i : ℕ) → s.pc i ≡ idle)

all_over : {s : System} (n : ℕ) → Reach s → Quiet n s → ((i : ℕ) → i < n → s.pc i ≡ idle) → AtRest s
all_over {s} n r quiet all = (
  elim (Option-cases s.owner) [
    | inl free ↦ free
    | inr (j, own) ↦ absurd (cc (Reach-IsUsed r j own, ap holds (idle_at j)))
  ],
  idle_at,
)
  where
    idle_at : (i : ℕ) → s.pc i ≡ idle
    idle_at i = elim (dec_lt i n) [ yes low ↦ all i low | no high ↦ quiet i (omega arith) ]

finishes :
    (m n : ℕ) {s : System}
    → total n s.pc ≤ m
    → Reach s
    → Quiet n s
    → (t : System) × (k : ℕ) × Run s t k × AtRest t
finishes zero n {s} few r quiet = elim (busy_thread n s.pc) [
  | inl all ↦ (s, zero, stop, all_over n r quiet all)
  | inr (i, busy) ↦
      let (t, g) = someone-Goes r i busy in absurd (omega (arith, few, Goes-total n g quiet))
]
finishes (suc m) n {s} few r quiet = elim (busy_thread n s.pc) [
  | inl all ↦ (s, zero, stop, all_over n r quiet all)
  | inr (i, busy) ↦
      let (t, g) = someone-Goes r i busy in
      let (u, k, more, rest) =
        finishes m n (omega (arith, few, Goes-total n g quiet)) (later r (Goes-Step g))
          (Goes-Quiet n g quiet) in
      (u, suc k, next g more, rest)
]

Run-Reach : {s t : System} {k : ℕ} → Reach s → Run s t k → Reach t
Run-Reach r stop = r
Run-Reach r (next g more) = Run-Reach (later r (Goes-Step g)) more

Run-Quiet : {s t : System} {k : ℕ} (n : ℕ) → Run s t k → Quiet n s → Quiet n t
Run-Quiet n stop quiet = quiet
Run-Quiet n (next g more) quiet = Run-Quiet n more (Goes-Quiet n g quiet)

-- In every reachable state in which the threads from `n` on are in no call, let the calls that have begun take
-- any steps, in any order, with no new call. They are seven or fewer for each of the `n` threads, and the
-- calls are not stuck: they can be brought to their end, in steps of which there are no more than that with
-- those before, and the mutex is free then.
pub calls_end :
    {s t : System} {k : ℕ} (n : ℕ)
    → Reach s
    → Quiet n s
    → Run s t k
    → (u : System) × (j : ℕ) × Run t u j × AtRest u × (k + j ≤ 7 * n)
calls_end {s} {t} n r quiet steps =
    let (u, j, more, rest) =
      finishes (total n t.pc) n (omega arith) (Run-Reach r steps) (Run-Quiet n steps quiet) in
    (
      u,
      j,
      more,
      rest,
      omega (
        arith,
        Run-total n steps quiet,
        Run-total n more (Run-Quiet n steps quiet),
        total-le n s.pc,
      ),
    )
