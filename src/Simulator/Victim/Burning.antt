-- ===== src/Simulator/Victim/Burning.antt =====
-- `_burn_cpu`: a loop that reads the clock until the deadline, and its end. The seconds are any
-- `float` of the query, infinity and what is not a number included.
use hypertrace.Prelude.{
  ℕ, zero, suc, ◌+◌, ◌<◌, ◌≡◌, refl, ap, ◌∙◌, true, false, Option, none, some, arith, Bool-cases,
  inl, inr, if◌then◌else◌,
}
use mathlib.Core.Path.{subst, sym}
use hypertrace.Float.{Float}
use hypertrace.Effects.{World}

next_read : (reads n : ℕ) → reads + 1 + n ≡ reads + suc n
next_read reads n = omega arith

read_now : (reads : ℕ) → reads ≡ reads + 0
read_now reads = omega arith

-- The world after one more reading of the clock.
abbrev pub read : {M S : Type 0} → World M S → World M S
read w = record w { reads = w.reads + 1 }

module _ {N : Type 0} ⦃f : Float N⦄ where
  -- `time.time()`, in seconds, of a clock in microseconds.
  abbrev pub seconds_of : ℕ → N
  seconds_of t = f.div (f.of_nat t) (f.of_nat 1_000_000)

module _ {N M S : Type 0} ⦃f : Float N⦄ where
  -- The n-th reading of the clock from now on is before the deadline, or not.
  abbrev pub IsBefore : N → World M S → ℕ → Type 0
  IsBefore deadline w n = f.lt (seconds_of (w.clock (w.reads + n))) deadline ≡ true

  abbrev pub IsReached : N → World M S → ℕ → Type 0
  IsReached deadline w n = f.lt (seconds_of (w.clock (w.reads + n))) deadline ≡ false

  -- `while time.time() < deadline`, on fuel: `none` where it is used up.
  unfoldable pub burn_until : ℕ → N → World M S → Option (World M S)
  burn_until zero deadline w = none
  burn_until (suc fuel) deadline w =
      let rest = burn_until fuel deadline (record w { reads = w.reads + 1 }) in
      if f.lt (seconds_of (w.clock w.reads)) deadline
      then rest
      else some (record w { reads = w.reads + 1 })

  -- `_burn_cpu`
  unfoldable pub burn_cpu : ℕ → N → World M S → Option (World M S)
  burn_cpu fuel seconds w =
      burn_until fuel (f.add (seconds_of (w.clock w.reads)) seconds)
        (record w { reads = w.reads + 1 })

  abbrev pub deadline_of : N → World M S → N
  deadline_of seconds w = f.add (seconds_of (w.clock w.reads)) seconds

  -- How the loop ends: at the first reading of the clock that is not before the deadline, having
  -- changed nothing.
  pub record Burnt (deadline : N) (w : World M S) (answer : Option (World M S)) : Type 0 where
    pub rounds : ℕ
    pub returned : answer ≡ some (record w { reads = w.reads + rounds + 1 })
    pub due : IsReached deadline w rounds
    pub before : (n : ℕ) → n < rounds → IsBefore deadline w n

  earlier :
      (deadline : N) (w : World M S) (rounds : ℕ)
      → f.lt (seconds_of (w.clock w.reads)) deadline ≡ true
      → ((n : ℕ) → n < rounds → IsBefore deadline (read w) n)
      → (n : ℕ) → n < suc rounds
      → IsBefore deadline w n
  earlier deadline w rounds now h zero lt =
      subst (λ k. f.lt (seconds_of (w.clock k)) deadline ≡ true) (read_now w.reads) now
  earlier deadline w rounds now h (suc n) lt =
      subst (λ k. f.lt (seconds_of (w.clock k)) deadline ≡ true) (next_read w.reads n)
        (h n (omega arith))

  -- One more round, before the deadline.
  one_more :
      (deadline : N) (w : World M S) (answer : Option (World M S))
      → f.lt (seconds_of (w.clock w.reads)) deadline ≡ true
      → Burnt deadline (read w) answer
      → Burnt deadline w answer
  one_more deadline w answer early h = record {
    rounds = suc h.rounds;
    returned =
        h.returned ∙ ap (λ n. some (record w { reads = n + 1 })) (next_read w.reads h.rounds);
    due =
        subst (λ k. f.lt (seconds_of (w.clock k)) deadline ≡ false) (next_read w.reads h.rounds)
          h.due;
    before = earlier deadline w h.rounds early h.before;
  }

  -- A clock that has not reached the deadline does so after the next reading.
  later :
      (n fuel : ℕ) (deadline : N) (w : World M S) (answer : Option (World M S))
      → n < suc fuel
      → IsReached deadline w n
      → f.lt (seconds_of (w.clock w.reads)) deadline ≡ true
      → ((k : ℕ) → k < fuel → IsReached deadline (read w) k → Burnt deadline (read w) answer)
      → Burnt deadline (read w) answer
  later zero fuel deadline w answer enough due early ih =
      let now =
        subst (λ k. f.lt (seconds_of (w.clock k)) deadline ≡ false) (sym (read_now w.reads)) due in
      absurd (ground (arith, early, now))
  later (suc n) fuel deadline w answer enough due early ih =
      ih n (omega arith) (
        subst (λ k. f.lt (seconds_of (w.clock k)) deadline ≡ false) (sym (next_read w.reads n)) due)

  burn_until-Burnt :
      (n fuel : ℕ) (deadline : N) (w : World M S)
      → n < fuel
      → IsReached deadline w n
      → Burnt deadline w (burn_until fuel deadline w)
  unfolding burn_until
  burn_until-Burnt n zero deadline w enough due = absurd (omega arith)
  burn_until-Burnt n (suc fuel) deadline w enough due =
      elim (Bool-cases (f.lt (seconds_of (w.clock w.reads)) deadline)) [
        | inl early ↦ rw early (
            one_more deadline w _ early (
              later n fuel deadline w _ enough due early
                (λ k lt at. burn_until-Burnt k fuel deadline (read w) lt at)))
        | inr late ↦ rw late (record {
          rounds = 0;
          returned = ap (λ n. some (record w { reads = n })) (omega arith);
          due = subst (λ k. f.lt (seconds_of (w.clock k)) deadline ≡ false) (read_now w.reads) late;
          before = λ n lt. absurd (omega arith);
        })
      ]

  -- If some reading of the clock after the one that sets the deadline is not before it, `_burn_cpu`
  -- returns on all fuel above the number of readings that takes: it has read the clock once for the
  -- deadline and then up to the first reading that is not before it, and changed nothing else.
  pub burn_cpu-Burnt :
      (seconds : N) (w : World M S) (n fuel : ℕ)
      → IsReached (deadline_of seconds w) (read w) n
      → n < fuel
      → Burnt (deadline_of seconds w) (read w) (burn_cpu fuel seconds w)
  unfolding burn_cpu
  burn_cpu-Burnt seconds w n fuel due enough =
      burn_until-Burnt n fuel (deadline_of seconds w) (read w) enough due

  burn_until-none :
      (fuel : ℕ) (deadline : N) (w : World M S)
      → ((n : ℕ) → IsBefore deadline w n)
      → burn_until fuel deadline w ≡ none
  unfolding burn_until
  burn_until-none zero deadline w always = refl
  burn_until-none (suc fuel) deadline w always =
      let now : f.lt (seconds_of (w.clock w.reads)) deadline ≡ true =
        subst (λ k. f.lt (seconds_of (w.clock k)) deadline ≡ true) (sym (read_now w.reads))
          (always 0) in
      rw now (
        burn_until-none fuel deadline (read w) (λ n.
          subst (λ k. f.lt (seconds_of (w.clock k)) deadline ≡ true) (sym (next_read w.reads n))
            (always (suc n))))

  -- If every reading of the clock is before the deadline, as it is for infinitely many seconds,
  -- `_burn_cpu` does not return on any fuel.
  pub burn_cpu-none :
      (seconds : N) (w : World M S) (fuel : ℕ)
      → ((n : ℕ) → IsBefore (deadline_of seconds w) (read w) n)
      → burn_cpu fuel seconds w ≡ none
  unfolding burn_cpu
  burn_cpu-none seconds w fuel always = burn_until-none fuel (deadline_of seconds w) (read w) always
