-- ===== src/Execution/Discipline.antt =====
-- What a program may ask of its shell, by what the shell has answered so far: a discipline that
-- holds of a program holds of each of its runs.
use vela_relay.Prelude.{Option, none, some, Bool, true, false, if◌then◌else◌, [], ◌∷◌, ◌≡◌, refl}
use vela_relay.Prelude.Result.{Result, ok, err}
use vela_relay.Prelude.Text.{Text}
use vela_relay.Execution.Operation.{Operation, Outcome}
use vela_relay.Execution.Program.{
  Fallible, after, ◌>>=◌, Program, done, ask, and_then, Trace, Shell, run,
}

-- What is remembered of a run, and what may be asked with it.
pub record Discipline : Type 1 where
  pub Memory : Type 0
  pub remember : Memory → Operation → Outcome → Memory
  pub Allowed : Memory → Operation → Type 0

module _ (d : Discipline) where
  -- Each operation of a trace was allowed by what came before it.
  unfoldable pub Respects : d.Memory → Trace → Type 0
  Respects m [] = Unit
  Respects m ((operation, outcome) ∷ trace) =
      d.Allowed m operation × Respects (d.remember m operation outcome) trace

  unfoldable pub recall : d.Memory → Trace → d.Memory
  recall m [] = m
  recall m ((operation, outcome) ∷ trace) = recall (d.remember m operation outcome) trace

  module _ {A : Type 0} (Post : d.Memory → A → Type 0) where
    -- Whatever the shell answers, the program asks only what is allowed, and ends in `Post`.
    abbrev pub Obeys : d.Memory → Program A → Type 0
    Obeys m (done a) = Post m a
    Obeys m (ask operation k) =
        d.Allowed m operation × ((o : Outcome) → Obeys (d.remember m operation o) (k o))

    pub run-Respects :
        (shell : Shell) (past : Trace) (m : d.Memory) (p : Program A)
        → Obeys m p
        → Respects m (run shell past p).1
          × Post (recall m (run shell past p).1) (run shell past p).0
    unfolding Respects recall
    run-Respects shell past m (done a) h = (tt, h)
    run-Respects shell past m (ask operation k) (allowed, h) =
        let o = shell past operation in
        let (respects, post) =
          run-Respects shell ((operation, o) ∷ past) (d.remember m operation o) (k o) (h o) in
        ((allowed, respects), post)

  pub Obeys-weaken :
      {A : Type 0} (Post Post' : d.Memory → A → Type 0)
      → ((m : d.Memory) (a : A) → Post m a → Post' m a)
      → (m : d.Memory) (p : Program A) → Obeys Post m p
      → Obeys Post' m p
  Obeys-weaken Post Post' weaker m (done a) h = weaker m a h
  Obeys-weaken Post Post' weaker m (ask operation k) (allowed, h) =
      (allowed, λ o. Obeys-weaken Post Post' weaker (d.remember m operation o) (k o) (h o))

  pub Obeys-option :
      {A C : Type 0} (Post : d.Memory → A → Type 0) (m : d.Memory) (c : Option C) (p : Program A)
      (f : C → Program A)
      → Obeys Post m p
      → ((x : C) → Obeys Post m (f x))
      → Obeys Post m (elim c [ none ↦ p | some x ↦ f x ])
  Obeys-option Post m none p f hp hf = hp
  Obeys-option Post m (some x) p f hp hf = hf x

  pub Obeys-if :
      {A : Type 0} (Post : d.Memory → A → Type 0) (m : d.Memory) (b : Bool) (p q : Program A)
      → Obeys Post m p
      → Obeys Post m q
      → Obeys Post m (if b then p else q)
  Obeys-if Post m true p q hp hq = hp
  Obeys-if Post m false p q hp hq = hq

  module _ {A B : Type 0} (Mid : d.Memory → A → Type 0) (Post : d.Memory → B → Type 0) where
    pub Obeys-and_then :
        (m : d.Memory) (p : Program A) (f : A → Program B)
        → Obeys Mid m p
        → ((m' : d.Memory) (a : A) → Mid m' a → Obeys Post m' (f a))
        → Obeys Post m (and_then p f)
    Obeys-and_then m (done a) f h each = each m a h
    Obeys-and_then m (ask operation k) f (allowed, h) each =
        (allowed, λ o. Obeys-and_then (d.remember m operation o) (k o) f (h o) each)

  module _ {A B : Type 0} (Post : d.Memory → Result Text B → Type 0) where
    -- What follows a `?`: an error ends the program, a value goes on.
    pub Obeys-after :
        (m : d.Memory) (f : A → Fallible B) (r : Result Text A)
        → ((reason : Text) → r ≡ err reason → Post m (err reason))
        → ((a : A) → r ≡ ok a → Obeys Post m (f a))
        → Obeys Post m (after f r)
    unfolding after
    Obeys-after m f (err reason) fails goes = fails reason refl
    Obeys-after m f (ok a) fails goes = goes a refl

    -- A program in front of another, whose errors end both.
    pub Obeys->>= :
        (Mid : d.Memory → Result Text A → Type 0) (m : d.Memory) (p : Fallible A)
        (f : A → Fallible B)
        → Obeys Mid m p
        → ((m' : d.Memory) (reason : Text) → Mid m' (err reason) → Post m' (err reason))
        → ((m' : d.Memory) (a : A) → Mid m' (ok a) → Obeys Post m' (f a))
        → Obeys Post m (p >>= f)
    unfolding after
    Obeys->>= Mid m p f h fails goes =
        Obeys-and_then Mid Post m p (after f) h (λ m' r mid. continue m' r mid)
      where
        continue : (m' : d.Memory) (r : Result Text A) → Mid m' r → Obeys Post m' (after f r)
        continue m' (err reason) mid = fails m' reason mid
        continue m' (ok a) mid = goes m' a mid
