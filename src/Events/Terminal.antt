-- ===== src/Events/Terminal.antt =====
-- events.ts: the events that end a run, and how many of them an operation emits.
use nemoir_web_runtime.Prelude.{
  ℕ, ◌+◌, ◌≡◌, Bool, true, false, List, [], ◌∷◌, ◌++◌, if◌then◌else◌, arith,
}
use nemoir_web_runtime.Errors.{Error, Result, ok, err}
use nemoir_web_runtime.Events.{
  Exec, State, Entry, event, Payload, run_completed, run_failed, lift, continue, ◌>>=◌, emit,
  record_entry,
}

abbrev pub ends_run : Payload → ℕ
ends_run (run_completed r) = 1
ends_run (run_failed e) = 1
ends_run _ = 0

abbrev pub terminal_of : Entry → ℕ
terminal_of (event n p) = ends_run p
terminal_of _ = 0

-- The events of a log that end a run.
abbrev pub terminals : List Entry → ℕ
terminals [] = 0
terminals (x ∷ xs) = terminal_of x + terminals xs

terminals-append : (xs ys : List Entry) → terminals (xs ++ ys) ≡ terminals xs + terminals ys
terminals-append [] ys = omega arith
terminals-append (x ∷ xs) ys = omega (arith, terminals-append xs ys)

pub terminals-two :
    (l : List Entry) (a b : Entry)
    → terminals (l ++ a ∷ [] ++ b ∷ []) ≡ terminals l + terminal_of a + terminal_of b
terminals-two l a b =
    omega (arith, terminals-append (l ++ a ∷ []) (b ∷ []), terminals-append l (a ∷ []))

pub terminals-three :
    (l : List Entry) (a b c : Entry)
    → terminals (l ++ a ∷ [] ++ b ∷ [] ++ c ∷ [])
      ≡ terminals l + terminal_of a + terminal_of b + terminal_of c
terminals-three l a b c =
    omega (arith, terminals-append (l ++ a ∷ [] ++ b ∷ []) (c ∷ []), terminals-two l a b)

-- `m` emits `q r` such events where its result is `r`.
pub record Counts {ℓ} {A : Type ℓ} (q : Result A → ℕ) (m : Exec A) : Type ℓ where
  pub at : (s : State) → terminals (m s).1.log ≡ terminals s.log + q (m s).0

abbrev pub none_of {ℓ} : {A : Type ℓ} → Result A → ℕ
none_of r = 0

pub Counts-emit : (p : Payload) → Counts (λ r. ends_run p) (emit p)
unfolding emit
Counts-emit p = record {
  at = λ s. omega (arith, terminals-append s.log (event (s.sequence + 1) p ∷ []));
}

pub Counts-record : (entry : Entry) → Counts (λ r. terminal_of entry) (record_entry entry)
unfolding record_entry
Counts-record entry = record { at = λ s. omega (arith, terminals-append s.log (entry ∷ [])) }

module _ {ℓ} {A : Type ℓ} where
  pub Counts-lift : (q : Result A → ℕ) (r : Result A) → q r ≡ 0 → Counts q (lift r)
  Counts-lift q r h = record { at = λ s. omega (arith, h) }

  pub Counts-if :
      (q : Result A → ℕ) (b : Bool) {m n : Exec A}
      → Counts q m
      → Counts q n
      → Counts q (if b then m else n)
  Counts-if q true hm hn = hm
  Counts-if q false hm hn = hn

module _ {ℓ κ} {A : Type ℓ} {B : Type κ} where
  continue-Counts :
      (q : Result B → ℕ) (before_it : ℕ) (r : Result A) (f : A → Exec B) (s : State)
      → ((e : Error) → q (err e) ≡ 0)
      → ((a : A) → Counts q (f a))
      → terminals s.log ≡ before_it
      → terminals (continue r f s).1.log ≡ before_it + q (continue r f s).0
  continue-Counts q before_it (ok a) f s fails hf h = omega (arith, (hf a).at s, h)
  continue-Counts q before_it (err e) f s fails hf h = omega (arith, fails e, h)

  -- After a step that emits none.
  pub Counts-bind :
      (q : Result B → ℕ) (first : Exec A) (next : A → Exec B)
      → ((e : Error) → q (err e) ≡ 0)
      → Counts none_of first
      → ((a : A) → Counts q (next a))
      → Counts q (first >>= next)
  unfolding ◌>>=◌
  Counts-bind q first next fails hm hf = record {
    at = λ s.
        continue-Counts q (terminals s.log) (first s).0 next (first s).1 fails hf
          (omega (arith, hm.at s));
  }
