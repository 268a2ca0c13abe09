-- ===== src/Transitions/Selection.antt =====
-- runtime.ts: the transition that `selectTransition` takes.
use nemoir_web_runtime.Prelude.{
  ◌≡◌, refl, inl, inr, Bool, true, false, Option, none, some, List, [], ◌∷◌, arith, if◌then◌else◌,
  All, Bool-cases, ap, ◌∙◌, subst, Option-cases,
}
use nemoir_web_runtime.Errors.{Result, ok, err, bind-eq-ok, no_transition_matched}
use nemoir_web_runtime.Js.Number.{number_lt, is_nan, number_lt-asymm, number_lt-neg_trans}
use nemoir_web_runtime.Js.Value.{Value, Engine}
use nemoir_web_runtime.Js.Dict.{Dict}
use nemoir_web_runtime.Manifest.{TransitionSpec, StageSpec}
use nemoir_web_runtime.Evaluator.{evaluate_guard}
use nemoir_web_runtime.Transitions.{
  insert_by_priority, sort_by_priority, first_match, select_transition,
}

-- `t` before the sorted `us`: none of them has a smaller priority.
abbrev IsLeast : TransitionSpec → List TransitionSpec → Type 0
IsLeast t us = All (λ u. number_lt u.priority t.priority ≡ false) us

abbrev IsSorted : List TransitionSpec → Type 0
IsSorted [] = Unit
IsSorted (t ∷ ts) = IsLeast t ts × IsSorted ts

abbrev pub HasPriority : TransitionSpec → Type 0
HasPriority t = is_nan t.priority ≡ false

insert-All :
    (P : TransitionSpec → Type 0) (t : TransitionSpec) (us : List TransitionSpec)
    → P t
    → All P us
    → All P (insert_by_priority t us)
unfolding insert_by_priority
insert-All P t [] p ps = (p, tt)
insert-All P t (u ∷ us) p (q, qs) = elim (Bool-cases (number_lt u.priority t.priority)) [
  | inl less ↦ rw less (q, insert-All P t us p qs)
  | inr more ↦ rw more (p, (q, qs))
]

sort-All :
    (P : TransitionSpec → Type 0) (ts : List TransitionSpec)
    → All P ts
    → All P (sort_by_priority ts)
unfolding sort_by_priority
sort-All P [] h = tt
sort-All P (t ∷ ts) (p, h) = insert-All P t (sort_by_priority ts) p (sort-All P ts h)

IsLeast-trans :
    (t u : TransitionSpec) (us : List TransitionSpec)
    → HasPriority u
    → number_lt u.priority t.priority ≡ false
    → IsLeast u us
    → IsLeast t us
IsLeast-trans t u [] p h least = tt
IsLeast-trans t u (w ∷ us) p h (k, least) =
    (number_lt-neg_trans w.priority u.priority t.priority p k h, IsLeast-trans t u us p h least)

insert-IsSorted :
    (t : TransitionSpec) (us : List TransitionSpec)
    → All HasPriority us
    → IsSorted us
    → IsSorted (insert_by_priority t us)
unfolding insert_by_priority
insert-IsSorted t [] ps s = (tt, tt)
insert-IsSorted t (u ∷ us) (p, ps) (least, s) =
    elim (Bool-cases (number_lt u.priority t.priority)) [
      | inl less ↦ rw less (
        insert-All _ t us (number_lt-asymm u.priority t.priority less) least,
        insert-IsSorted t us ps s,
      )
      | inr more ↦ rw more ((more, IsLeast-trans t u us p more least), (least, s))
    ]

sort-IsSorted : (ts : List TransitionSpec) → All HasPriority ts → IsSorted (sort_by_priority ts)
unfolding sort_by_priority
sort-IsSorted [] ps = tt
sort-IsSorted (t ∷ ts) (p, ps) =
    insert-IsSorted t (sort_by_priority ts) (sort-All HasPriority ts ps) (sort-IsSorted ts ps)

-- What is taken of `t` and the choice among the transitions declared after it.
abbrev pub better : Bool → TransitionSpec → Option TransitionSpec → Option TransitionSpec
better false t r = r
better true t none = some t
better true t (some u) = if number_lt u.priority t.priority then some u else some t

-- The specification, with no sorting: of the transitions whose guards match, the one of the least
-- priority, and the earliest declared of those.
abbrev pub best : (TransitionSpec → Bool) → List TransitionSpec → Option TransitionSpec
best matches [] = none
best matches (t ∷ ts) = better (matches t) t (best matches ts)

abbrev pub or_no_match : Option TransitionSpec → Result TransitionSpec
or_no_match none = err no_transition_matched
or_no_match (some t) = ok t

-- The first match of a list, where the guards have these values.
first : (TransitionSpec → Bool) → List TransitionSpec → Option TransitionSpec
first matches [] = none
first matches (t ∷ ts) = if matches t then some t else first matches ts

first-All :
    (P : TransitionSpec → Type 0) (matches : TransitionSpec → Bool) (ts : List TransitionSpec)
    (u : TransitionSpec)
    → All P ts
    → first matches ts ≡ some u
    → (w : TransitionSpec) × (w ≡ u) × P w
unfolding first
first-All P matches [] u h k = absurd (ground arith)
first-All P matches (t ∷ ts) u (p, h) k = elim (Bool-cases (matches t)) [
  | inl m ↦ (t, ground arith, p)
  | inr m ↦ first-All P matches ts u h (rw m at k)
]

first-insert :
    (matches : TransitionSpec → Bool) (t : TransitionSpec) (us : List TransitionSpec)
    → All HasPriority us
    → IsSorted us
    → first matches (insert_by_priority t us) ≡ better (matches t) t (first matches us)
unfolding first insert_by_priority
first-insert matches t [] ps s = ground arith
first-insert matches t (u ∷ us) (p, ps) (least, s) =
    elim (Bool-cases (number_lt u.priority t.priority)) [
      | inl less ↦ rw less (ground (arith, first-insert matches t us ps s))
      | inr more ↦ elim (Option-cases (first matches us)) [
        | inl missed ↦ ground arith
        | inr (w, found) ↦
            let (w', same, least_w) =
              first-All (λ v. number_lt v.priority t.priority ≡ false) matches us w
                (IsLeast-trans t u us p more least) found in
            let w-least : number_lt w.priority t.priority ≡ false = rw (← same) least_w in
            ground arith
      ]
    ]

first-sort :
    (matches : TransitionSpec → Bool) (ts : List TransitionSpec)
    → All HasPriority ts
    → first matches (sort_by_priority ts) ≡ best matches ts
unfolding first sort_by_priority
first-sort matches [] ps = refl
first-sort matches (t ∷ ts) (p, ps) =
    first-insert matches t (sort_by_priority ts) (sort-All HasPriority ts ps) (sort-IsSorted ts ps)
    ∙ ap (better (matches t) t) (first-sort matches ts ps)

module _ (e : Engine) (inputs : Dict Value) (outs : Dict (Dict Value)) where
  first_match-first :
      (matches : TransitionSpec → Bool) (ts : List TransitionSpec)
      → All (λ t. evaluate_guard e t.guard inputs outs ≡ ok (matches t)) ts
      → first_match e ts inputs outs ≡ or_no_match (first matches ts)
  unfolding first_match first
  first_match-first matches [] h = refl
  first_match-first matches (t ∷ ts) (k, h) = ground (arith, first_match-first matches ts h)

  -- Where the guards of a stage evaluate without an error and no priority is NaN, the transition
  -- selected is the matching one of the least priority, the earliest declared of those; there is an
  -- error exactly where none matches.
  pub select_transition-best :
      (matches : TransitionSpec → Bool) (stage : StageSpec)
      → All HasPriority stage.transitions
      → All (λ t. evaluate_guard e t.guard inputs outs ≡ ok (matches t)) stage.transitions
      → select_transition e stage inputs outs ≡ or_no_match (best matches stage.transitions)
  unfolding select_transition
  select_transition-best matches stage ps h =
      first_match-first matches (sort_by_priority stage.transitions)
        (sort-All _ stage.transitions h)
      ∙ ap or_no_match (first-sort matches stage.transitions ps)

  first_match-All :
      (P : TransitionSpec → Type 0) (ts : List TransitionSpec) (t : TransitionSpec)
      → All P ts
      → first_match e ts inputs outs ≡ ok t
      → P t × (evaluate_guard e t.guard inputs outs ≡ ok true)
  unfolding first_match
  first_match-All P [] t h k = absurd (ground arith)
  first_match-All P (u ∷ us) t (p, h) k =
      let (matched, evaluated, k') = bind-eq-ok (evaluate_guard e u.guard inputs outs) _ k in
      elim (Bool-cases matched) [
        | inl m ↦
            let same : u ≡ t = ground arith in
            subst (λ v. P v × (evaluate_guard e v.guard inputs outs ≡ ok true)) same
              (p, evaluated ∙ ap {B = Result Bool} ok m)
        | inr m ↦ first_match-All P us t h (rw m at k')
      ]

  -- What holds of every declared transition holds of the selected one, and its guard matches.
  pub select_transition-All :
      (P : TransitionSpec → Type 0) (stage : StageSpec) (t : TransitionSpec)
      → All P stage.transitions
      → select_transition e stage inputs outs ≡ ok t
      → P t × (evaluate_guard e t.guard inputs outs ≡ ok true)
  unfolding select_transition
  select_transition-All P stage t h k =
      first_match-All P (sort_by_priority stage.transitions) t (sort-All P stage.transitions h) k
