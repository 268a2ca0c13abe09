-- ===== src/Models/Extract/Embedded.antt =====
-- An object within prose, and its extraction.
use nemoir_web_runtime.Prelude.{
  ℕ, suc, ◌-◌, ◌<◌, ◌≡◌, refl, sym, ap, ◌∙◌, ◌⊎◌, inl, inr, Bool, true, false, not, ◌&&◌, ◌||◌,
  some, [], ◌∷◌, ◌++◌, append_assoc, arith, eqb, eqb_iff, if◌then◌else◌, Bool-cases, every, subst,
}
use nemoir_web_runtime.Js.Text.{JsString}
use nemoir_web_runtime.Models.Extract.{
  quote, open_brace, close_brace, Scan, scanning, found, grow, in_string, at_depth, step, scan,
  first_round, extract,
}
use nemoir_web_runtime.Models.Extract.Balanced.Steps.{
  Mode, outside, inside, escaped, string_mode, mode,
}
use nemoir_web_runtime.Models.Extract.Balanced.{scan-found, scan-scanning}

abbrev is_nothing : JsString → Bool
is_nothing [] = true
is_nothing (ch ∷ text) = false

-- From this mode and this number of open braces, the last of them is closed by the last character of
-- the text.
unfoldable pub spans : Mode → ℕ → JsString → Bool
spans at depth [] = false
spans inside depth (ch ∷ text) = spans (string_mode ch) depth text
spans escaped depth (ch ∷ text) = spans inside depth text
spans outside depth (ch ∷ text) =
    let quoted = spans inside depth text in
    let deeper = spans outside (suc depth) text in
    let higher = spans outside (depth - 1) text in
    let along = spans outside depth text in
    if eqb ch quote
    then quoted
    else if eqb ch open_brace
    then deeper
    else if eqb ch close_brace
    then (if eqb (depth - 1) 0 then is_nothing text else higher)
    else along

-- One object in braces, and nothing after it.
unfoldable pub is_object_text : JsString → Bool
unfolding spans
is_object_text [] = false
is_object_text (ch ∷ text) = eqb ch open_brace && spans outside 1 text

-- A character that opens neither a string nor an object.
abbrev pub is_prose : ℕ → Bool
is_prose ch = not (eqb ch quote) && not (eqb ch open_brace)

-- The state has the slice `text`, which needs `more` to be an object.
record Wants (s : Scan) (text more : JsString) : Type 0 where
  started : s.text ≡ some text
  within : 0 < s.depth
  calm : (s.in_str || not s.escape) ≡ true
  needed : spans (mode s) s.depth more ≡ true

string-Wants :
    (s : Scan) (ch : ℕ) (text more : JsString)
    → Wants s text (ch ∷ more)
    → s.in_str ≡ true
    → Wants (in_string ch s) (text ++ ch ∷ []) more
unfolding in_string spans
string-Wants s ch text more w i =
    let started = w.started in
    let within = w.within in
    let calm = w.calm in
    let needed = w.needed in
    record {
      started = ground arith;
      within = ground arith;
      calm = ground arith;
      needed = ground arith;
    }

-- A round outside strings that takes the character.
outside-Wants :
    (s : Scan) (ch depth : ℕ) (text more : JsString)
    → Wants s text (ch ∷ more)
    → s.in_str ≡ false
    → 0 < depth
    → spans outside depth more ≡ true
    → Wants (at_depth depth ch s) (text ++ ch ∷ []) more
outside-Wants s ch depth text more w i d n =
    let started = w.started in
    let calm = w.calm in
    record { started = ground arith; within = d; calm = ground arith; needed = n }

quote-Wants :
    (s : Scan) (ch : ℕ) (text more : JsString)
    → Wants s text (ch ∷ more)
    → s.in_str ≡ false
    → spans inside s.depth more ≡ true
    → Wants
        (record { depth = s.depth; in_str = true; escape = s.escape; text = grow ch s.text })
        (text ++ ch ∷ [])
        more
quote-Wants s ch text more w i n =
    let started = w.started in
    let calm = w.calm in
    record { started = ground arith; within = w.within; calm = refl; needed = ground arith }

outside-needed :
    (s : Scan) (text more : JsString)
    → Wants s text more
    → s.in_str ≡ false
    → spans outside s.depth more ≡ true
outside-needed s text more w i = rw i at w.needed

nothing-eq : (text : JsString) → is_nothing text ≡ true → text ≡ []
nothing-eq [] h = refl
nothing-eq (ch ∷ text) h = absurd (ground arith)

-- The state after an opening brace.
abbrev begun : Scan
begun = record { depth = 1; in_str = false; escape = false; text = some (open_brace ∷ []) }

nothing-needed : (at : Mode) (depth : ℕ) → spans at depth [] ≡ true → ⊥
unfolding spans
nothing-needed outside depth h = ground arith
nothing-needed inside depth h = ground arith
nothing-needed escaped depth h = ground arith

module _ (accept : JsString → Bool) where
  opened :
      (s : Scan) (ch : ℕ)
      → s.in_str ≡ false
      → eqb ch quote ≡ false
      → eqb ch open_brace ≡ true
      → 0 < s.depth
      → step accept ch s ≡ scanning (at_depth (suc s.depth) ch s)
  unfolding step
  opened s ch i q o d =
      let deep : eqb s.depth 0 ≡ false = ground arith in
      let same : ch ≡ open_brace = (eqb_iff ch open_brace).0 o in rw (i, same, deep) refl

  closed :
      (s : Scan) (ch : ℕ) (text : JsString)
      → s.in_str ≡ false
      → eqb ch close_brace ≡ true
      → eqb (s.depth - 1) 0 ≡ true
      → 0 < s.depth
      → s.text ≡ some text
      → accept (text ++ ch ∷ []) ≡ true
      → step accept ch s ≡ found (text ++ ch ∷ [])
  unfolding step
  closed s ch text i c l d t a =
      let deep : eqb s.depth 0 ≡ false = ground arith in
      let same : ch ≡ close_brace = (eqb_iff ch close_brace).0 c in
      rw (i, same, deep, l, t, rw same at a) refl

  shallower :
      (s : Scan) (ch : ℕ)
      → s.in_str ≡ false
      → eqb ch close_brace ≡ true
      → eqb (s.depth - 1) 0 ≡ false
      → 0 < s.depth
      → step accept ch s ≡ scanning (at_depth (s.depth - 1) ch s)
  unfolding step
  shallower s ch i c l d =
      let deep : eqb s.depth 0 ≡ false = ground arith in
      let same : ch ≡ close_brace = (eqb_iff ch close_brace).0 c in rw (i, same, deep, l) refl

  step-Wants :
      (s : Scan) (ch : ℕ) (text more : JsString)
      → Wants s text (ch ∷ more)
      → accept (text ++ ch ∷ more) ≡ true
      → ((more ≡ []) × (step accept ch s ≡ found (text ++ ch ∷ [])))
        ⊎ ((next : Scan) × (step accept ch s ≡ scanning next) × Wants next (text ++ ch ∷ []) more)
  unfolding step spans
  step-Wants s ch text more w a = elim (Bool-cases s.in_str) [
    | inl i ↦ inr (in_string ch s, rw i refl, string-Wants s ch text more w i)
    | inr i ↦
        let needed = outside-needed s text (ch ∷ more) w i in
        let within = w.within in
        let started = w.started in
        elim (Bool-cases (eqb ch quote)) [
          | inl q ↦ inr (
            record { depth = s.depth; in_str = true; escape = s.escape; text = grow ch s.text },
            rw (i, q) refl,
            quote-Wants s ch text more w i (rw q at needed),
          )
          | inr q ↦ elim (Bool-cases (eqb ch open_brace)) [
            | inl o ↦ inr (
              at_depth (suc s.depth) ch s,
              opened s ch i q o within,
              outside-Wants s ch (suc s.depth) text more w i (omega arith) (rw (q, o) at needed),
            )
            | inr o ↦ elim (Bool-cases (eqb ch close_brace)) [
              | inl c ↦ elim (Bool-cases (eqb (s.depth - 1) 0)) [
                | inl l ↦
                    let empty = nothing-eq more (rw (q, o, c, l) at needed) in
                    inl (
                      empty,
                      closed s ch text i c l within started
                          (subst (λ x. accept (text ++ ch ∷ x) ≡ true) empty a),
                    )
                | inr l ↦ inr (
                  at_depth (s.depth - 1) ch s,
                  shallower s ch i c l within,
                  outside-Wants s ch (s.depth - 1) text more w i (ground arith)
                      (rw (q, o, c, l) at needed),
                )
              ]
              | inr c ↦ inr (
                at_depth s.depth ch s,
                rw (i, q, o, c) refl,
                outside-Wants s ch s.depth text more w i within (rw (q, o, c) at needed),
              )
            ]
          ]
        ]
  ]

  scan-Wants :
      (more rest text : JsString) (s : Scan)
      → Wants s text more
      → accept (text ++ more) ≡ true
      → scan accept (more ++ rest) s ≡ found (text ++ more)
  unfolding spans
  scan-Wants [] rest text s w a = absurd (nothing-needed (mode s) s.depth w.needed)
  scan-Wants (ch ∷ more) rest text s w a = elim (step-Wants s ch text more w a) [
    | inl (empty, e) ↦
        scan-found accept ch (more ++ rest) s (text ++ ch ∷ []) e
        ∙ ap (λ x. found (text ++ ch ∷ x)) (sym empty)
    | inr (next, e, later) ↦
        let same = append_assoc text (ch ∷ []) more in
        scan-scanning accept ch (more ++ rest) s next e
        ∙ scan-Wants more rest (text ++ ch ∷ []) next later
            (subst (λ x. accept x ≡ true) (sym same) a)
        ∙ ap found same
  ]

  scan-prose :
      (prose content : JsString)
      → every is_prose prose ≡ true
      → scan accept (prose ++ content) first_round ≡ scan accept content first_round
  unfolding step
  scan-prose [] content h = refl
  scan-prose (ch ∷ prose) content h =
      scan-scanning accept ch (prose ++ content) first_round first_round (ground arith)
      ∙ scan-prose prose content (ground arith)

  extract-of_found :
      (content text : JsString)
      → scan accept content first_round ≡ found text
      → extract accept content ≡ some text
  unfolding extract
  extract-of_found content text e = ground arith

  -- An object that stands after prose without quotation marks and opening braces is what the
  -- extraction returns, whatever follows it, if it passes the extraction's test.
  pub extract-embedded :
      (prose object rest : JsString)
      → every is_prose prose ≡ true
      → is_object_text object ≡ true
      → accept object ≡ true
      → extract accept (prose ++ (object ++ rest)) ≡ some object
  unfolding extract is_object_text step
  extract-embedded prose [] rest p h a = absurd (ground arith)
  extract-embedded prose (ch ∷ object) rest p h a =
      let brace : ch ≡ open_brace = ground arith in
      let within : Wants begun (ch ∷ []) object = record {
        started = rw brace refl;
        within = omega arith;
        calm = refl;
        needed = ground arith;
      } in
      let read : scan accept (prose ++ (ch ∷ object ++ rest)) first_round ≡ found (ch ∷ object) =
        scan-prose prose (ch ∷ object ++ rest) p
        ∙ scan-scanning accept ch (object ++ rest) first_round begun (rw brace refl)
        ∙ scan-Wants object rest (ch ∷ []) begun within a in
      extract-of_found (prose ++ (ch ∷ object ++ rest)) (ch ∷ object) read
