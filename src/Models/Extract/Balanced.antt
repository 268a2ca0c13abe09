-- ===== src/Models/Extract/Balanced.antt =====
-- What the extraction of an object returns: a text whose braces and strings are closed.
pub mod Steps
use nemoir_web_runtime.Prelude.{
  ℕ, ◌-◌, ◌≡◌, refl, sym, ◌∙◌, inl, inr, Bool, true, false, ◌&&◌, some, [], ◌∷◌, ◌++◌, append_assoc,
  arith, eqb, eqb_iff, if◌then◌else◌, Bool-cases, Option-cases, subst,
}
use nemoir_web_runtime.Js.Text.{JsString, ends_with, ◌==◌}
use nemoir_web_runtime.Models.Extract.{
  quote, backslash, open_brace, close_brace, Scan, scanning, found, on_close, step, scan, closing,
  fixup, first_round, extract,
}
use nemoir_web_runtime.Models.Extract.Balanced.Steps.{
  closes, Follows, StepFollows, in_string-Follows, at_depth-Follows, on_open-Follows, last_brace,
  is_calm, on_quote-Follows, other-closes, Step-cases, or_right, completed, outside,
}

module _ (accept : JsString → Bool) where
  on_close-Follows : (s : Scan) → s.in_str ≡ false → Follows s → StepFollows (on_close accept s)
  unfolding on_close closes
  on_close-Follows s i f = elim (Bool-cases (eqb s.depth 0)) [
    | inl z ↦ rw z (at_depth-Follows close_brace 0 s i f (λ d. absurd (ground arith)))
    | inr z ↦ elim (Bool-cases (eqb (s.depth - 1) 0)) [
      | inl o ↦ elim (Option-cases s.text) [
        | inl n ↦ rw (z, o, n) (λ text t. absurd (ground arith))
        | inr (text, n) ↦ elim (Bool-cases (accept (text ++ close_brace ∷ []))) [
          | inl a ↦ rw (z, o, n, a) (last_brace s i f z o text n)
          | inr a ↦ rw (z, o, n, a) (λ text t. absurd (ground arith))
        ]
      ]
      | inr o ↦
          rw (z, o)
            (at_depth-Follows close_brace (s.depth - 1) s i f
              (λ d. (ground arith, λ more. ground arith)))
    ]
  ]

  step-Follows : (ch : ℕ) (s : Scan) → is_calm s ≡ true → Follows s → StepFollows (step accept ch s)
  unfolding step
  step-Follows ch s k f = elim (Bool-cases s.in_str) [
    | inl i ↦ rw i (in_string-Follows ch s i f)
    | inr i ↦ elim (Bool-cases (eqb ch quote)) [
      | inl q ↦ rw (i, (eqb_iff ch quote).0 q) (on_quote-Follows s i (ground arith) f)
      | inr q ↦ elim (Bool-cases (eqb ch open_brace)) [
        | inl o ↦ rw (i, q, o) (on_open-Follows s i f)
        | inr o ↦ elim (Bool-cases (eqb ch close_brace)) [
          | inl c ↦ rw (i, q, o, c) (on_close-Follows s i f)
          | inr c ↦
              rw (i, q, o, c)
                (at_depth-Follows ch s.depth s i f
                  (λ d. (d, λ more. other-closes ch s.depth more q o c)))
        ]
      ]
    ]
  ]

  step-is_calm :
      (ch : ℕ) (s next : Scan)
      → is_calm s ≡ true
      → step accept ch s ≡ scanning next
      → is_calm next ≡ true
  unfolding step
  step-is_calm ch s next k h = ground arith

  pub scan-found :
      (ch : ℕ) (content : JsString) (s : Scan) (text : JsString)
      → step accept ch s ≡ found text
      → scan accept (ch ∷ content) s ≡ found text
  unfolding scan
  scan-found ch content s text e = ground arith

  pub scan-scanning :
      (ch : ℕ) (content : JsString) (s next : Scan)
      → step accept ch s ≡ scanning next
      → scan accept (ch ∷ content) s ≡ scan accept content next
  unfolding scan
  scan-scanning ch content s next e = ground arith

  -- An escape begins at a backslash.
  step-escape :
      (ch : ℕ) (s next : Scan)
      → is_calm s ≡ true
      → step accept ch s ≡ scanning next
      → (next.in_str && next.escape) ≡ true
      → ch ≡ backslash
  unfolding step
  step-escape ch s next k h e = ground arith

  scan-Follows :
      (content : JsString) (s : Scan)
      → is_calm s ≡ true
      → Follows s
      → StepFollows (scan accept content s)
  unfolding scan
  scan-Follows [] s k f = f
  scan-Follows (ch ∷ content) s k f = elim (Step-cases (step accept ch s)) [
    | inl (text, e) ↦
        subst StepFollows (sym (scan-found ch content s text e))
          (subst StepFollows e (step-Follows ch s k f))
    | inr (next, e) ↦ subst StepFollows (sym (scan-scanning ch content s next e)) (
        scan-Follows content next (step-is_calm ch s next k e)
          (subst StepFollows e (step-Follows ch s k f)))
  ]

  scan-nil : (s : Scan) → scan accept [] s ≡ scanning s
  unfolding scan
  scan-nil s = refl

  -- A scan that ends after a backslash in a string has read that backslash last.
  scan-escape :
      (content : JsString) (ch : ℕ) (s next : Scan)
      → is_calm s ≡ true
      → scan accept (ch ∷ content) s ≡ scanning next
      → (next.in_str && next.escape) ≡ true
      → ends_with (ch ∷ content) (backslash ∷ []) ≡ true
  unfolding ends_with ◌==◌
  scan-escape [] ch s next k h e = elim (Step-cases (step accept ch s)) [
    | inl (text, t) ↦ absurd (ground (arith, scan-found ch [] s text t))
    | inr (mid, t) ↦
        ground (arith, step-escape ch s next k, scan-scanning ch [] s mid t, scan-nil mid)
  ]
  scan-escape (c ∷ content) ch s next k h e = elim (Step-cases (step accept ch s)) [
    | inl (text, t) ↦ absurd (ground (arith, scan-found ch (c ∷ content) s text t))
    | inr (mid, t) ↦
        let calm = step-is_calm ch s mid k t in
        let later = sym (scan-scanning ch (c ∷ content) s mid t) ∙ h in
        or_right _ (scan-escape content c mid next calm later e)
  ]

  fixup-closes :
      (s : Scan) (result : JsString)
      → Follows s
      → (s.in_str && s.escape) ≡ false
      → fixup accept s ≡ some result
      → closes outside 0 result ≡ true
  unfolding fixup
  fixup-closes s result f e h = elim (Bool-cases (eqb s.depth 0)) [
    | inl z ↦ absurd (ground arith)
    | inr z ↦ elim (Option-cases s.text) [
      | inl n ↦ absurd (ground arith)
      | inr (text, n) ↦ elim (Bool-cases (accept text)) [
        | inl a ↦
            let same : text ++ (if s.in_str then quote ∷ [] else []) ++ closing s.depth ≡ result =
              ground arith in
            subst (λ x. closes outside 0 x ≡ true) (sym (append_assoc text _ _) ∙ same)
              ((f text n).1 _ ∙ completed s e)
        | inr a ↦ absurd (ground arith)
      ]
    ]
  ]

  extract-found :
      (content text result : JsString)
      → scan accept content first_round ≡ found text
      → extract accept content ≡ some result
      → text ≡ result
  unfolding extract
  extract-found content text result e h = ground arith

  extract-scanning :
      (content : JsString) (s : Scan)
      → scan accept content first_round ≡ scanning s
      → extract accept content ≡ fixup accept s
  unfolding extract
  extract-scanning content s e = ground arith

  -- The object that the extraction returns is balanced: outside strings each brace that it opens is
  -- closed in it and no other brace is, and each string that it opens ends in it. The content must not
  -- end in a backslash.
  pub extract-closes :
      (content result : JsString)
      → ends_with content (backslash ∷ []) ≡ false
      → extract accept content ≡ some result
      → closes outside 0 result ≡ true
  unfolding extract scan
  extract-closes [] result b h = absurd (ground arith)
  extract-closes (ch ∷ content) result b h =
      let started =
        scan-Follows (ch ∷ content) first_round refl (λ text t. absurd (ground arith)) in
      elim (Step-cases (scan accept (ch ∷ content) first_round)) [
        | inl (text, e) ↦
            subst (λ x. closes outside 0 x ≡ true) (extract-found (ch ∷ content) text result e h)
              (subst StepFollows e started)
        | inr (s, e) ↦ elim (Bool-cases (s.in_str && s.escape)) [
          | inl k ↦ absurd (ground (arith, scan-escape content ch first_round s refl e k))
          | inr k ↦
              fixup-closes s result (subst StepFollows e started) k
                (sym (extract-scanning (ch ∷ content) s e) ∙ h)
        ]
      ]
