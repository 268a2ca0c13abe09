-- ===== src/Models/Extract/Balanced/Steps.antt =====
-- Braces and strings of a text, and the steps of the scan.
use nemoir_web_runtime.Prelude.{
  ℕ, zero, suc, ◌-◌, ◌<◌, ◌≡◌, refl, ap, ◌∙◌, ◌⊎◌, inl, inr, Bool, true, false, not, ◌&&◌, ◌||◌,
  some, [], ◌∷◌, ◌++◌, append_assoc, arith, eqb, if◌then◌else◌, Bool-cases, Option-cases, subst,
}
use nemoir_web_runtime.Js.Text.{JsString}
use nemoir_web_runtime.Models.Extract.{
  quote, backslash, open_brace, close_brace, Scan, Step, scanning, found, grow, in_string, at_depth,
  on_open, closing,
}

-- Outside a string, in one, and after a backslash in one.
pub data Mode : Type 0 where
  outside inside escaped : Mode

abbrev pub string_mode : ℕ → Mode
string_mode ch = if eqb ch backslash then escaped else if eqb ch quote then outside else inside

-- From this mode and this number of open braces, the text closes every brace that it opens outside
-- strings, closes no other, and leaves no string open.
unfoldable pub closes : Mode → ℕ → JsString → Bool
closes outside depth [] = eqb depth 0
closes inside depth [] = false
closes escaped depth [] = false
closes outside depth (ch ∷ text) =
    let opened = closes outside (suc depth) text in
    let closed = closes outside (depth - 1) text in
    let in_text = closes inside depth text in
    let same = closes outside depth text in
    if eqb ch quote
    then in_text
    else if eqb ch open_brace
    then opened
    else if eqb ch close_brace
    then (if eqb depth 0 then false else closed)
    else same
closes inside depth (ch ∷ text) = closes (string_mode ch) depth text
closes escaped depth (ch ∷ text) = closes inside depth text

abbrev pub mode : Scan → Mode
mode s = if s.in_str then (if s.escape then escaped else inside) else outside

-- The slice so far stands within braces, and what follows it is read from the state's mode and depth.
abbrev pub Follows : Scan → Type 0
Follows s =
    (text : JsString)
    → s.text ≡ some text
    → (0 < s.depth)
      × ((more : JsString) → closes outside 0 (text ++ more) ≡ closes (mode s) s.depth more)

abbrev pub StepFollows : Step → Type 0
StepFollows (scanning s) = Follows s
StepFollows (found text) = closes outside 0 text ≡ true

-- A round that takes the character into the slice.
grow-Follows :
    (ch : ℕ) (s next : Scan)
    → Follows s
    → next.text ≡ grow ch s.text
    → (0 < s.depth
        → (0 < next.depth)
          × ((more : JsString)
              → closes (mode s) s.depth (ch ∷ more) ≡ closes (mode next) next.depth more))
    → Follows next
grow-Follows ch s next f e h text t = elim (Option-cases s.text) [
  | inl n ↦ absurd (ground arith)
  | inr (u, n) ↦
      let (d, g) = f u n in
      let (d1, g1) = h d in
      let grown : text ≡ u ++ ch ∷ [] = ground arith in
      (
        d1,
        λ more.
            ap (λ x. closes outside 0 (x ++ more)) grown
            ∙ ap (closes outside 0) (append_assoc u (ch ∷ []) more)
            ∙ g (ch ∷ more)
            ∙ g1 more,
      )
]

pub in_string-Follows : (ch : ℕ) (s : Scan) → s.in_str ≡ true → Follows s → Follows (in_string ch s)
unfolding in_string closes
in_string-Follows ch s i f =
    grow-Follows ch s (in_string ch s) f (ground arith) (λ d. (ground arith, λ more. ground arith))

pub at_depth-Follows :
    (ch depth : ℕ) (s : Scan)
    → s.in_str ≡ false
    → Follows s
    → (0 < s.depth
        → (0 < depth)
          × ((more : JsString) → closes outside s.depth (ch ∷ more) ≡ closes outside depth more))
    → Follows (at_depth depth ch s)
at_depth-Follows ch depth s i f h =
    grow-Follows ch s (at_depth depth ch s) f refl
      (λ d. let (d1, g) = h d in (d1, λ more. rw i (g more)))

pub on_open-Follows : (s : Scan) → s.in_str ≡ false → Follows s → Follows (on_open s)
unfolding on_open closes
on_open-Follows s i f text t = elim (Bool-cases (eqb s.depth 0)) [
  | inl z ↦
      let first : open_brace ∷ [] ≡ text = ground arith in
      subst
        (λ x.
          (0 < (on_open s).depth)
          × ((more : JsString)
              → closes outside 0 (x ++ more) ≡ closes (mode (on_open s)) (on_open s).depth more))
        first (rw z (omega arith, λ more. refl))
  | inr z ↦
      let opens : Follows (at_depth (suc s.depth) open_brace s) =
        at_depth-Follows open_brace (suc s.depth) s i f (λ d. (omega arith, λ more. refl)) in
      rw z (opens text (rw z at t))
]

pub last_brace :
    (s : Scan)
    → s.in_str ≡ false
    → Follows s
    → eqb s.depth 0 ≡ false
    → eqb (s.depth - 1) 0 ≡ true
    → (text : JsString) → s.text ≡ some text
    → closes outside 0 (text ++ close_brace ∷ []) ≡ true
unfolding closes
last_brace s i f z o text n = (f text n).1 (close_brace ∷ []) ∙ ground arith

-- No escape is pending outside a string.
abbrev pub is_calm : Scan → Bool
is_calm s = s.in_str || not s.escape

pub on_quote-Follows :
    (s : Scan)
    → s.in_str ≡ false
    → s.escape ≡ false
    → Follows s
    → Follows
        (record { depth = s.depth; in_str = true; escape = s.escape; text = grow quote s.text })
unfolding closes
on_quote-Follows s i e f =
    grow-Follows quote s
      (record { depth = s.depth; in_str = true; escape = s.escape; text = grow quote s.text }) f
      refl (λ d. (d, λ more. rw (i, e) refl))

pub other-closes :
    (ch depth : ℕ) (more : JsString)
    → eqb ch quote ≡ false
    → eqb ch open_brace ≡ false
    → eqb ch close_brace ≡ false
    → closes outside depth (ch ∷ more) ≡ closes outside depth more
unfolding closes
other-closes ch depth more q o c = rw (q, o, c) refl

pub Step-cases :
    (taken : Step)
    → ((text : JsString) × (taken ≡ found text)) ⊎ ((next : Scan) × (taken ≡ scanning next))
Step-cases (found text) = inl (text, refl)
Step-cases (scanning next) = inr (next, refl)

eqb-suc : (n : ℕ) → eqb (suc n) 0 ≡ false
eqb-suc n = ground arith

closes-brace :
    (depth : ℕ) (more : JsString)
    → closes outside (suc depth) (close_brace ∷ more) ≡ closes outside depth more
unfolding closes
closes-brace depth more = rw (eqb-suc depth) (ap (λ d. closes outside d more) (omega arith))

closes-closing : (depth : ℕ) → closes outside depth (closing depth) ≡ true
unfolding closes closing
closes-closing zero = refl
closes-closing (suc depth) = closes-brace depth (closing depth) ∙ closes-closing depth

pub or_right : (a : Bool) {b : Bool} → b ≡ true → (a || b) ≡ true
or_right true h = refl
or_right false h = h

pub completed :
    (s : Scan)
    → (s.in_str && s.escape) ≡ false
    → closes (mode s) s.depth ((if s.in_str then quote ∷ [] else []) ++ closing s.depth) ≡ true
unfolding closes
completed s e = elim (Bool-cases s.in_str) [
  | inl i ↦ let k : s.escape ≡ false = ground arith in rw (i, k) (closes-closing s.depth)
  | inr i ↦ rw i (closes-closing s.depth)
]
