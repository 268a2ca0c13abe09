-- ===== src/Models/Extract.antt =====
-- models.ts: `extractFirstJsonObject` and `extractFirstPlainJsonObject`, which look for a JSON object
-- in what a model wrote.
pub mod Balanced
pub mod Embedded
use nemoir_web_runtime.Prelude.{
  ℕ, zero, suc, ◌-◌, Bool, true, false, not, Option, none, some, [], ◌∷◌, ◌++◌, eqb, if◌then◌else◌,
}
use nemoir_web_runtime.Js.Text.{JsString, codes, includes}

abbrev pub quote : ℕ
quote = 34

abbrev pub backslash : ℕ
backslash = 92

abbrev pub open_brace : ℕ
open_brace = 123

abbrev pub close_brace : ℕ
close_brace = 125

-- The locals of the loop before character `i`. `text` stands for `start`: `none` where that is -1, and
-- `content.slice(start, i)` elsewhere.
pub record Scan : Type 0 where
  pub depth : ℕ
  pub in_str : Bool
  pub escape : Bool
  pub text : Option JsString

-- What a round does: it goes on, or returns the candidate.
pub data Step : Type 0 where
  scanning : Scan → Step
  found : JsString → Step

-- The next character, where a slice is being taken.
abbrev pub grow : ℕ → Option JsString → Option JsString
grow ch none = none
grow ch (some text) = some (text ++ ch ∷ [])

-- `if (inStr) { … continue; }`
unfoldable pub in_string : ℕ → Scan → Scan
in_string ch s =
    if s.escape
    then record { depth = s.depth; in_str = true; escape = false; text = grow ch s.text }
    else if eqb ch backslash
    then record { depth = s.depth; in_str = true; escape = true; text = grow ch s.text }
    else record {
      depth = s.depth;
      in_str = not (eqb ch quote);
      escape = false;
      text = grow ch s.text;
    }

abbrev pub at_depth : ℕ → ℕ → Scan → Scan
at_depth depth ch s = record {
  depth = depth;
  in_str = false;
  escape = s.escape;
  text = grow ch s.text;
}

-- The branch of `}`; one that closes nothing is passed over. `accept` is the test that a candidate must
-- pass.
unfoldable pub on_close : (JsString → Bool) → Scan → Step
on_close accept s =
    if eqb s.depth 0
    then scanning (at_depth 0 close_brace s)
    else if eqb (s.depth - 1) 0
    then (elim s.text [
      | none ↦ scanning (at_depth 0 close_brace s)
      | some text ↦
          if accept (text ++ close_brace ∷ [])
          then found (text ++ close_brace ∷ [])
          else scanning (record { depth = 0; in_str = false; escape = s.escape; text = none })
    ])
    else scanning (at_depth (s.depth - 1) close_brace s)

-- `if (depth === 0) start = i; depth++;`
unfoldable pub on_open : Scan → Scan
on_open s =
    if eqb s.depth 0
    then record { depth = 1; in_str = false; escape = s.escape; text = some (open_brace ∷ []) }
    else at_depth (suc s.depth) open_brace s

-- The body of the loop.
unfoldable pub step : (JsString → Bool) → ℕ → Scan → Step
unfolding in_string on_close on_open
step accept ch s =
    if s.in_str
    then scanning (in_string ch s)
    else if eqb ch quote
    then scanning
        (record { depth = s.depth; in_str = true; escape = s.escape; text = grow ch s.text })
    else if eqb ch open_brace
    then scanning (on_open s)
    else if eqb ch close_brace
    then on_close accept s
    else scanning (at_depth s.depth ch s)

unfoldable pub scan : (JsString → Bool) → JsString → Scan → Step
scan accept [] s = scanning s
scan accept (ch ∷ content) s = elim (step accept ch s) [
  | found text ↦ found text
  | scanning next ↦ scan accept content next
]

-- `"}".repeat(depth)`
unfoldable pub closing : ℕ → JsString
closing zero = []
closing (suc depth) = close_brace ∷ closing depth

-- The object that the end of the content cut off, completed.
unfoldable pub fixup : (JsString → Bool) → Scan → Option JsString
unfolding closing
fixup accept s = if eqb s.depth 0 then none else elim s.text [
  | none ↦ none
  | some partial ↦
      if accept partial
      then some (partial ++ (if s.in_str then quote ∷ [] else []) ++ closing s.depth)
      else none
]

abbrev pub first_round : Scan
first_round = record { depth = 0; in_str = false; escape = false; text = none }

unfoldable pub extract : (JsString → Bool) → JsString → Option JsString
unfolding scan fixup
extract accept content = elim (scan accept content first_round) [
  | found text ↦ some text
  | scanning s ↦ fixup accept s
]

-- `candidate.includes('"kind"')`
abbrev pub has_kind : JsString → Bool
has_kind text = includes text (codes "\"kind\"")

unfoldable pub extract_first_json_object : JsString → Option JsString
unfolding extract
extract_first_json_object content = extract has_kind content

-- The other function returns the first object whatever it holds.
unfoldable pub extract_first_plain_json_object : JsString → Option JsString
unfolding extract
extract_first_plain_json_object content = extract (λ text. true) content
