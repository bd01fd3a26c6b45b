-- ===== src/Domain/Template.antt =====
-- renderMessage of packages/domain/src/index.ts; `none` is a throw. A placeholder holds no brace, so
-- no two of them overlap, and each of its patterns matches where its trimmed content is its name.
pub mod Segments
pub mod Rendering
mod Tests
use Prim.Native.Char.{code}
use tiktok_outreach.Prelude.{
  ℕ, zero, suc, ◌+◌, String, append, Bool, true, false, not, ◌&&◌, ◌||◌, Option, none, some, str_eq,
  ◌==◌, if◌then◌else◌, is_empty, trim, includes,
}
use mathlib.Core.Option

abbrev pub is_open : ℕ → Bool
is_open c = c == b'{'

abbrev pub is_close : ℕ → Bool
is_close c = c == b'}'

unfoldable pub text_length : String → ℕ
text_length String.[] = 0
text_length (String.◌∷◌ c s) = suc (text_length s)

-- What follows the second closing brace.
abbrev pub closed : String → Option String
closed String.[] = none
closed (String.◌∷◌ c s) = if is_close (code c) then some s else none

-- The content of a placeholder, read from behind its opening braces, and what follows it.
unfoldable pub content : String → Option (String × String)
content String.[] = none
content (String.◌∷◌ c s) =
    let rest = content s in
    if is_close (code c)
    then Option.map (λ after. ("", after)) (closed s)
    else if is_open (code c)
    then none
    else Option.map (λ (r : String × String). (String.◌∷◌ c r.0, r.1)) rest

-- `/{{\s*([^{}]+?)\s*}}/` at the head of a text.
abbrev pub placeholder : String → Option (String × String)
placeholder (String.◌∷◌ c (String.◌∷◌ d s)) =
    if is_open (code c) && is_open (code d)
    then elim (content s) [ none ↦ none | some r ↦ if is_empty r.0 then none else some r ]
    else none
placeholder _ = none

-- `allowed`.
abbrev pub is_allowed : String → Bool
is_allowed name =
    str_eq name "creator_display_name" || str_eq name "product_name" || str_eq name "campaign_name"

abbrev passes : Option (String × String) → Bool
passes none = true
passes (some r) = is_allowed (trim r.0)

-- The loop over `template.matchAll(…)`: whether no match throws.
unfoldable pub all_allowed : String → Bool
unfolding content trim
all_allowed String.[] = true
all_allowed (String.◌∷◌ c s) = passes (placeholder (String.◌∷◌ c s)) && all_allowed s

-- The patterns of a replacement text: `$$`, `$&`, and the text before and behind the match.
abbrev pub symbol : ℕ → ℕ → String → String → String → Option String
symbol c d matched before after =
    if not (c == b'$')
    then none
    else if d == b'$'
    then some "$"
    else if d == b'&'
    then some matched
    else if d == b'`'
    then some before
    else if d == b'\''
    then some after
    else none

unfoldable pub expand : String → String → String → String → String
expand String.[] matched before after = ""
expand (String.◌∷◌ c String.[]) matched before after = String.◌∷◌ c ""
expand (String.◌∷◌ c (String.◌∷◌ d s)) matched before after =
    elim (symbol (code c) (code d) matched before after) [
      | none ↦ String.◌∷◌ c (expand (String.◌∷◌ d s) matched before after)
      | some t ↦ append t (expand s matched before after)
    ]

-- `/{{\s*name\s*}}/` at the head of a text.
unfoldable pub occurrence : String → String → Option (String × String)
unfolding content trim
occurrence name s = elim (placeholder s) [
  | none ↦ none
  | some r ↦ if str_eq (trim r.0) name then some r else none
]

abbrev pub braced : String → String
braced w = append "{{" (append w "}}")

-- `text.replace(/{{\s*name\s*}}/g, value)`, from the character on that `before` leads up to; the
-- first `skip` characters are of the last match.
unfoldable pub replaced : String → String → String → ℕ → String → String
unfolding occurrence expand text_length
replaced name value before skip String.[] = ""
replaced name value before (suc skip) (String.◌∷◌ c s) =
    replaced name value (append before (String.◌∷◌ c "")) skip s
replaced name value before zero (String.◌∷◌ c s) = elim (occurrence name (String.◌∷◌ c s)) [
  | none ↦ String.◌∷◌ c (replaced name value (append before (String.◌∷◌ c "")) zero s)
  | some r ↦
      append (expand value (braced r.0) before r.1)
        (replaced name value (append before (String.◌∷◌ c "")) (text_length r.0 + 3) s)
]

pub record Values : Type 0 where
  pub creator_display_name : String
  pub product_name : String
  pub campaign_name : String

abbrev pub substituted : Values → String → String
substituted v template = replaced "campaign_name" v.campaign_name "" zero (
    replaced "product_name" v.product_name "" zero
      (replaced "creator_display_name" v.creator_display_name "" zero template))

-- `/{{|}}/.test(rendered)`.
abbrev pub has_braces : String → Bool
has_braces s = includes s "{{" || includes s "}}"

unfoldable pub render_message : String → Values → Option String
unfolding all_allowed replaced includes
render_message template v =
    if not (all_allowed template)
    then none
    else if has_braces (substituted v template)
    then none
    else some (substituted v template)
