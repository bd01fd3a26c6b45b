-- ===== src/Domain/Template/Segments.antt =====
-- Templates as lists of segments, and what the patterns of renderMessage find in them.
use Prim.Native.Char.{code}
use tiktok_outreach.Prelude.{
  ℕ, zero, suc, ◌+◌, ◌≡◌, inl, inr, refl, ap, ◌∙◌, String, append, Bool, true, false, ◌&&◌, List,
  [], ◌∷◌, none, some, arith, str_eq, ◌==◌, if◌then◌else◌, is_empty, trim, Bool-cases, Option-cases,
  all, map, All,
}
use tiktok_outreach.Domain.Template.{
  is_open, is_close, text_length, content, placeholder, is_allowed, all_allowed, symbol, expand,
  occurrence, braced, replaced,
}

-- Texts with no opening brace, with no brace at all, and with no `$`.
abbrev pub NoOpen : String → Type 0
NoOpen String.[] = Unit {0}
NoOpen (String.◌∷◌ c s) = (is_open (code c) ≡ false) × NoOpen s

abbrev pub NoBrace : String → Type 0
NoBrace String.[] = Unit {0}
NoBrace (String.◌∷◌ c s) = (is_open (code c) ≡ false) × (is_close (code c) ≡ false) × NoBrace s

abbrev pub NoDollar : String → Type 0
NoDollar String.[] = Unit {0}
NoDollar (String.◌∷◌ c s) = ((code c == b'$') ≡ false) × NoDollar s

-- A placeholder is given by what stands between its braces.
pub data Segment : Type 0 where
  text : String → Segment
  hole : String → Segment

abbrev pub IsValid : Segment → Type 0
IsValid (text t) = NoOpen t
IsValid (hole w) = NoBrace w × (is_empty w ≡ false)

abbrev pub print_segment : Segment → String
print_segment (text t) = t
print_segment (hole w) = braced w

-- The template that is written so.
unfoldable pub print : List Segment → String
print [] = ""
print (g ∷ gs) = append (print_segment g) (print gs)

append-NoOpen : (w : String) → NoBrace w → NoOpen (append w "}}")
append-NoOpen String.[] h = (refl, (refl, tt))
append-NoOpen (String.◌∷◌ c w) h = (h.0, append-NoOpen w h.2)

content-braced :
    (w rest : String) → NoBrace w → content (append (append w "}}") rest) ≡ some (w, rest)
unfolding content
content-braced String.[] rest h = refl
content-braced (String.◌∷◌ c w) rest h = rw (h.1, h.0) (rw (content-braced w rest h.2) refl)

placeholder-none :
    (c : _) (s : String) → is_open (code c) ≡ false → placeholder (String.◌∷◌ c s) ≡ none
placeholder-none c String.[] h = refl
placeholder-none c (String.◌∷◌ d s) h = rw h refl

placeholder-braced :
    (w rest : String)
    → NoBrace w
    → is_empty w ≡ false
    → placeholder (append (braced w) rest) ≡ some (w, rest)
placeholder-braced w rest h nonempty = rw (content-braced w rest h) (rw nonempty refl)

-- The loop over the matches passes over a text with no opening brace.
all_allowed-append : (t rest : String) → NoOpen t → all_allowed (append t rest) ≡ all_allowed rest
unfolding all_allowed
all_allowed-append String.[] rest h = refl
all_allowed-append (String.◌∷◌ c t) rest h =
    rw (placeholder-none c (append t rest) h.0) (all_allowed-append t rest h.1)

-- Behind the first brace of a placeholder no match begins.
all_allowed-inside :
    (w rest : String)
    → NoBrace w
    → is_empty w ≡ false
    → all_allowed (String.◌∷◌ "{" (append (append w "}}") rest)) ≡ all_allowed rest
unfolding all_allowed
all_allowed-inside String.[] rest h nonempty = cc
all_allowed-inside (String.◌∷◌ c w) rest h nonempty =
    rw h.0
      (all_allowed-append (String.◌∷◌ c (append w "}}")) rest (append-NoOpen (String.◌∷◌ c w) h))

abbrev pub allowed : Segment → Bool
allowed (text t) = true
allowed (hole w) = is_allowed (trim w)

pub all_allowed-print :
    (gs : List Segment) → All IsValid gs → all_allowed (print gs) ≡ all allowed gs
unfolding print all_allowed
all_allowed-print [] h = refl
all_allowed-print (text t ∷ gs) h = all_allowed-append t (print gs) h.0 ∙ all_allowed-print gs h.1
all_allowed-print (hole w ∷ gs) h = rw (placeholder-braced w (print gs) h.0.0 h.0.1) (
    ap (λ b. is_allowed (trim w) && b)
      (all_allowed-inside w (print gs) h.0.0 h.0.1 ∙ all_allowed-print gs h.1))

symbol-none : (c d : ℕ) (m b a : String) → (c == b'$') ≡ false → symbol c d m b a ≡ none
symbol-none c d m b a h = rw h refl

-- A replacement text with no `$` stands for itself.
expand-plain : (v m b a : String) → NoDollar v → expand v m b a ≡ v
unfolding expand
expand-plain String.[] m b a h = refl
expand-plain (String.◌∷◌ c String.[]) m b a h = refl
expand-plain (String.◌∷◌ c (String.◌∷◌ d s)) m b a h =
    rw (symbol-none (code c) (code d) m b a h.0, expand)
      (ap (String.◌∷◌ c) (expand-plain (String.◌∷◌ d s) m b a h.1))

-- One replacement, on the segments.
abbrev pub fill_one : String → String → Segment → Segment
fill_one name value (text t) = text t
fill_one name value (hole w) = if str_eq (trim w) name then text value else hole w

module _ (name value : String) (plain : NoDollar value) where
  occurrence-none :
      (c : _) (s : String) → is_open (code c) ≡ false → occurrence name (String.◌∷◌ c s) ≡ none
  unfolding occurrence
  occurrence-none c s h = rw (placeholder-none c s h, occurrence) refl

  -- What leads up to a match matters only to a value with a `$`.
  replaced-before :
      (b b' : String) (k : ℕ) (s : String) → replaced name value b k s ≡ replaced name value b' k s
  unfolding replaced
  replaced-before b b' zero String.[] = refl
  replaced-before b b' (suc k) String.[] = refl
  replaced-before b b' (suc k) (String.◌∷◌ c s) = replaced-before _ _ k s
  replaced-before b b' zero (String.◌∷◌ c s) =
      elim (Option-cases (occurrence name (String.◌∷◌ c s))) [
        | inl e ↦ rw (e, replaced) (ap (String.◌∷◌ c) (replaced-before _ _ zero s))
        | inr (r, e) ↦
            rw (e, replaced)
              (rw
                (
                  expand-plain value (braced r.0) b r.1 plain,
                  expand-plain value (braced r.0) b' r.1 plain,
                )
                (ap (append value) (replaced-before _ _ (text_length r.0 + 3) s)))
      ]

  -- The characters of a match are passed over.
  replaced-skip :
      (u rest : String)
      → replaced name value "" (text_length u) (append u rest) ≡ replaced name value "" zero rest
  unfolding replaced text_length
  replaced-skip String.[] rest = refl
  replaced-skip (String.◌∷◌ c u) rest =
      replaced-before (append "" (String.◌∷◌ c "")) "" (text_length u) (append u rest)
      ∙ replaced-skip u rest

  replaced-append :
      (t rest : String)
      → NoOpen t
      → replaced name value "" zero (append t rest) ≡ append t (replaced name value "" zero rest)
  unfolding replaced
  replaced-append String.[] rest h = refl
  replaced-append (String.◌∷◌ c t) rest h =
      rw (occurrence-none c (append t rest) h.0, replaced)
        (ap (String.◌∷◌ c) (
          replaced-before (append "" (String.◌∷◌ c "")) "" zero (append t rest)
          ∙ replaced-append t rest h.1))

  occurrence-braced :
      (w rest : String)
      → NoBrace w
      → is_empty w ≡ false
      → occurrence name (append (braced w) rest)
        ≡ (if str_eq (trim w) name then some (w, rest) else none)
  unfolding occurrence
  occurrence-braced w rest h nonempty = rw (placeholder-braced w rest h nonempty, occurrence) refl

  length-closed : (w : String) → text_length (append w "}}") ≡ text_length w + 2
  unfolding text_length
  length-closed String.[] = refl
  length-closed (String.◌∷◌ c w) = omega (arith, length-closed w)

  -- The rest of a match, behind its first brace, is passed over.
  replaced-match :
      (w rest : String)
      → replaced name value "" (text_length w + 3) (String.◌∷◌ "{" (append (append w "}}") rest))
        ≡ replaced name value "" zero rest
  unfolding text_length
  replaced-match w rest =
      let len : text_length w + 3 ≡ text_length (String.◌∷◌ "{" (append w "}}")) =
        omega (arith, length-closed w) in
      rw len (replaced-skip (String.◌∷◌ "{" (append w "}}")) rest)

  step-none :
      (c : _) (s : String)
      → occurrence name (String.◌∷◌ c s) ≡ none
      → replaced name value "" zero (String.◌∷◌ c s) ≡ String.◌∷◌ c (replaced name value "" zero s)
  unfolding replaced
  step-none c s e =
      rw (e, replaced) (ap (String.◌∷◌ c) (replaced-before (append "" (String.◌∷◌ c "")) "" zero s))

  step-some :
      (c : _) (s : String) (r : String × String)
      → occurrence name (String.◌∷◌ c s) ≡ some r
      → replaced name value "" zero (String.◌∷◌ c s)
        ≡ append value (replaced name value "" (text_length r.0 + 3) s)
  unfolding replaced
  step-some c s r e =
      rw (e, replaced)
        (rw (expand-plain value (braced r.0) "" r.1 plain) (
          ap (append value)
            (replaced-before (append "" (String.◌∷◌ c "")) "" (text_length r.0 + 3) s)))

  occurrence-second :
      (c : _) (s : String)
      → is_open (code c) ≡ false
      → occurrence name (String.◌∷◌ "{" (String.◌∷◌ c s)) ≡ none
  unfolding occurrence
  occurrence-second c s h = rw (h, occurrence) refl

  -- Behind its first brace a placeholder of another name is a text.
  replaced-inside :
      (w rest : String)
      → NoBrace w
      → is_empty w ≡ false
      → replaced name value "" zero (String.◌∷◌ "{" (append (append w "}}") rest))
        ≡ append (String.◌∷◌ "{" (append w "}}")) (replaced name value "" zero rest)
  replaced-inside String.[] rest h nonempty = cc
  replaced-inside (String.◌∷◌ c w) rest h nonempty =
      step-none "{" (append (append (String.◌∷◌ c w) "}}") rest)
        (occurrence-second c (append (append w "}}") rest) h.0)
      ∙ ap (String.◌∷◌ "{")
          (replaced-append (append (String.◌∷◌ c w) "}}") rest (append-NoOpen (String.◌∷◌ c w) h))

  replaced-hole :
      (w rest : String)
      → NoBrace w
      → is_empty w ≡ false
      → replaced name value "" zero (append (braced w) rest)
        ≡ append (print_segment (fill_one name value (hole w))) (replaced name value "" zero rest)
  replaced-hole w rest h nonempty = elim (Bool-cases (str_eq (trim w) name)) [
    | inl e ↦ rw e (
        step-some "{" _ (w, rest) (occurrence-braced w rest h nonempty ∙ rw e refl)
        ∙ ap (append value) (replaced-match w rest))
    | inr e ↦ rw e (
        step-none "{" _ (occurrence-braced w rest h nonempty ∙ rw e refl)
        ∙ ap (String.◌∷◌ "{") (replaced-inside w rest h nonempty))
  ]

  pub replaced-print :
      (gs : List Segment)
      → All IsValid gs
      → replaced name value "" zero (print gs) ≡ print (map (fill_one name value) gs)
  unfolding print replaced
  replaced-print [] h = refl
  replaced-print (text t ∷ gs) h =
      replaced-append t (print gs) h.0 ∙ ap (append t) (replaced-print gs h.1)
  replaced-print (hole w ∷ gs) h =
      replaced-hole w (print gs) h.0.0 h.0.1
      ∙ ap (append (print_segment (fill_one name value (hole w)))) (replaced-print gs h.1)

pub fill_one-IsValid :
    (name value : String) (gs : List Segment)
    → NoOpen value
    → All IsValid gs
    → All IsValid (map (fill_one name value) gs)
fill_one-IsValid name value [] v h = tt
fill_one-IsValid name value (text t ∷ gs) v h = (h.0, fill_one-IsValid name value gs v h.1)
fill_one-IsValid name value (hole w ∷ gs) v h = elim (Bool-cases (str_eq (trim w) name)) [
  | inl e ↦ rw e (v, fill_one-IsValid name value gs v h.1)
  | inr e ↦ rw e (h.0, fill_one-IsValid name value gs v h.1)
]
