-- ===== src/Domain/Template/Rendering.antt =====
-- What renderMessage makes of a template, given as segments.
use tiktok_outreach.Prelude.{
  zero, ◌≡◌, inl, inr, refl, ap, ◌∙◌, String, true, List, [], ◌∷◌, none, some, arith, str_eq,
  if◌then◌else◌, trim, append, Bool-cases, all, map, All,
}
use tiktok_outreach.Domain.Template.{replaced, Values, substituted, has_braces, render_message}
use tiktok_outreach.Domain.Template.Segments.{
  NoOpen, NoDollar, Segment, text, hole, IsValid, print, allowed, all_allowed-print, fill_one,
  replaced-print, fill_one-IsValid,
}

abbrev pub value_of : Values → String → String
value_of v name =
    if str_eq name "creator_display_name"
    then v.creator_display_name
    else if str_eq name "product_name"
    then v.product_name
    else if str_eq name "campaign_name"
    then v.campaign_name
    else ""

-- The message that a template means.
unfoldable pub filled : Values → List Segment → String
filled v [] = ""
filled v (text t ∷ gs) = append t (filled v gs)
filled v (hole w ∷ gs) = append (value_of v (trim w)) (filled v gs)

-- A value that the program can put in as it is.
abbrev pub IsPlain : String → Type 0
IsPlain s = NoOpen s × NoDollar s

abbrev fill_all : Values → List Segment → List Segment
fill_all v gs = map (fill_one "campaign_name" v.campaign_name) (
    map (fill_one "product_name" v.product_name)
      (map (fill_one "creator_display_name" v.creator_display_name) gs))

-- Once each placeholder is of a known name, the three replacements leave none.
print-fill_all :
    (v : Values) (gs : List Segment) → all allowed gs ≡ true → print (fill_all v gs) ≡ filled v gs
unfolding print filled
print-fill_all v [] h = refl
print-fill_all v (text t ∷ gs) h = ap (append t) (print-fill_all v gs h)
print-fill_all v (hole w ∷ gs) h =
    let rest : all allowed gs ≡ true = ground arith in
    elim (Bool-cases (str_eq (trim w) "creator_display_name")) [
      | inl a ↦ rw a (ap (append v.creator_display_name) (print-fill_all v gs rest))
      | inr a ↦ elim (Bool-cases (str_eq (trim w) "product_name")) [
        | inl b ↦ rw (a, b) (ap (append v.product_name) (print-fill_all v gs rest))
        | inr b ↦
            let last : str_eq (trim w) "campaign_name" ≡ true = ground arith in
            rw (a, b, last) (ap (append v.campaign_name) (print-fill_all v gs rest))
      ]
    ]

module _ (v : Values) (creator : IsPlain v.creator_display_name) (product : IsPlain v.product_name)
    (campaign : IsPlain v.campaign_name) where
  substituted-print :
      (gs : List Segment) → All IsValid gs → substituted v (print gs) ≡ print (fill_all v gs)
  substituted-print gs h =
      let first = map (fill_one "creator_display_name" v.creator_display_name) gs in
      let second = map (fill_one "product_name" v.product_name) first in
      let first-IsValid =
        fill_one-IsValid "creator_display_name" v.creator_display_name gs creator.0 h in
      let second-IsValid =
        fill_one-IsValid "product_name" v.product_name first product.0 first-IsValid in
      ap
        (λ t.
          replaced "campaign_name" v.campaign_name "" zero
            (replaced "product_name" v.product_name "" zero t))
        (replaced-print "creator_display_name" v.creator_display_name creator.1 gs h)
      ∙ ap (replaced "campaign_name" v.campaign_name "" zero)
          (replaced-print "product_name" v.product_name product.1 first first-IsValid)
      ∙ replaced-print "campaign_name" v.campaign_name campaign.1 second second-IsValid

  -- A template of texts and placeholders, in which no text has an opening brace and no placeholder a
  -- brace inside, with values that hold no `$` and no opening brace. If every placeholder has a known
  -- name, spaces aside, the message is the template with each placeholder's value in its place, in
  -- every place, unless that text has `{{` or `}}`: then renderMessage throws. If any placeholder has
  -- another name, it throws.
  pub render_message-print :
      (gs : List Segment)
      → All IsValid gs
      → render_message (print gs) v ≡ (
          if all allowed gs
          then if has_braces (filled v gs) then none else some (filled v gs)
          else none)
  unfolding render_message
  render_message-print gs h = elim (Bool-cases (all allowed gs)) [
    | inl e ↦
        rw (all_allowed-print gs h, e)
          (ap (λ t. if has_braces t then none else some t)
            (substituted-print gs h ∙ print-fill_all v gs e))
    | inr e ↦ rw (all_allowed-print gs h, e) refl
  ]
