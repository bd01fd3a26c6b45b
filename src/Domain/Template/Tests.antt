-- ===== src/Domain/Template/Tests.antt =====
-- A few messages.
use tiktok_outreach.Prelude.{◌≡◌, refl, none, some, List, [], ◌∷◌, all, trim, if◌then◌else◌}
use tiktok_outreach.Domain.Template.{Values, has_braces, render_message}
use tiktok_outreach.Domain.Template.Segments.{Segment, text, hole, print, allowed}
use tiktok_outreach.Domain.Template.Rendering.{filled, render_message-print}

abbrev values : Values
values = record { creator_display_name = "Ada"; product_name = "Tea $$ set"; campaign_name = "May" }

greets :
    render_message "Hi {{ creator_display_name }}: {{product_name}}, {{campaign_name}}!" values
    ≡ some "Hi Ada: Tea $ set, May!"
unfolding render_message
greets = refl

unknown : render_message "Hi {{name}}" values ≡ none
unfolding render_message
unknown = refl

unclosed : render_message "Hi {{product_name" values ≡ none
unfolding render_message
unclosed = refl

doubled : render_message "Hi {{{product_name}}" values ≡ some "Hi {Tea $ set"
unfolding render_message
doubled = refl

abbrev plain_values : Values
plain_values = record { creator_display_name = "Ada"; product_name = "Tea"; campaign_name = "May" }

abbrev greeting : List Segment
greeting = text "Hi " ∷ hole " creator_display_name " ∷ text ": " ∷ hole "product_name" ∷ []

render_message-print_example : render_message (print greeting) plain_values ≡ (
    if all allowed greeting
    then if has_braces (filled plain_values greeting)
      then none
      else some (filled plain_values greeting)
    else none)
render_message-print_example =
    render_message-print plain_values (search tt, search tt) (search tt, search tt)
      (search tt, search tt) greeting (search tt)

greets_ada : filled plain_values greeting ≡ "Hi Ada: Tea"
unfolding filled trim
greets_ada = refl

-- `$&` in a value puts the placeholder back.
dollar_pattern :
    render_message "Buy {{product_name}}" (record plain_values { product_name = "A$&B" }) ≡ none
unfolding render_message
dollar_pattern = refl

-- So does a name that holds a later placeholder: it is filled in its turn.
nested_name :
    render_message "Hi {{creator_display_name}}"
      (record plain_values { creator_display_name = "{{product_name}}" })
    ≡ some "Hi Tea"
unfolding render_message
nested_name = refl

-- A creator whose name has closing braces.
braced_name :
    render_message "Hi {{creator_display_name}}"
      (record plain_values { creator_display_name = "Ada }}" })
    ≡ none
unfolding render_message
braced_name = refl
