-- ===== src/Routing/Tests.antt =====
-- A tree of posts and their comments.
use toa.Prelude.{◌≡◌, ◌≢◌, ◌↔◌, refl, Bool, true, false, Option, none, some, List, [], ◌∷◌, ◌++◌}
use toa.Prelude.Texts.{Text, codes}
use toa.Routing.Segments.{Segment, literal, placeholder, fragment, slash, segment, template}
use toa.Routing.Segments.Spelling.{IsSpelled, segment-template}
use toa.Routing.Tree.{Node, node, nil, route, Properties, Parameters, expired, has_wildcard, match}
use toa.Routing.Tree.Search.{lookup, match-lookup}
use toa.Routing.Tree.Ways.{Fits, Way, match_iff}
use toa.Routing.Tree.Short.{behind, match_short}

abbrev posts : Segment
posts = literal (b'p' ∷ [])

abbrev post : Text
post = b'i' ∷ []

-- "/p/:i"
abbrev posts_post : List Segment
posts_post = posts ∷ placeholder (some post) ∷ []

segment-template_example : segment (template (posts ∷ placeholder (some post) ∷ [])) ≡ posts_post
unfolding IsSpelled
segment-template_example =
    segment-template posts_post (((refl, tt), refl, (λ e. cc e), (λ e. cc e)), ((refl, tt), tt))

abbrev leaf : Bool → Properties
leaf intermediate = record {
  intermediate = intermediate;
  protected = true;
  forward = none;
  expiration = none;
  methods = [];
}

abbrev uri : Text → Option Text
uri s = some s

-- "/p"
abbrev path : Text
path = slash ∷ b'p' ∷ []

abbrev tree : Node
tree =
    node (leaf false)
      (route posts_post (node (leaf true) (route [] (node (leaf false) nil) nil)) nil)

match-lookup_example : match uri 0 tree path ≡ lookup uri 0 tree path
match-lookup_example = match-lookup uri 0 tree path

match_iff_example :
    (match uri 0 tree path ≢ none)
    ↔ Way 0
        (route posts_post (node (leaf true) (route [] (node (leaf false) nil) nil)) nil)
        (fragment path)
match_iff_example =
    match_iff uri 0 (leaf false)
      (route posts_post (node (leaf true) (route [] (node (leaf false) nil) nil)) nil) path
      (λ e. cc e)

match_short_example :
    (values : Parameters) × (match uri 0
        (node (leaf false) (
          route
            (behind (posts ∷ []) post)
            (node (leaf true) (route [] (node (leaf false) nil) nil))
            nil))
        path
      ≡ some (record {
        found = node (leaf false) nil;
        parameters = values ++ (post, codes "undefined") ∷ [];
        path = template (behind (posts ∷ []) post);
      }))
unfolding fragment Fits has_wildcard expired
match_short_example =
    match_short uri 0 (leaf false) (leaf true) (leaf false) (posts ∷ []) post path nil nil nil
      (λ e. cc e) (refl, tt) refl refl refl refl refl
