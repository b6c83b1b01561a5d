-- ===== src/Http/Routes/Paths.antt =====
-- The paths of the routes of pkg/http/postserver.go, and the route that gin finds for a path.
use batch_job_controller.Base.{
  String, List, [], ◌∷◌, Option, none, some, ◌≡◌, ◌≢◌, ◌∙◌, refl, sym, ap, arith, ◌<>◌, ◌==◌, ◌>>=◌,
  eq_iff, eqb, split, if◌then◌else◌,
}
use Prim.Native.Char.{code}
use text.Mathlib.TextLemmas.{nil-append}
use text.Mathlib.TextLemmas
use batch_job_controller.Base.Dict.{Dict}
use batch_job_controller.Config.Paths.Reports.{split-append}
use batch_job_controller.Metrics.Names.{get_text}
use batch_job_controller.Http.Routes.{Route, results, files, events}

-- `CallbackBasePath` and the sub-paths
abbrev pub callback_base_path : String
callback_base_path = "/report/:node/:executionID"

abbrev pub callback_base_result_sub_path : String
callback_base_result_sub_path = "/result"

abbrev pub callback_base_file_sub_path : String
callback_base_file_sub_path = "/file"

abbrev pub callback_base_event_sub_path : String
callback_base_event_sub_path = "/event"

abbrev pub sub_path : Route → String
sub_path results = callback_base_result_sub_path
sub_path files = callback_base_file_sub_path
sub_path events = callback_base_event_sub_path

-- what `GenericAPIServer` registers for POST, in its group
unfoldable pub registered : List (String × Route)
registered =
    (callback_base_path <> callback_base_result_sub_path, results)
    ∷ (callback_base_path <> callback_base_file_sub_path, files)
    ∷ (callback_base_path <> callback_base_event_sub_path, events)
    ∷ []

-- `nodeAndID`, of the parameters that gin has found
unfoldable pub node_and_id : Dict String → String × String
node_and_id params = (get_text "node" params, get_text "executionID" params)

-- The name of a parameter, for a segment of a pattern that begins with a colon.
abbrev pub parameter : String → Option String
parameter String.[] = none
parameter (String.◌∷◌ c s) = if eqb (code c) b':' then some s else none

-- A path fits a pattern, segment by segment: a parameter takes any that is not empty, and another segment itself.
abbrev pub fits : List String → List String → Option (Dict String)
fits [] [] = some []
fits [] (t ∷ ts) = none
fits (s ∷ ss) [] = none
fits (s ∷ ss) (t ∷ ts) =
    let rest = fits ss ts in
    elim (parameter s) [
      | some name ↦ if t == "" then none else (rest >>= λ params. some ((name, t) ∷ params))
      | none ↦ if s == t then rest else none
    ]

-- The routes whose patterns the segments of a path fit, with the values of the parameters.
abbrev pub fitting : List (String × Route) → (segments : List String) → List (Route × Dict String)
fitting [] segments = []
fitting ((pattern_, route) ∷ routes) segments =
    let rest = fitting routes segments in
    elim (fits (split b'/' pattern_) segments) [
      | none ↦ rest
      | some params ↦ (route, params) ∷ rest
    ]

-- gin: what it finds for a path, among the routes that are registered. Where exactly one fits, it is found.
pub record Gin : Type 0 where
  pub find : List (String × Route) → (path : String) → Option (Route × Dict String)
  pub find-fitting :
      (routes : List (String × Route)) (path : String) (found : Route × Dict String)
      → fitting routes (split b'/' path) ≡ found ∷ []
      → find routes path ≡ some found

-- A segment of a path: not empty and with no slash.
pub record IsSegment (part : String) : Type 0 where
  pub whole : split b'/' part ≡ part ∷ []
  pub some_text : part ≢ ""

-- the path of a route for a node and an execution
abbrev pub path_for : (node id : String) → Route → String
path_for node id route = "/report/" <> node <> "/" <> id <> sub_path route

split-path_for :
    (node id : String) (route : Route) (last : String)
    → sub_path route ≡ "/" <> last
    → IsSegment node
    → IsSegment id
    → split b'/' (path_for node id route) ≡ "" ∷ "report" ∷ node ∷ id ∷ split b'/' last
unfolding split
split-path_for node id route last is n i =
    let x = node <> "/" <> id <> "/" <> last in
    let e : path_for node id route ≡ "" <> "/" <> "report" <> "/" <> x =
      ap (λ (s : String). "/report/" <> node <> "/" <> id <> s) is
      ∙ (TextLemmas.append_assoc "/report" "/" x
          ∙ (TextLemmas.append_assoc "/" "report" ("/" <> x)
              ∙ sym (nil-append ("/" <> "report" <> "/" <> x)))) in
    rw
      (
        e,
        split-append "" ("report" <> "/" <> x),
        split-append "report" x,
        split-append node,
        split-append id,
        n.whole,
        i.whole,
      )
      refl

-- Each route is found by its path.
pub find-path_for :
    (g : Gin) (node id : String) (route : Route)
    → IsSegment node
    → IsSegment id
    → (params : Dict String) × (g.find registered (path_for node id route) ≡ some (route, params))
      × (node_and_id params ≡ (node, id))
unfolding registered node_and_id split
find-path_for g node id route n i =
    let params : Dict String = ("node", node) ∷ ("executionID", id) ∷ [] in
    (
      params,
      g.find-fitting registered (path_for node id route) (route, params) (only_fits route),
      refl,
    )
  where
    only_fits :
        (at : Route)
        → fitting registered (split b'/' (path_for node id at))
          ≡ (at, ("node", node) ∷ ("executionID", id) ∷ []) ∷ []
    only_fits results =
        ap (fitting registered) (split-path_for node id results "result" refl n i)
        ∙ ground (arith, eq_iff node "", eq_iff id "", n.some_text, i.some_text)
    only_fits files =
        ap (fitting registered) (split-path_for node id files "file" refl n i)
        ∙ ground (arith, eq_iff node "", eq_iff id "", n.some_text, i.some_text)
    only_fits events =
        ap (fitting registered) (split-path_for node id events "event" refl n i)
        ∙ ground (arith, eq_iff node "", eq_iff id "", n.some_text, i.some_text)
