-- ===== src/Adapters/Github.antt =====
-- `GitHubAdapter` of github_adapter.py. The transport and the quoting of URLs are arguments.
use Prim.Native.Char.{code, Char}
use autonomy_harbor.Base.{
  String, Bool, true, false, not, ◌&&◌, ◌||◌, Option, none, some, List, [], ◌∷◌, ◌<>◌, ◌==◌, nat_eq,
  strip, is_blank, is_some, Result, ok, raised, fail, adapter_error, if◌then◌else◌, ◌>>=◌, ◌>>◌,
}
use autonomy_harbor.Json.{
  Json, null, bool, str, arr, Items, nil, cons, Fields, fields, get, put, is_falsy, or_null,
}
use autonomy_harbor.Models.{ActionRequest}
use autonomy_harbor.Registry.{or_default}
use autonomy_harbor.Adapters.{AdapterBinding, reject_as}

-- the bindings of `GitHubAdapter`
abbrev pub github_bindings : List AdapterBinding
github_bindings =
    record { capability = "github.repo.read"; action = "get_repo" }
    ∷ record { capability = "github.issue.create"; action = "create_issue" }
    ∷ []

-- the arguments of `GitHubTransport.request`
pub record Call : Type 0 where
  pub method : String
  pub url : String
  pub headers : List (String × String)
  pub json_body : Option Fields

pub record GithubAdapter : Type 0 where
  pub token : Option String
  pub api_base : String

-- `s.lstrip("/")` and `s.rstrip("/")`
abbrev lstrip_slash : String → String
lstrip_slash String.[] = ""
lstrip_slash (String.◌∷◌ c s) =
    let rest = lstrip_slash s in if nat_eq (code c) 47 then rest else String.◌∷◌ c s

unfoldable pub rstrip_slash : String → String
rstrip_slash String.[] = ""
rstrip_slash (String.◌∷◌ c s) =
    let rest = rstrip_slash s in if nat_eq (code c) 47 && rest == "" then "" else String.◌∷◌ c rest

abbrev before_first : Char → List String → List String
before_first c [] = []
before_first c (part ∷ parts) = String.◌∷◌ c part ∷ parts

-- `s.split("/")`
unfoldable pub split_slash : String → List String
split_slash String.[] = "" ∷ []
split_slash (String.◌∷◌ c s) =
    let rest = split_slash s in if nat_eq (code c) 47 then "" ∷ rest else before_first c rest

abbrev used_token : Option String → Option String
used_token none = none
used_token (some t) = if is_blank t then none else some (strip t)

-- `GitHubAdapter.__init__`
unfoldable pub make_github_adapter : Option String → String → GithubAdapter
make_github_adapter token api_base = record {
  token = used_token token;
  api_base = rstrip_slash api_base;
}

abbrev bearer : Option String → List (String × String)
bearer none = []
bearer (some token) = ("Authorization", "Bearer " <> token) ∷ []

unfoldable pub headers_of : GithubAdapter → Bool → Result (List (String × String))
headers_of adapter require_auth = do
  reject_as adapter_error (require_auth && not (is_some adapter.token)) "github_token_required"
  ok (
      ("Accept", "application/vnd.github+json")
      ∷ ("Content-Type", "application/json")
      ∷ ("X-GitHub-Api-Version", "2022-11-28")
      ∷ ("User-Agent", "Autonomy-Harbor-GitHub-Adapter/1.1")
      ∷ bearer adapter.token)

abbrev two_parts : List String → Result (String × String)
two_parts (owner ∷ repo ∷ []) =
    if owner == "" || repo == ""
    then fail adapter_error "github_resource_must_be_owner_repo"
    else ok (owner, repo)
two_parts parts = fail adapter_error "github_resource_must_be_owner_repo"

unfoldable pub repo_resource : String → Result (String × String)
repo_resource resource = two_parts (split_slash (rstrip_slash (lstrip_slash resource)))

abbrev title_in : Option Json → Result String
title_in (some (str t)) =
    if is_blank t then fail adapter_error "github_issue_title_required" else ok (strip t)
title_in v = fail adapter_error "github_issue_title_required"

abbrev with_body : Option Json → Fields → Result Fields
with_body none d = ok d
with_body (some null) d = ok d
with_body (some (str body)) d = ok (put "body" (str body) d)
with_body (some v) d = fail adapter_error "github_issue_body_must_be_string"

abbrev are_texts : Items → Bool
are_texts nil = true
are_texts (cons (str t) vs) = are_texts vs
are_texts (cons v vs) = false

-- one turn of the loop over "labels" and "assignees"
abbrev with_texts : String → Option Json → Fields → Result Fields
with_texts name none d = ok d
with_texts name (some null) d = ok d
with_texts name (some (arr vs)) d =
    if are_texts vs
    then ok (put name (arr vs) d)
    else fail adapter_error ("github_issue_" <> name <> "_must_be_string_array")
with_texts name (some v) d = fail adapter_error ("github_issue_" <> name <> "_must_be_string_array")

unfoldable pub issue_payload : Fields → Result Fields
issue_payload payload = do
  title ← title_in (get "title" payload)
  with_text ← with_body (get "body" payload) (fields (("title", str title) ∷ []))
  with_labels ← with_texts "labels" (get "labels" payload) with_text
  with_texts "assignees" (get "assignees" payload) with_labels

unfoldable pub repo_reply : ActionRequest → Fields → Fields
repo_reply request value = fields (
    ("repository_full_name", or_default (get "full_name" value) (str request.resource))
    ∷ ("private", bool (not (is_falsy (get "private" value))))
    ∷ ("default_branch", or_null (get "default_branch" value))
    ∷ ("html_url", or_null (get "html_url" value))
    ∷ [])

unfoldable pub issue_reply : ActionRequest → Fields → Fields → Fields
issue_reply request payload value = fields (
    ("repository_full_name", str request.resource)
    ∷ ("issue_number", or_null (get "number" value))
    ∷ ("state", or_null (get "state" value))
    ∷ ("title", or_default (get "title" value) (or_null (get "title" payload)))
    ∷ ("html_url", or_null (get "html_url" value))
    ∷ [])

module _ {World : Type 0} (quote : String → String) (send : Call → World → Result Fields × World)
    (adapter : GithubAdapter) where
  unfoldable pub repo_url : String × String → String
  repo_url (owner, repo) = adapter.api_base <> "/repos/" <> quote owner <> "/" <> quote repo

  unfoldable pub get_repo_call : ActionRequest → Result Call
  get_repo_call request = do
    target ← repo_resource request.resource
    headers ← headers_of adapter false
    ok (record { method = "GET"; url = repo_url target; headers = headers; json_body = none })

  unfoldable pub create_issue_call : ActionRequest → Result (Call × Fields)
  create_issue_call request = do
    target ← repo_resource request.resource
    payload ← issue_payload request.payload
    headers ← headers_of adapter true
    ok (
      record {
        method = "POST";
        url = repo_url target <> "/issues";
        headers = headers;
        json_body = some payload;
      },
      payload,
    )

  abbrev replied : (Fields → Fields) → Result Fields → Result Fields
  replied reply (raised e) = raised e
  replied reply (ok value) = ok (reply value)

  unfoldable pub send_get : ActionRequest → Result Call → World → Result Fields × World
  send_get request (raised e) world = (raised e, world)
  send_get request (ok c) world =
      let (value, world') = send c world in (replied (repo_reply request) value, world')

  unfoldable pub send_post : ActionRequest → Result (Call × Fields) → World → Result Fields × World
  send_post request (raised e) world = (raised e, world)
  send_post request (ok (c, payload)) world =
      let (value, world') = send c world in (replied (issue_reply request payload) value, world')

  -- `GitHubAdapter.execute`
  unfoldable pub github_execute : ActionRequest → World → Result Fields × World
  github_execute request world =
      if request.capability == "github.repo.read" && request.action == "get_repo"
      then send_get request (get_repo_call request) world
      else if request.capability == "github.issue.create" && request.action == "create_issue"
      then send_post request (create_issue_call request) world
      else (
        fail adapter_error
            ("github_binding_not_supported:" <> request.capability <> ":" <> request.action),
        world,
      )
