-- ===== src/Adapters/Posts.antt =====
-- The calls that the GitHub adapter makes.
use autonomy_harbor.Base.{
  ◌≡◌, ◌⊎◌, refl, inl, inr, String, true, false, ◌&&◌, some, List, ◌<>◌, ◌==◌, arith, eq_iff,
  is_some, Result, ok, raised, Bool-cases, Result-cases,
}
use autonomy_harbor.Json.{Fields}
use autonomy_harbor.Models.{ActionRequest}
use autonomy_harbor.Adapters.Github.{
  Call, GithubAdapter, repo_resource, issue_payload, headers_of, repo_url, get_repo_call,
  create_issue_call, send_get, send_post, github_execute,
}

module _ {World : Type 0} (quote : String → String) (send : Call → World → Result Fields × World)
    (adapter : GithubAdapter) where
  -- one read of the repository that the resource names
  pub record IsGet (request : ActionRequest) (world world' : World) : Type 0 where
    pub call : Call
    pub target : String × String
    pub capability : request.capability ≡ "github.repo.read"
    pub action : request.action ≡ "get_repo"
    pub named : repo_resource request.resource ≡ ok target
    pub method : call.method ≡ "GET"
    pub url : call.url ≡ repo_url quote send adapter target
    pub sent : world' ≡ (send call world).1

  -- one issue, with a token, in the repository that the resource names
  pub record IsPost (request : ActionRequest) (world world' : World) : Type 0 where
    pub call : Call
    pub target : String × String
    pub payload : Fields
    pub capability : request.capability ≡ "github.issue.create"
    pub action : request.action ≡ "create_issue"
    pub named : repo_resource request.resource ≡ ok target
    pub with_token : is_some adapter.token ≡ true
    pub body : issue_payload request.payload ≡ ok payload
    pub method : call.method ≡ "POST"
    pub url : call.url ≡ repo_url quote send adapter target <> "/issues"
    pub json : call.json_body ≡ some payload
    pub sent : world' ≡ (send call world).1

  send_get-cases :
      (request : ActionRequest) (world : World) (c : Result Call)
      → get_repo_call quote send adapter request ≡ c
      → request.capability ≡ "github.repo.read"
      → request.action ≡ "get_repo"
      → let world' = (send_get quote send adapter request c world).1 in
        ((world' ≡ world) ⊎ IsGet request world world')
  unfolding send_get get_repo_call
  send_get-cases request world (raised e) h capability action = inl refl
  send_get-cases request world (ok c) h capability action =
      elim (Result-cases (repo_resource request.resource)) [
        | inr (e, bad) ↦ absurd (ground (arith, bad))
        | inl (target, named) ↦ elim (Result-cases (headers_of adapter false)) [
          | inr (e, bad) ↦ absurd (ground (arith, named, bad))
          | inl (headers, good) ↦ inr (record {
            call = c;
            target = target;
            capability = capability;
            action = action;
            named = named;
            method = ground (arith, named, good);
            url = ground (arith, named, good);
            sent = refl;
          })
        ]
      ]

  headers_of-token :
      (headers : List (String × String))
      → headers_of adapter true ≡ ok headers
      → is_some adapter.token ≡ true
  unfolding headers_of
  headers_of-token headers h = ground arith

  send_post-cases :
      (request : ActionRequest) (world : World) (c : Result (Call × Fields))
      → create_issue_call quote send adapter request ≡ c
      → request.capability ≡ "github.issue.create"
      → request.action ≡ "create_issue"
      → let world' = (send_post quote send adapter request c world).1 in
        ((world' ≡ world) ⊎ IsPost request world world')
  unfolding send_post create_issue_call
  send_post-cases request world (raised e) h capability action = inl refl
  send_post-cases request world (ok (c, sent_payload)) h capability action =
      elim (Result-cases (repo_resource request.resource)) [
        | inr (e, bad) ↦ absurd (ground (arith, bad))
        | inl (target, named) ↦ elim (Result-cases (issue_payload request.payload)) [
          | inr (e, bad) ↦ absurd (ground (arith, named, bad))
          | inl (payload, checked) ↦ elim (Result-cases (headers_of adapter true)) [
            | inr (e, bad) ↦ absurd (ground (arith, named, checked, bad))
            | inl (headers, good) ↦ inr (record {
              call = c;
              target = target;
              payload = payload;
              capability = capability;
              action = action;
              named = named;
              with_token = headers_of-token headers good;
              body = checked;
              method = ground (arith, named, checked, good);
              url = ground (arith, named, checked, good);
              json = ground (arith, named, checked, good);
              sent = refl;
            })
          ]
        ]
      ]

  -- An execution calls GitHub at most once: to read the repository that the resource names, where the
  -- request is to read it, or to create an issue there with the payload's checked fields, where the
  -- request is to do so and the adapter has a token; and nothing is sent otherwise.
  pub github_execute-cases :
      (request : ActionRequest) (world : World)
      → let world' = (github_execute quote send adapter request world).1 in
        ((world' ≡ world) ⊎ IsGet request world world' ⊎ IsPost request world world')
  unfolding github_execute
  github_execute-cases request world =
      elim (Bool-cases (request.capability == "github.repo.read" && request.action == "get_repo")) [
        | inl gets ↦
            rw (gets)
              (elim (send_get-cases request world (get_repo_call quote send adapter request) refl
                (ground (arith, gets, eq_iff request.capability "github.repo.read"))
                (ground (arith, gets, eq_iff request.action "get_repo"))) [
                  | inl same ↦ inl same
                  | inr w ↦ inr (inl w)
                ])
        | inr other ↦
            elim (Bool-cases
              (request.capability == "github.issue.create" && request.action == "create_issue")) [
                | inr neither ↦ rw (other, neither) (inl refl)
                | inl posts ↦
                    rw (other, posts)
                      (elim (send_post-cases request world
                        (create_issue_call quote send adapter request) refl
                        (ground (arith, posts, eq_iff request.capability "github.issue.create"))
                        (ground (arith, posts, eq_iff request.action "create_issue"))) [
                          | inl same ↦ inl same
                          | inr w ↦ inr (inr w)
                        ])
              ]
      ]
