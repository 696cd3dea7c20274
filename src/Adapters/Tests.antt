-- ===== src/Adapters/Tests.antt =====
-- The adapters on small worlds.
use autonomy_harbor.Base.{
  ℕ, suc, ◌≡◌, ◌⊎◌, refl, String, some, [], ◌∷◌, Result, ok, is_blank, if◌then◌else◌, strip, ◌++◌,
}
use autonomy_harbor.Json.{str, Fields, end, fields}
use autonomy_harbor.Platform.Model.{model}
use autonomy_harbor.Models.{ActionRequest}
use autonomy_harbor.Gate.Fixtures.{read_request}
use autonomy_harbor.Adapters.{
  Adapter, AdapterRegistry, register_adapter, pending_bindings, resolve, binds, key_of, entries,
}
use autonomy_harbor.Adapters.Dispatch.{resolve-register_adapter}
use autonomy_harbor.Adapters.Config.{sandbox_bindings}
use autonomy_harbor.Adapters.Github.{Call, GithubAdapter, github_bindings, github_execute}
use autonomy_harbor.Adapters.Posts.{IsGet, IsPost, github_execute-cases}

abbrev send : Call → ℕ → Result Fields × ℕ
send c n = (ok end, suc n)

abbrev quote : String → String
quote s = s

abbrev github : GithubAdapter
github = record { token = some "secret"; api_base = "https://api.github.com" }

abbrev issue : ActionRequest
issue = record read_request {
  capability = "github.issue.create";
  action = "create_issue";
  resource = "owner/repo";
  payload = fields (("title", str "Add tests") ∷ []);
}

github_execute-cases_example :
    let world' = (github_execute quote send github issue 0).1 in
    ((world' ≡ 0)
      ⊎ IsGet quote send github issue 0 world'
      ⊎ IsPost quote send github issue 0 world')
github_execute-cases_example = github_execute-cases quote send github issue 0

abbrev github_adapter : Adapter ℕ
github_adapter = record {
  adapter_id = "github";
  bindings = github_bindings;
  execute = github_execute quote send github;
}

abbrev sandbox_adapter : Adapter ℕ
sandbox_adapter = record {
  adapter_id = "sandbox";
  bindings = sandbox_bindings;
  execute = λ (request : ActionRequest) (world : ℕ). (ok end, world);
}

abbrev one_adapter : AdapterRegistry ℕ
one_adapter = record { by_binding = entries sandbox_adapter sandbox_bindings; ids = "sandbox" ∷ [] }

abbrev two_adapters : AdapterRegistry ℕ
two_adapters = record {
  by_binding = one_adapter.by_binding ++ entries github_adapter github_bindings;
  ids = "github" ∷ "sandbox" ∷ [];
}

registers : register_adapter github_adapter one_adapter ≡ ok two_adapters
unfolding register_adapter pending_bindings is_blank strip
registers = refl

resolve-register_adapter_example : resolve issue two_adapters ≡ (
    if binds github_bindings (key_of issue) then ok github_adapter else resolve issue one_adapter)
resolve-register_adapter_example =
    resolve-register_adapter github_adapter one_adapter two_adapters issue registers
