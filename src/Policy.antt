-- ===== src/Policy.antt =====
-- internal/policy/policy.go: the risk of a tool request, and whether auto-pass approves it.
-- `to_lower` is Go's strings.ToLower, whose Unicode tables are not in the repository.
pub mod Laws
use saturnus.Base.{
  ℕ, String, Bool, true, false, not, ◌&&◌, ◌||◌, List, [], ◌∷◌, ◌==◌, if◌then◌else◌, any, ltb, eqb,
  contains,
}
use saturnus.Store.Types.{Time, Session}

pub record Evaluation : Type 0 where
  pub auto_approve : Bool
  pub risk_level : String
  pub reason : String

abbrev pub contains_any : List String → String → Bool
contains_any needles s = any (λ t. contains s t) needles

unfoldable pub has_allowed_command : String → Bool
has_allowed_command = contains_any (
    "go test" ∷ "go vet" ∷ "go run" ∷ "npm test" ∷ "npm run test" ∷ "npm run lint" ∷ "pnpm test"
    ∷ "pnpm lint" ∷ "yarn test" ∷ "yarn lint" ∷ [])

unfoldable pub has_dangerous_command : String → Bool
has_dangerous_command = contains_any (
    "rm -rf" ∷ "sudo " ∷ "chmod 777" ∷ "chown " ∷ "git push" ∷ "git reset --hard" ∷ "kubectl apply"
    ∷ "kubectl delete" ∷ "terraform apply" ∷ "terraform destroy" ∷ "npm publish" ∷ "docker push"
    ∷ "curl " ∷ "wget " ∷ [])

unfoldable pub has_external_path : String → Bool
has_external_path =
    contains_any
      ("\"/etc/" ∷ "\"/var/" ∷ "\"/usr/" ∷ "\"/bin/" ∷ "\"/sbin/" ∷ "\"/users/" ∷ "../" ∷ [])

unfoldable pub has_secret_pattern : String → Bool
has_secret_pattern =
    contains_any
      ("api_key" ∷ "apikey" ∷ "secret" ∷ "token" ∷ "password" ∷ "private_key" ∷ ".env" ∷ [])

-- the tests that `Risk` makes on the name, in its order
unfoldable pub is_read : String → Bool
is_read name = contains name "read" || contains name "list" || contains name "search"

unfoldable pub is_write : String → Bool
is_write name = contains name "write" || contains name "edit" || contains name "patch"

unfoldable pub is_exec : String → Bool
is_exec name = contains name "exec" || contains name "shell" || contains name "command"

module _ (to_lower : String → String) where
  unfoldable pub risk : String → String → String
  risk tool_name tool_input =
      let name = to_lower tool_name in
      let body = to_lower tool_input in
      if is_read name
      then (if has_secret_pattern body then "high" else "low")
      else if is_write name
      then (if has_external_path body || has_secret_pattern body then "high" else "low")
      else if is_exec name
      then (if has_dangerous_command body || has_secret_pattern body
          then "high"
          else if has_allowed_command body
          then "low"
          else "medium")
      else if has_dangerous_command body || has_secret_pattern body
      then "high"
      else "medium"

  unfoldable pub evaluate : Time → Session → String → String → Evaluation
  evaluate now session tool_name tool_input =
      let level = risk tool_name tool_input in
      if not session.auto_pass
      then record { auto_approve = false; risk_level = level; reason = "auto-pass disabled" }
      else if not (eqb session.auto_pass_until 0) && ltb session.auto_pass_until now
      then record { auto_approve = false; risk_level = level; reason = "auto-pass expired" }
      else if not (level == "low")
      then record {
        auto_approve = false;
        risk_level = level;
        reason = "manual review required for non-low risk request";
      }
      else record {
        auto_approve = true;
        risk_level = level;
        reason = "matched low-risk auto-pass policy";
      }
