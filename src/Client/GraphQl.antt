-- ===== src/Client/GraphQl.antt =====
-- internal/cloudflare/graphql.go: the errors of the Analytics API, which arrive with HTTP 200.
use cftm.Base.{String, Bool, ◌==◌, List, map, exists_by}
use cftm.Base.Text.{◌<>◌, join}

-- graphQLError: one entry of the errors array
pub record Entry : Type 0 where
  pub message : String
  pub code : String

-- GraphQLError
pub record QueryError : Type 0 where
  pub errors : List String
  pub authz : Bool

-- Error of GraphQLError
unfoldable pub text : QueryError → String
text e = "cloudflare graphql: " <> join e.errors "; "

-- newGraphQLError
unfoldable pub new_error : List Entry → QueryError
new_error entries = record {
  errors = map (λ e. e.message) entries;
  authz = exists_by (λ e. e.code == "authz") entries;
}
