-- ===== src/Api.antt =====
-- api/handlers.go, api/types.go and buildTree of api/api.go: what the HTTP API answers, as a function of
-- the request and of what the storage returns. A number of 32 or 20 bytes stands for those bytes; the
-- texts of the responses are written out. The encoding of a response as JSON, the server and the page
-- of the user interface are not modelled.
pub mod Hex
pub mod Proof
pub mod Diff
pub mod Commit
mod Tests
use ssv_oracle.Prelude.{
  ℕ, Option, none, some, List, [], ◌∷◌, Text, text, u64_mod, ltb, if◌then◌else◌,
}
use ssv_oracle.Storage.{Db}
use ssv_oracle.Storage.Commits.{OracleCommit, get_latest_commit, get_commit_by_epoch}
use ssv_oracle.Storage.Clusters.{ClusterInfo, get_all_cluster_info}
use ssv_oracle.Storage.Encoding.{read_number}

-- The path value and the query parameters of a request; a parameter that is missing is empty.
pub record Request : Type 0 where
  pub cluster_text : Text
  pub epoch : Text
  pub full : Text

-- apiStorage: what each query returns; `none` is an error, `some none` a commit that is nil.
pub record ApiStorage : Type 0 where
  pub latest_commit : Option (Option OracleCommit)
  pub commit_by_epoch : ℕ → Option (Option (OracleCommit × Option ℕ × Option ℕ))
  pub all_cluster_info : Option (List (ℕ × ClusterInfo))

-- storage.Storage as the API's storage, where the disk does not fail.
unfoldable pub storage_of : Db → ApiStorage
unfolding get_latest_commit get_commit_by_epoch get_all_cluster_info
storage_of db = record {
  latest_commit = some (get_latest_commit db.commits);
  commit_by_epoch = λ epoch. some (get_commit_by_epoch epoch db.commits);
  all_cluster_info = some (get_all_cluster_info db.tables);
}

-- A response: the status 200 with a body, or another status with an ErrorResponse.
pub data Response (A : Type 0) : Type 0 where
  success : A → Response A
  failure : ℕ → Text → Response A

pub data ResolveError : Type 0 where
  bad_epoch commit_not_found storage_error : ResolveError

pub data Resolved : Type 0 where
  resolved : OracleCommit → Option ℕ → Option ℕ → Resolved
  unresolved : ResolveError → Resolved

abbrev pub internal_error : Text
internal_error = text "internal error"

abbrev below_u64 : Option ℕ → Option ℕ
below_u64 none = none
below_u64 (some n) = if ltb n u64_mod then some n else none

-- strconv.ParseUint(_, 10, 64)
unfoldable pub parse_uint : Text → Option ℕ
unfolding read_number
parse_uint s = below_u64 (read_number none s)

abbrev pub by_epoch_of : Option (Option (OracleCommit × Option ℕ × Option ℕ)) → Resolved
by_epoch_of none = unresolved storage_error
by_epoch_of (some none) = unresolved commit_not_found
by_epoch_of (some (some (c, prev, next))) = resolved c prev next

-- The neighbours of the latest commit; an error of this second query is not looked at.
abbrev pub with_neighbours :
    OracleCommit → Option (Option (OracleCommit × Option ℕ × Option ℕ)) → Resolved
with_neighbours c none = resolved c none none
with_neighbours c (some none) = resolved c none none
with_neighbours c (some (some (d, prev, next))) = resolved c prev next

-- resolveCommit
unfoldable pub resolve_commit : ApiStorage → Text → Resolved
unfolding parse_uint
resolve_commit s [] = elim s.latest_commit [
  | none ↦ unresolved storage_error
  | some o ↦ elim o [
    | none ↦ unresolved commit_not_found
    | some c ↦ with_neighbours c (s.commit_by_epoch c.target_epoch)
  ]
]
resolve_commit s (ch ∷ rest) = elim (parse_uint (ch ∷ rest)) [
  | none ↦ unresolved bad_epoch
  | some epoch ↦ by_epoch_of (s.commit_by_epoch epoch)
]

-- handleResolveError
unfoldable pub resolve_failure : {A : Type 0} → ResolveError → Response A
resolve_failure bad_epoch = failure 400 (text "invalid epoch parameter")
resolve_failure commit_not_found = failure 404 (text "no commit found")
resolve_failure storage_error = failure 500 internal_error
