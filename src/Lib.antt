-- ===== src/Lib.antt =====
-- Verification library of porch, the package orchestration server (Go).
--
-- Porch serves package revisions, which live in git repositories, as Kubernetes objects. An object's
-- name is composed from its repository, package path, package and workspace; a revision goes through
-- a lifecycle (Draft, Proposed, Published, DeletionProposed). The aggregated API server serves the
-- v1alpha1 objects; the v1alpha2 objects are custom resources, which an admission webhook guards and
-- a controller reconciles.
--
-- Which file models which part, each function under the name of the Go function in snake case:
--   Common            Go's strings, maps and signed integers: texts are lists of bytes, a map is an
--                     association list, an integer that may be -1 is a ℤ
--   Lifecycle         api/porch/v1alpha1/util.go, api/porch/v1alpha2/util.go
--   Names             api/util/util.go, and path.Clean, path.Join and strings.Split as far as the
--                     names go through them
--   Key               api/porch/key/types.go, api/porch/key/util.go
--   Git               pkg/externalrepo/git: the reference names of ref.go and, of git.go, the
--                     lifecycles in the repository and the deletion of a revision
--   Registry          pkg/registry/porch: strategy.go, packagerevision_approval.go and the update
--                     path of packagecommon.go
--   PackageRevision   api/porch/v1alpha2: the types that the webhook and the controller read
--   Webhook           controllers/packagerevisions/pkg/webhooks/packagerevision_webhook.go
--   Watchers          pkg/engine/watchermanager.go
--   Controller        controllers/packagerevisions/pkg/controllers/packagerevision: labels.go and
--                     ownership.go
--   Packages          pkg/repository/util.go: the paths of packages
--   Pods              pkg/engine/podevaluator/podcachemanager.go: the loop of the pod cache
--   Database          pkg/cache/dbcache: dbreposync.go (Sync, Expected), and the requests and pushes of
--                     one package revision, with pkg/engine/engine.go (Objects to Stale)
--   DataSize          pkg/util/datasize/datasize.go
--   SafeJoin          pkg/util/safejoin.go
--   RepoMap           pkg/cache/repomap/saferepomap.go
--   VariantSets       controllers/packagevariantsets: ensurePackageVariants
--   Variants          controllers/packagevariants/pkg/controllers/packagevariant:
--                     packagevariant_controller.go
--   Examples          test data, and a run of each theorem on it
--
-- Code outside this repository is a parameter: the checks for DNS labels and subdomains of
-- k8s.io/apimachinery (record Dns), equality.Semantic.DeepEqual on specs (of which the theorems ask
-- that equal specs have equal lifecycles, and that a spec equals itself), the API server behind
-- client.Reader (record Reader), and the update and create hooks of a request.
-- Error messages are left out: an error is a constructor that says which check failed.
-- A Go method that panics gives an outcome of its own. Every loop is a
-- recursion on the list it goes through; only the printing of a number n runs on fuel, n + 1, which
-- is more than its digits. Concurrent calls are steps between which others may come where the code
-- holds no lock (RepoMap; the DELETE requests of Database.Sessions, which fetch before they lock; the
-- creations of Webhook.Cluster, each validated with the list that its own reader gives), a parameter
-- where other goroutines lower a counter during a call (`ended` and
-- `ended_before` of Pods.Handlers.Cluster), and a sequence of calls where the code holds one (Watchers).
--
-- Not modelled: logging, tracing and metrics, the decoding of admission requests, the objects of
-- git, the SQL of the database beyond its rows, the placeholder revision of the main branch, rendering,
-- and the command line. A push to git succeeds or fails as a
-- parameter says, and of the tries of a deletion only one is modelled. The v1alpha1 types carry only
-- the fields that the two strategies read.
pub mod Common
pub mod Lifecycle
pub mod Names
pub mod Key
pub mod Git
pub mod Registry
pub mod PackageRevision
pub mod Webhook
pub mod Watchers
pub mod Controller
pub mod Database
pub mod Packages
pub mod Pods
pub mod DataSize
pub mod SafeJoin
pub mod RepoMap
pub mod Variants
pub mod VariantSets
pub mod Examples
