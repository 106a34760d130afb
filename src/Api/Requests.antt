-- ===== src/Api/Requests.antt =====
-- The requests that the process serves in one go, and what it returns for each. Uploads, which take
-- two steps, and downloads are in `Objects`.
use prototype_cache.Prelude.{ℕ, String, Bool, true, false, List, Option}
use prototype_cache.Prelude.Dict.{Dict}
use prototype_cache.Exec.{Exec, pure, ◌>>=◌}
use prototype_cache.Models.{EvictionPolicy, Ratio, AuditEvent}
use prototype_cache.AdminQuery.{AssetQuery}
use prototype_cache.Api.State.{Service, App}
use prototype_cache.Api.Schemas.{
  AssetOut, CapabilityOut, AliasBindingOut, PartitionQuotaOut, BucketQuotaOut,
}
use prototype_cache.Api.Assets.{ReserveRequest, CommitRequest}
use prototype_cache.Api.Assets as Assets
use prototype_cache.Api.Legacy as Legacy
use prototype_cache.Api.Mint.{CapabilityMintRequest}
use prototype_cache.Api.Mint as Mint
use prototype_cache.Api.Console.{Mutation}
use prototype_cache.Api.Console as Console
use prototype_cache.Api.Browse.{Page}
use prototype_cache.Api.Browse as Browse
use prototype_cache.Api.Bulk.{Candidate, Applied}
use prototype_cache.Api.Bulk as Bulk

-- The endpoints of services, then those of the administrator, each with its arguments.
pub data Request : Type 0 where
  reserve : ReserveRequest → Request
  commit : String → CommitRequest → Request
  resolve : String → String → Request
  mint : CapabilityMintRequest → Request
  annotate : String → Dict String String → String → Bool → Request
  expire : String → String → Request
  delete : String → String → Request
  detach : String → String → String → Request
  detach_mutable : String → String → String → Request
  rebind : String → String → String → String → Request
  change_eviction_policy : String → EvictionPolicy → String → Request
  put_partition_quota :
      Option String → String → String → Option ℕ → Option ℕ → Option Bool → Request
  read_partition_quota : String → String → Request
  put_bucket_quota : Option String → String → Option ℕ → Ratio → Ratio → Request
  read_bucket_quota : String → Request
  list_audit : Option String → Option String → Option String → ℕ → Request
  mutate : String → Mutation → Request
  quota : String → String → Option ℕ → Option ℕ → Option Bool → Request
  listing : AssetQuery → Request
  inspect : String → Request
  audit : ℕ → Request
  preview : String → Request
  bulk : String → List Candidate → Request

pub data Reply : Type 0 where
  nothing : Reply
  asset : AssetOut → Reply
  capability : CapabilityOut → Reply
  binding : AliasBindingOut → Reply
  partition_quota : PartitionQuotaOut → Reply
  bucket_quota : BucketQuotaOut → Reply
  events : List AuditEvent → Reply
  page : Page → Reply
  history : AssetOut × List AuditEvent → Reply
  candidates : Option String × List Candidate → Reply
  applied : Applied → Reply

-- The endpoints that only the administrator may use.
abbrev pub is_admin_only : Request → Bool
is_admin_only (reserve a) = false
is_admin_only (commit a b) = false
is_admin_only (resolve a b) = false
is_admin_only (mint a) = false
is_admin_only _ = true

module _ {S A : Type 0} where
  abbrev pub replying : (A → Reply) → Exec (App S) A → Exec (App S) Reply
  replying reply m = do result ← m; pure (reply result)

module _ {S : Type 0} (service : Service S) (authorization : String) where
  unfoldable pub serve : Request → Exec (App S) Reply
  serve (reserve a) = replying asset (Assets.reserve service authorization a)
  serve (commit a b) = replying asset (Assets.commit service authorization a b)
  serve (resolve a b) = replying asset (Assets.resolve service authorization a b)
  serve (mint a) = replying capability (Mint.mint_capability service authorization a)
  serve (annotate a b c d) = replying asset (Legacy.annotate_asset service authorization a b c d)
  serve (expire a b) = replying asset (Legacy.expire service authorization a b)
  serve (delete a b) = replying asset (Legacy.delete service authorization a b)
  serve (detach a b c) = replying (λ u. nothing) (Legacy.detach service authorization a b c)
  serve (detach_mutable a b c) =
      replying binding (Legacy.detach_mutable service authorization a b c)
  serve (rebind a b c d) = replying binding (Legacy.rebind service authorization a b c d)
  serve (change_eviction_policy a b c) =
      replying asset (Legacy.change_eviction_policy service authorization a b c)
  serve (put_partition_quota a b c d e f) =
      replying partition_quota (Legacy.put_partition_quota service authorization a b c d e f)
  serve (read_partition_quota a b) =
      replying partition_quota (Legacy.read_partition_quota service authorization a b)
  serve (put_bucket_quota a b c d e) =
      replying bucket_quota (Legacy.put_bucket_quota service authorization a b c d e)
  serve (read_bucket_quota a) =
      replying bucket_quota (Legacy.read_bucket_quota service authorization a)
  serve (list_audit a b c d) = replying events (Legacy.list_audit service authorization a b c d)
  serve (mutate a b) = replying asset (Console.mutate service authorization a b)
  serve (quota a b c d e) = replying partition_quota (Console.quota service authorization a b c d e)
  serve (listing a) = replying page (Browse.listing service authorization a)
  serve (inspect a) = replying history (Browse.inspect service authorization a)
  serve (audit a) = replying events (Browse.audit service authorization a)
  serve (preview a) = replying candidates (Bulk.preview service authorization a)
  serve (bulk a b) = replying applied (Bulk.bulk service authorization a b)
