-- ===== src/Registry/Calls/History.antt =====
-- What happens to one asset over a call: it is never lost, keeps its bucket, its partition and its
-- storage key, and once deleted stays deleted.
use prototype_cache.Prelude.{
  Bool, Bool-cases, String, arith, eq_iff, false, inl, inr, none, refl, some, str_eq, subst, true,
  ℕ, ◌∙◌, ◌≡◌,
}
use prototype_cache.Prelude.Dict.{lookup, insert, lookup-insert, text_key}
use prototype_cache.Models.{Asset, AssetState, pending, deleted}
use prototype_cache.Env.{Env}
use prototype_cache.Registry.State.{Registry}
use prototype_cache.Registry.Accounts.{
  SameIdentity, Step, quiet, reserve, edit, charge, refund, lapse, limit_partition, limit_bucket,
  Steps, here, next,
}
use prototype_cache.Registry.Calls.{Call, run, IsAdmissible, Reachable}
use prototype_cache.Registry.Calls.Accounting.{run-Steps, Reachable-IsWellFormed}

-- The states that an asset may have later: `deleted` is final, and `pending` is left for good.
abbrev pub can_become : AssetState → AssetState → Bool
can_become deleted deleted = true
can_become deleted _ = false
can_become pending _ = true
can_become _ pending = false
can_become _ _ = true

can_become_refl : (x y : AssetState) → y ≡ x → can_become x y ≡ true
can_become_refl x y h = ground arith

can_become_trans :
    (x y z : AssetState) → can_become x y ≡ true → can_become y z ≡ true → can_become x z ≡ true
can_become_trans x y z h k = ground arith

-- The asset `b` is a later version of `a`.
pub record IsLater (a b : Asset) : Type 0 where
  pub identity : SameIdentity a b
  pub state : can_become a.state b.state ≡ true

pub IsLater-refl : (a : Asset) → IsLater a a
IsLater-refl a = record {
  identity = record { asset_id = refl; space = refl; partition_id = refl; storage_key = refl };
  state = can_become_refl a.state a.state refl;
}

pub IsLater-trans : {a b c : Asset} → IsLater a b → IsLater b c → IsLater a c
IsLater-trans {a} {b} {c} h k = record {
  identity = record {
    asset_id = k.identity.asset_id ∙ h.identity.asset_id;
    space = k.identity.space ∙ h.identity.space;
    partition_id = k.identity.partition_id ∙ h.identity.partition_id;
    storage_key = k.identity.storage_key ∙ h.identity.storage_key;
  };
  state = can_become_trans a.state b.state c.state h.state k.state;
}

-- Every asset of `s` has a later version in `t`.
abbrev Continues : Registry → Registry → Type 0
Continues s t =
    (id : String) (a : Asset)
    → lookup id s.assets ≡ some a
    → (b : Asset) × (lookup id t.assets ≡ some b) × IsLater a b

Continues-same : (s t : Registry) → t.assets ≡ s.assets → Continues s t
Continues-same s t e id a found = (a, rw e found, IsLater-refl a)

Continues-write :
    (s t : Registry) (id : String) (a b : Asset)
    → lookup id s.assets ≡ some a
    → t.assets ≡ insert id b s.assets
    → IsLater a b
    → Continues s t
Continues-write s t id a b found e later j c there = elim (Bool-cases (str_eq id j)) [
  | inl same ↦ (
    b,
    rw (e, lookup-insert, same) refl,
    let names : id ≡ j = (eq_iff id j).0 same in
        let one : a ≡ c = cc in subst (λ x. IsLater x b) one later,
  )
  | inr other ↦ (c, rw (e, lookup-insert, other) there, IsLater-refl c)
]

Continues-new :
    (s t : Registry) (id : String) (b : Asset)
    → lookup id s.assets ≡ none
    → t.assets ≡ insert id b s.assets
    → Continues s t
Continues-new s t id b absent e j c there = elim (Bool-cases (str_eq id j)) [
  | inl same ↦ let names : id ≡ j = (eq_iff id j).0 same in absurd (cc)
  | inr other ↦ (c, rw (e, lookup-insert, other) there, IsLater-refl c)
]

Step-Continues : {s t : Registry} → Step s t → Continues s t
Step-Continues {s} {t} (quiet e q) = Continues-same s t e
Step-Continues {s} {t} (reserve id b absent filed waits unpurged names e q) =
    Continues-new s t id b absent e
Step-Continues {s} {t} (edit id a b found same e q) =
    Continues-write s t id a b found e (record { identity = same.identity; state = ground arith })
Step-Continues {s} {t} (charge id a b write can live unpurged names eP eB) =
    Continues-write s t id a b write.found write.assets
      (record { identity = write.identity; state = ground arith })
Step-Continues {s} {t} (refund id a b write live gone unpurged names eP eB) =
    Continues-write s t id a b write.found write.assets
      (record { identity = write.identity; state = ground arith })
Step-Continues {s} {t} (lapse id a b write idle allowed fence q) =
    Continues-write s t id a b write.found write.assets
      (record { identity = write.identity; state = ground arith })
Step-Continues {s} {t} (limit_partition b q pq names bytes count e eP eB) = Continues-same s t e
Step-Continues {s} {t} (limit_bucket b bq name bytes e eP eB) = Continues-same s t e

Steps-Continues : {s t : Registry} → Steps s t → Continues s t
Steps-Continues here id a found = (a, found, IsLater-refl a)
Steps-Continues (next h st) id a found =
    let (b, there, later) = Steps-Continues h id a found in
    let (c, found', after) = Step-Continues st id b there in (c, found', IsLater-trans later after)

-- From a reachable state, one more call, raising or not, loses no asset: each is still there under
-- its identifier, with its bucket, its partition and its storage key; if it was deleted it is
-- deleted, and if it was not pending it is not pending again. A reservation is assumed to get an
-- identifier that is in use nowhere.
pub run-IsLater :
    (env : Env) (grace : ℕ) {s : Registry}
    → Reachable env grace s
    → (c : Call) → IsAdmissible env c s
    → (id : String) (a : Asset) → lookup id s.assets ≡ some a
    → (b : Asset) × (lookup id (run env c s).assets ≡ some b) × IsLater a b
run-IsLater env grace {s} r c fresh =
    Steps-Continues (run-Steps env c s (Reachable-IsWellFormed env grace r) fresh)
