-- ===== src/Api/Process.antt =====
-- The process over time: whole requests, and uploads of which the bytes arrive while other requests
-- are served. Handlers run in threads, and the guard's write of an upload in a worker thread, over a
-- registry in memory that has no lock. What they do to one another's registry, object store and
-- ledger is left open: between any two events, and so before and after every request and every write,
-- `disturb` may put any other data plane in place. The capability store, the upload gate and the rate
-- limiter have locks, and their operations are single steps.
pub mod Advance
pub mod Invariants
use prototype_cache.Prelude.{ℕ, ◌+◌, zero, suc, String, Option, none, some, List, [], ◌∷◌}
use prototype_cache.Errors.{Result, ok, err}
use prototype_cache.Capabilities.Scope.{Capability}
use prototype_cache.Api.State.{Service, App}
use prototype_cache.DataPlane.{DataPlane}
use prototype_cache.Api.Requests.{Request, serve}
use prototype_cache.Api.Objects.{
  WriteRequest, admit_upload, finish_upload, break_off_upload, read_object,
}

pub record Process (S : Type 0) : Type 0 where
  pub app : App S
  -- the uploads that hold a lease
  pub in_flight : List (WriteRequest × Capability)

-- Requests with their header; the end of an upload, whole or broken off, is the number of the upload
-- in the list and the chunks of its body. `disturb` is what other threads have left of the registry,
-- the object store and the ledger.
pub data Event (S : Type 0) : Type 0 where
  request : String → Request → Event S
  download : String → String → String → ℕ → Event S
  begin : WriteRequest → Event S
  finish : ℕ → List (List ℕ) → Event S
  break_off : ℕ → List (List ℕ) → Event S
  disturb : DataPlane S → Event S

module _ {A : Type 0} where
  -- the element at a position, and the others
  unfoldable pub pick : ℕ → List A → Option (A × List A)
  pick n [] = none
  pick zero (a ∷ rest) = some (a, rest)
  pick (suc n) (a ∷ rest) = elim (pick n rest) [
    | none ↦ none
    | some (b, others) ↦ some (b, a ∷ others)
  ]

module _ {S : Type 0} (service : Service S) where
  -- the process after `admit_upload`
  unfoldable pub begun :
      WriteRequest → List (WriteRequest × Capability) → Result Capability → App S → Process S
  begun upload in_flight (ok capability) w = record {
    app = w;
    in_flight = (upload, capability) ∷ in_flight;
  }
  begun upload in_flight (err e) w = record { app = w; in_flight = in_flight }

  unfoldable pub advance : Event S → Process S → Process S
  advance (request authorization asked) p = record p {
    app = (serve service authorization asked p.app).1;
  }
  advance (download authorization alias mode expires_in) p = record p {
    app = (read_object service authorization alias mode expires_in p.app).1;
  }
  advance (begin upload) p =
      let r = admit_upload service upload p.app in begun upload p.in_flight r.0 r.1
  advance (finish n chunks) p = elim (pick n p.in_flight) [
    | none ↦ p
    | some ((upload, capability), others) ↦ record {
      app = (finish_upload service upload capability chunks p.app).1;
      in_flight = others;
    }
  ]
  advance (break_off n chunks) p = elim (pick n p.in_flight) [
    | none ↦ p
    | some (upload, others) ↦ record {
      app = (break_off_upload service chunks p.app).1;
      in_flight = others;
    }
  ]
  advance (disturb plane) p = record p { app = record p.app { plane = plane } }

  -- The states that events reach from the state in which the process starts.
  pub data Lives (start : App S) : Process S → Type 0 where
    started : Lives start (record { app = start; in_flight = [] })
    and_event : {p : Process S} (e : Event S) → Lives start p → Lives start (advance e p)
