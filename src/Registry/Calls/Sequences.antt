-- ===== src/Registry/Calls/Sequences.antt =====
-- Sequences of calls between two states, and what the theorems on single calls say of them.
use prototype_cache.Prelude.{ℕ, String, ◌≡◌, some}
use prototype_cache.Prelude.Dict.{lookup, text_key}
use prototype_cache.Models.{Asset}
use prototype_cache.Env.{Env}
use prototype_cache.Registry.State.{Registry}
use prototype_cache.Registry.Calls.{Reachable, call, Runs, stay, and_call}
use prototype_cache.Registry.Calls.History.{IsLater, IsLater-refl, IsLater-trans, run-IsLater}

pub Runs-trans : (env : Env) {s t u : Registry} → Runs env s t → Runs env t u → Runs env s u
Runs-trans env h stay = h
Runs-trans env h (and_call c k ok) = and_call c (Runs-trans env h k) ok

pub Runs-Reachable :
    (env : Env) (grace : ℕ) {s t : Registry}
    → Reachable env grace s
    → Runs env s t
    → Reachable env grace t
Runs-Reachable env grace r stay = r
Runs-Reachable env grace r (and_call c h ok) = call c (Runs-Reachable env grace r h) ok

pub Runs-IsLater :
    (env : Env) (grace : ℕ) {s t : Registry}
    → Reachable env grace s
    → Runs env s t
    → (id : String) (a : Asset) → lookup id s.assets ≡ some a
    → (b : Asset) × (lookup id t.assets ≡ some b) × IsLater a b
Runs-IsLater env grace r stay id a found = (a, found, IsLater-refl a)
Runs-IsLater env grace r (and_call c h ok) id a found =
    let (b, there, later) = Runs-IsLater env grace r h id a found in
    let (d, after, last) = run-IsLater env grace (Runs-Reachable env grace r h) c ok id b there in
    (d, after, IsLater-trans later last)
