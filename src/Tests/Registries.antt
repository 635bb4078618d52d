-- ===== src/Tests/Registries.antt =====
-- A registry that keeps the names of its families.
use text.Mathlib.Text.{◌==◌ as str_eq}
use cryptomeria.Common.{List, [], ◌∷◌, Bool, false, ◌||◌, String, ◌≡◌, refl, if◌then◌else◌}
use cryptomeria.Common.Result.{ok, err, Task, ◌>>◌}
use cryptomeria.Metrics.Registry.{Opts, Prometheus, set_up, register_all, make_all, first_family}

among : String → List String → Bool
among n [] = false
among n (m ∷ ms) = str_eq n m || among n ms

abbrev register : Opts → Task (List String) (Unit {0})
register o names = if among o.name names then (err o.name, names) else (ok tt, o.name ∷ names)

abbrev prometheus : Prometheus (List String)
prometheus = record { make = λ o. ok tt; register = register }

set_up_once : (set_up prometheus []).0 ≡ ok tt
unfolding register_all make_all among
set_up_once = refl

set_up_again : ((set_up prometheus >> set_up prometheus) []).0 ≡ err first_family.name
unfolding register_all make_all among
set_up_again = refl
