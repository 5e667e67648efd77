-- ===== src/Gcp/Compute/Health/Answers.antt =====
-- What an answer about the health of a backend says, for the wait of framework/infrastructure/gcp/compute.py.
use mathlib.Core.Bool.{false≢true}
use psm_interop.Common.{
  both-true, String, ◌≡◌, refl, sym, ap, ◌∙◌, true, false, Option, none, some, List, [], ◌∷◌,
  str_eq, str_eq_iff,
}
use psm_interop.Common.Effects.{returned}
use psm_interop.Gcp.Compute.{GcpResource, Instance, Neg, ComputeApi}
use psm_interop.Gcp.Compute.Health.{reports_healthy, all_healthy, get_backend_health}

abbrev pub AreHealthy : List Instance → Type 0
AreHealthy [] = Unit
AreHealthy (i ∷ is) = (i.health_state ≡ "HEALTHY") × AreHealthy is

abbrev pub IsHealthy : Option (List Instance) → Type 0
IsHealthy none = ⊥
IsHealthy (some instances) = AreHealthy instances

all_healthy-AreHealthy : (is : List Instance) → all_healthy is ≡ true → AreHealthy is
all_healthy-AreHealthy [] h = tt
all_healthy-AreHealthy (i ∷ is) h =
    let (first, others) = both-true (str_eq i.health_state "HEALTHY") (all_healthy is) h in
    ((str_eq_iff i.health_state "HEALTHY").0 first, all_healthy-AreHealthy is others)

AreHealthy-all_healthy : (is : List Instance) → AreHealthy is → all_healthy is ≡ true
AreHealthy-all_healthy [] h = refl
AreHealthy-all_healthy (i ∷ is) h =
    rw ((str_eq_iff i.health_state "HEALTHY").1 h.0) (AreHealthy-all_healthy is h.1)

reports_healthy-ne :
    (answer : Option (List Instance)) → reports_healthy answer ≡ false → ¬ IsHealthy answer
unfolding reports_healthy
reports_healthy-ne none h is = is
reports_healthy-ne (some instances) h is = false≢true (sym h ∙ AreHealthy-all_healthy instances is)

module _ {W : Type 0} (api : ComputeApi W) (service : GcpResource) (region : Option String) where
  -- The backend was asked for, and all its instances were healthy.
  abbrev pub ReportedHealthy : Neg → Type 0
  ReportedHealthy b =
      (u v : W) × (instances : List Instance) × (get_backend_health api service region b u
        ≡ (returned (some instances), v))
      × AreHealthy instances

  -- From `w` to `w'` these backends are asked for in turn, and no answer is that one is healthy.
  abbrev pub OthersReported : List Neg → W → W → Type 0
  OthersReported [] w w' = w ≡ w'
  OthersReported (b ∷ bs) w w' =
      (v : W) × (answer : Option (List Instance)) × (get_backend_health api service region b w
        ≡ (returned answer, v))
      × ¬ IsHealthy answer
      × OthersReported bs v w'

  pub others_reported :
      (b : Neg) (bs : List Neg) (w w' : W) (answer : Option (List Instance))
      → (get_backend_health api service region b w).0 ≡ returned answer
      → reports_healthy answer ≡ false
      → OthersReported bs (get_backend_health api service region b w).1 w'
      → OthersReported (b ∷ bs) w w'
  others_reported b bs w w' answer e n later = (
    (get_backend_health api service region b w).1,
    answer,
    ap (λ o. (o, (get_backend_health api service region b w).1)) e,
    reports_healthy-ne answer n,
    later,
  )

  pub reported_healthy :
      (b : Neg) (u : W) (answer : Option (List Instance))
      → (get_backend_health api service region b u).0 ≡ returned answer
      → reports_healthy answer ≡ true
      → ReportedHealthy b
  unfolding reports_healthy
  reported_healthy b u none e y = absurd (cc)
  reported_healthy b u (some instances) e y = (
    u,
    (get_backend_health api service region b u).1,
    instances,
    ap (λ o. (o, (get_backend_health api service region b u).1)) e,
    all_healthy-AreHealthy instances y,
  )
