-- ===== src/ControlPlane/Registry/Policy/Laws.antt =====
-- What setting a policy leaves alone.
use latiq.Prelude.{String, refl}
use latiq.ControlPlane.Registry.Policy.{policy_set}
use latiq.ControlPlane.Registry.Datasets.Laws.{IsFramed}

pub policy_set-IsFramed : (key value : String) → IsFramed (policy_set key value)
unfolding policy_set
policy_set-IsFramed key value r = (refl, refl)
