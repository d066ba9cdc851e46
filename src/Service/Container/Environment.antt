-- ===== src/Service/Container/Environment.antt =====
-- The variables of the container that internal/deployment/service.go specifies.
use centralcloud_agent.Prelude.{
  ◌≡◌, refl, Bool, true, false, Option, none, some, List, [], ◌∷◌, Bytes, same, lookup,
  lookup-insert, if◌then◌else◌,
}
use centralcloud_agent.Config.{Config}
use centralcloud_agent.Domain.Model.{Deployment, DeploymentNetworks}
use centralcloud_agent.Service.Container.{managed_variables, assign_all, container_environment}

abbrev pub or_else : Option Bytes → Option Bytes → Option Bytes
or_else none o = o
or_else (some v) o = some v

lookup-assign_all :
    (k : Bytes) (xs env : List (Bytes × Bytes))
    → lookup k (assign_all xs env) ≡ or_else (lookup k xs) (lookup k env)
unfolding assign_all lookup
lookup-assign_all k [] env = refl
lookup-assign_all k ((j, v) ∷ xs) env =
    rw (lookup-insert j k v (assign_all xs env)) (either (same j k) (lookup-assign_all k xs env))
  where
    either :
        (b : Bool)
        → lookup k (assign_all xs env) ≡ or_else (lookup k xs) (lookup k env)
        → (if b then some v else lookup k (assign_all xs env))
          ≡ or_else (if b then some v else lookup k xs) (lookup k env)
    either true e = refl
    either false e = e

-- A variable of the container has the value that the agent sets, whatever the client asked for; a
-- variable that the agent does not set has the client's value, and there are no others.
pub lookup-container_environment :
    (c : Config) (d : Deployment) (networks : DeploymentNetworks) (k : Bytes)
    → lookup k (container_environment c d networks)
      ≡ or_else (lookup k (managed_variables c d networks)) (lookup k d.request.environment)
unfolding container_environment
lookup-container_environment c d networks k =
    lookup-assign_all k (managed_variables c d networks) d.request.environment
