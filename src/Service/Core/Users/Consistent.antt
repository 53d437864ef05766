-- ===== src/Service/Core/Users/Consistent.antt =====
-- internal/service/service.go: what an update of the users keeps, whether it succeeds or not.
use xboard_node_plus.Prelude.{List}
use xboard_node_plus.Service.Core.{Env, Core}
use xboard_node_plus.Service.Core.Synced.{IsSynced}
use xboard_node_plus.Service.Core.Serving.{IsServing}
use xboard_node_plus.Model.{UserSpec}

module _ {K C B : Type 0} (env : Env K C B) (served : K → List UserSpec) where
  -- The kernel is stopped or serves the users of the state or nobody, and these users agree with the
  -- limits and the hash.
  pub record IsConsistent (s : Core K C B) : Type 0 where
    pub synced : IsSynced env s
    pub serving : IsServing env served s
