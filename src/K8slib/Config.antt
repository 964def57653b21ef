-- ===== src/K8slib/Config.antt =====
-- examples/reconciler/k8slib/k8slib.go and cluster.go: the state of a resource, the configuration of
-- a kind with its options, and the activities, which are a parameter.
use temporal_entity.Base.{
  ℕ, Bool, false, Option, none, some, List, [], ◌∷◌, ◌++◌, Str, codes, length, ltb, drop, Result,
  Check, if◌then◌else◌,
}
use temporal_entity.Entity.Command.{Payload}

-- `State`
pub record LiveState (T : Type 0) : Type 0 where
  pub live : T
  pub ready : Bool
  pub desired_digest : Str
  pub drifted : Bool
  pub heals : ℕ

-- `getResult`
pub record GetResult : Type 0 where
  pub manifest : Payload
  pub found : Bool

-- What the handlers run: the three activities, on a kind and a resource, and `workflow.Sleep`.
pub record Activities (W : Type 0) : Type 0 where
  pub apply : Str → Str → Payload → W → W × Check
  pub get : Str → Str → W → W × Result GetResult
  pub remove : Str → Str → W → W × Check
  pub sleep : ℕ → W → W × Check

-- `config`
pub record Config (T : Type 0) : Type 0 where
  pub gvk : Str
  pub is_ready : Option (T → Bool)
  pub is_drifted : Option (T → T → Bool)
  pub check : Option (T → Check)
  pub reconcile_every : ℕ
  pub poll_interval : ℕ
  pub poll_attempts : ℕ
  pub search_attrs : Bool
  pub force_can_every : ℕ

-- `Option`
abbrev pub KindOption : Type 0 → Type 0
KindOption T = Config T → Config T

module _ {T : Type 0} where
  -- `WithReady`, `WithDrifted`, `WithValidate`, and the others
  abbrev pub with_ready : (T → Bool) → KindOption T
  with_ready fn c = record c { is_ready = some fn }

  abbrev pub with_drifted : (T → T → Bool) → KindOption T
  with_drifted fn c = record c { is_drifted = some fn }

  abbrev pub with_check : (T → Check) → KindOption T
  with_check fn c = record c { check = some fn }

  abbrev pub with_tick : ℕ → KindOption T
  with_tick every c = record c { reconcile_every = every }

  abbrev pub with_polling : ℕ → ℕ → KindOption T
  with_polling interval attempts c = record c { poll_interval = interval; poll_attempts = attempts }

  abbrev pub with_attributes : Bool → KindOption T
  with_attributes on c = record c { search_attrs = on }

  abbrev pub with_can_every : ℕ → KindOption T
  with_can_every n c = record c { force_can_every = n }

  configure : List (KindOption T) → KindOption T
  configure [] c = c
  configure (o ∷ opts) c = configure opts (o c)

  -- The configuration that `NewKind` makes; durations are in milliseconds.
  unfoldable pub new_config : Str → List (KindOption T) → Config T
  unfolding configure
  new_config gvk opts = configure opts (record {
    gvk = gvk;
    is_ready = none;
    is_drifted = none;
    check = none;
    reconcile_every = 30000;
    poll_interval = 1000;
    poll_attempts = 60;
    search_attrs = false;
    force_can_every = 0;
  })

abbrev pub id_prefix : Str → Str
id_prefix gvk = codes "k8s/" ++ (gvk ++ codes "/")

-- `resourceID` on the id of the workflow
unfoldable pub resource_id : Str → Str → Str
resource_id gvk full =
    if ltb (length (id_prefix gvk)) (length full) then drop (length (id_prefix gvk)) full else full
