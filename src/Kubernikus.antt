-- ===== src/Kubernikus.antt =====
-- kubernikus/node_controller.go, with common/openstack.go and common/version.go: the label for an
-- outdated kubelet, and the removal of a node with its virtual machine.
pub mod Deletion
use Prim.Native.String.{◌++◌}
use maintenance_controller.Base.{
  ℕ, String, Bool, true, false, not, ◌||◌, Option, none, some, List, [], ◌∷◌, ◌⊎◌, inl, inr, GoMap,
  made, entries, insert, get, or_else, make_if_nil, length, Run, Outcome, done, panicked, resume,
  pure, Assoc, lookup, str_eq, if◌then◌else◌, ◌>>=◌, ◌>>◌,
}
use maintenance_controller.Base.Text.{drop_first, decimal}
use maintenance_controller.Base.Int.{ℤ}
use maintenance_controller.Errors.{Error, message, wrapped, is_not_found, try, as_result}
use maintenance_controller.World.{Node, World, on_ext}
use maintenance_controller.Api.{Api}
use maintenance_controller.Drain.{ensure_schedulable, ensure_drain}

abbrev pub kubelet_update_label_key : String
kubelet_update_label_key = "cloud.sap/kubelet-needs-update"

abbrev pub delete_node_label_key : String
delete_node_label_key = "cloud.sap/delete-node"

pub record OpenStackConfig : Type 0 where
  pub region : String
  pub auth_url : String
  pub username : String
  pub password : String
  pub domainname : String
  pub project_id : String

pub record ObjectKey : Type 0 where
  pub name : String
  pub namespace : String

-- The calls of semver, of ini, of the file system, of the Kubernetes client and of gophercloud,
-- with versions V, provider clients P and compute clients K.
pub record Cloud (E V P K : Type 0) : Type 0 where
  pub parse_version : String → Error ⊎ V
  pub is_different : V → V → Bool
  -- kubernetes.NewForConfig, and Discovery().ServerVersion().GitVersion of the client
  pub new_clientset : E → Option Error × E
  pub git_version : E → (Error ⊎ String) × E
  -- node.Status.NodeInfo.KubeletVersion
  pub kubelet_version : Node → String
  pub get_node : String → E → (Error ⊎ Node) × E
  -- ini.MapTo into the struct of parseOSConfig
  pub map_ini : String → Error ⊎ OpenStackConfig
  pub read_config_file : E → (Error ⊎ String) × E
  pub get_secret : ObjectKey → E → (Error ⊎ Assoc String) × E
  -- openstack.NewClient and Authenticate with the options of the configuration
  pub new_provider : String → E → (Error ⊎ P) × E
  pub authenticate : P → OpenStackConfig → E → Option Error × E
  pub new_compute : P → String → E → (Error ⊎ K) × E
  -- servers.List by project and name with AllPages, then ExtractServers
  pub list_servers : K → String → String → E → (Error ⊎ String) × E
  pub extract_servers : String → Error ⊎ List String
  -- servers.Delete and its ExtractErr
  pub delete_server : K → String → E → Option Error × E
  -- an object key printed by %s
  pub show_key : ObjectKey → String

pub record KubernikusConfig : Type 0 where
  pub requeue : ℕ
  pub force : Bool
  pub cloud_provider_secret : ObjectKey

abbrev pub wanted : Node → Bool
wanted node = elim (get node.labels delete_node_label_key) [
  | none ↦ false
  | some v ↦ str_eq v "true"
]

module _ {E V P K : Type 0} (cloud : Cloud E V P K) where
  abbrev parsed_ini : Error ⊎ OpenStackConfig → Error ⊎ OpenStackConfig
  parsed_ini (inl err) = inl (wrapped "failed to parse cloudprovider.conf" err)
  parsed_ini (inr c) = inr c

  unfoldable pub parse_os_config : String → Error ⊎ OpenStackConfig
  parse_os_config text = parsed_ini (cloud.map_ini text)

  unfoldable pub load_os_config_file : Run (World E) (Error ⊎ OpenStackConfig)
  unfolding parse_os_config
  load_os_config_file =
      try (on_ext cloud.read_config_file) (wrapped "failed to read cloudprovider.conf")
        (λ text. pure (parse_os_config text))

  abbrev config_entry : ObjectKey → Option String → Error ⊎ OpenStackConfig
  config_entry key none =
      inl (
        message ("secret " ++ (cloud.show_key key ++ " does not contain key 'cloudprovider.conf'")))
  config_entry key (some text) = parse_os_config text

  -- LoadOSConfig
  unfoldable pub load_os_config : ObjectKey → Run (World E) (Error ⊎ OpenStackConfig)
  unfolding load_os_config_file parse_os_config
  load_os_config key =
      if str_eq key.name "" || str_eq key.namespace ""
      then load_os_config_file
      else try (on_ext (cloud.get_secret key))
          (wrapped ("failed to retrieve secret " ++ cloud.show_key key))
          (λ secret. pure (config_entry key (lookup "cloudprovider.conf" secret)))

  -- OpenStackConfig.Connect, whose endpoint options are the region
  unfoldable pub connect : OpenStackConfig → Run (World E) (Error ⊎ P)
  connect conf =
      try (on_ext (cloud.new_provider conf.auth_url)) (λ err. err)
        (λ p.
          try (do answer ← on_ext (cloud.authenticate p conf); pure (as_result answer)) (λ err. err)
            (λ u. pure (inr p)))

  -- The text of the last error goes on with the body of the answer.
  abbrev delete_listed : K → List String → Run (World E) (Error ⊎ Unit {0})
  delete_listed k [] = pure (inr tt)
  delete_listed k (id ∷ []) =
      try (do answer ← on_ext (cloud.delete_server k id); pure (as_result answer))
        (wrapped "failed to delete VM") (λ u. pure (inr u))
  delete_listed k (id ∷ (j ∷ ids)) = pure (
      inl (
        message ("expected to list 1 or 0 servers, but got " ++ decimal (length (id ∷ (j ∷ ids))))))

  -- deleteVM
  unfoldable pub delete_vm : String → OpenStackConfig → Run (World E) (Error ⊎ Unit {0})
  unfolding connect
  delete_vm name conf = try (connect conf) (wrapped "failed OpenStack authentication") (λ p.
      try (on_ext (cloud.new_compute p conf.region))
        (wrapped "failed to create OS compute endpoint")
        (λ k.
          try (on_ext (cloud.list_servers k conf.project_id name))
            (wrapped "failed to list servers")
            (λ pages.
              try (pure (cloud.extract_servers pages)) (wrapped "failed to extract server list")
                (delete_listed k))))

  -- deleteNode, once it is known whether the node is drained
  abbrev pub finish_deletion : String → ObjectKey → Bool → Run (World E) (Error ⊎ Unit {0})
  finish_deletion name key drained =
      if not drained
      then pure (inr tt)
      else try (load_os_config key) (wrapped "failed to load OpenStack config") (λ conf.
        try (delete_vm name conf) (wrapped ("failed to delete VM backing node " ++ name))
          (λ u. pure (inr u)))

  -- deleteNode
  unfoldable pub delete_node : Api E → Bool → String → ObjectKey → Run (World E) (Error ⊎ Unit {0})
  unfolding load_os_config delete_vm
  delete_node api force name key =
      try (do answer ← ensure_schedulable api false; pure (as_result answer))
        (wrapped ("failed to cordon node " ++ name))
        (λ u.
          try (ensure_drain api force none) (wrapped ("failed to drain node " ++ name))
            (finish_deletion name key))

  abbrev parse_tail : (Error → Error) → Option String → Run (World E) (Error ⊎ V)
  parse_tail wrap none w = (panicked, w)
  parse_tail wrap (some text) w = try (pure (cloud.parse_version text)) wrap (λ v. pure (inr v)) w

  abbrev not_semver : String → Error → Error
  not_semver text = wrapped ("API Server version " ++ (text ++ " is not semver compatible"))

  -- GetAPIServerVersion; the slice of a version that is the empty text panics.
  unfoldable pub api_server_version : Run (World E) (Error ⊎ V)
  api_server_version =
      try (on_ext cloud.git_version) (wrapped "failed to do request for API Server version")
        (λ text. parse_tail (not_semver (or_else (drop_first text) "")) (drop_first text))

  -- getAPIServerVersion
  unfoldable pub get_api_server_version : Run (World E) (Error ⊎ V)
  unfolding api_server_version
  get_api_server_version =
      try (do answer ← on_ext cloud.new_clientset; pure (as_result answer))
        (wrapped "failed to create API Server client") (λ u. api_server_version)

  unfoldable pub needs_kubelet_update : Run (World E) (Error ⊎ Bool)
  unfolding get_api_server_version
  needs_kubelet_update w =
      try (parse_tail (λ err. err) (drop_first (cloud.kubelet_version w.node))) (λ err. err)
        (λ kubelet.
          try get_api_server_version (λ err. err)
            (λ api. pure (inr (cloud.is_different api kubelet))))
        w

  abbrev with_labels : World E → GoMap String → World E
  with_labels w labels = record w { node = record w.node { labels = labels } }

  abbrev verdict : Bool → String
  verdict update = if update then "true" else "false"

  abbrev mark_outdated : Bool → World E → World E
  mark_outdated update w =
      with_labels w
        (made (insert kubelet_update_label_key (verdict update) (entries w.node.labels)))

  -- markUpdate
  unfoldable pub mark_update : Api E → Run (World E) (Error ⊎ Unit {0})
  unfolding needs_kubelet_update
  mark_update api w =
      try needs_kubelet_update (λ err. err)
        (λ update v.
          (do
            answer ← on_ext (api.patch_node (mark_outdated update v).node)
            pure (as_result answer))
            (mark_outdated update v))
        (with_labels w (make_if_nil w.node.labels))

  -- What follows markUpdate in Reconcile; the error of deleteNode is logged.
  unfoldable pub delete_if_requested : Api E → KubernikusConfig → Run (World E) (Error ⊎ Unit {0})
  unfolding delete_node
  delete_if_requested api conf w =
      (if wanted w.node
          then delete_node api conf.force w.node.name conf.cloud_provider_secret
          else pure (inr tt))
        w

  abbrev to_store : {A : Type 0} → ℕ → Outcome A × World E → Outcome ℕ × E
  to_store requeue (panicked, w) = (panicked, w.ext)
  to_store requeue (done a, w) = (done requeue, w.ext)

  unfoldable pub reconcile_got : Api E → KubernikusConfig → (Error ⊎ Node) × E → Outcome ℕ × E
  unfolding mark_update delete_if_requested
  reconcile_got api conf (inl err, e) = (done conf.requeue, e)
  reconcile_got api conf (inr node, e) = to_store conf.requeue (
      try (mark_update api) (λ err. err) (λ u. delete_if_requested api conf)
        (record { node = node; ext = e }))

  -- Reconcile, with a configuration that loads: the time after which the node is reconciled again
  unfoldable pub reconcile_node : Api E → KubernikusConfig → String → E → Outcome ℕ × E
  unfolding reconcile_got
  reconcile_node api conf name e = reconcile_got api conf (cloud.get_node name e)
