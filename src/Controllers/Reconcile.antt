-- ===== src/Controllers/Reconcile.antt =====
-- controllers/node_controller.go: one reconciliation of a node, from the request to the patch.
use maintenance_controller.Base.{
  ℕ, String, Bool, Option, none, some, ◌⊎◌, inl, inr, made, get, or_else, entries, insert, Run,
  Outcome, done, panicked, ◌>>=◌, if◌then◌else◌,
}
use maintenance_controller.Errors.{Error, wrapped, is_not_found}
use maintenance_controller.World.{Node, Platform}
use maintenance_controller.State.Data.{Data, Codec, Session, no_data, parse_data}
use maintenance_controller.Cache.{NodeInfoCache, delete_node}
use maintenance_controller.Controllers.Handler.{Frame, Config, in_session}
use maintenance_controller.Controllers.Evaluate.{handle_node}

abbrev pub data_annotation_key : String
data_annotation_key = "cloud.sap/maintenance-data"

-- The calls of the Kubernetes client, and what the reconciler compares with.
pub record Client (E : Type 0) : Type 0 where
  -- r.Get
  pub get_node : String → E → (Error ⊎ Node) × E
  -- r.Patch of the first node, as a merge patch from the second
  pub patch_node : Node → Node → E → Option Error × E
  -- pollCacheUpdate
  pub await_update : Node → E → Option Error × E
  -- equality.Semantic.DeepEqual
  pub semantic_equal : Node → Node → Bool

-- The annotations are made before the write, so that it never panics.
abbrev pub annotated : String → Node → Node
annotated text node = record node {
  annotations = made (insert data_annotation_key text (entries node.annotations));
}

abbrev pub data_text : Node → String
data_text node = or_else (get node.annotations data_annotation_key) ""

-- What the reconciler keeps between two requests.
pub record Store (E : Type 0) : Type 0 where
  pub ext : E
  pub cache : NodeInfoCache

-- ctrl.Result{RequeueAfter: …}: none is the empty result. The error is always nil.
abbrev pub Requeue : Type 0
Requeue = Option ℕ

module _ {E : Type 0} where
  abbrev pub with_node : Node → Session E → Session E
  with_node node s = record s { world = record s.world { node = node } }

  unfoldable pub write_data : Codec → Run (Session E) (Option Error)
  write_data json s = elim (json.encode s.data_of) [
    | inl err ↦ (done (some (wrapped "failed to marshal internal data" err)), s)
    | inr text ↦ (done none, with_node (annotated text s.world.node) s)
  ]

  unfoldable pub finish_handling : Codec → Option Error → Run (Frame E) (Option Error)
  unfolding write_data
  finish_handling json (some err) f = (done (some err), f)
  finish_handling json none f = in_session (write_data json) f

  abbrev pub loaded : Data → Frame E → Frame E
  loaded d f = record f { session = record f.session { data_of = d } }

  unfoldable pub handle_data :
      Platform E → Config E → Codec → Error ⊎ Data → Run (Frame E) (Option Error)
  unfolding finish_handling
  handle_data io config json (inl err) f = (done (some err), f)
  handle_data io config json (inr d) f =
      (do answer ← handle_node io config; finish_handling json answer) (loaded d f)

  -- reconcileInternal
  unfoldable pub reconcile_internal : Platform E → Config E → Codec → Run (Frame E) (Option Error)
  unfolding handle_data
  reconcile_internal io config json f =
      handle_data io config json (parse_data json (data_text f.session.world.node)) f

  abbrev pub frame_of : Node → Store E → Frame E
  frame_of node s = record {
    session = record { data_of = no_data; world = record { node = node; ext = s.ext } };
    cache = s.cache;
  }

  abbrev pub store_of : Frame E → Store E
  store_of f = record { ext = f.session.world.ext; cache = f.cache }

  -- The patch and the wait for the cache; both errors are logged and dropped.
  unfoldable pub patch_and_await : Client E → Node → Node → E → E
  patch_and_await api node unmodified ext =
      (api.await_update node (api.patch_node node unmodified ext).1).1

  -- After reconcileInternal: an error skips the patch.
  unfoldable pub finish_reconcile :
      Client E → Config E → Node → Outcome (Option Error) × Frame E → Outcome Requeue × Store E
  unfolding patch_and_await
  finish_reconcile api config node (panicked, f) = (panicked, store_of f)
  finish_reconcile api config node (done (some err), f) =
      (done (some config.requeue_interval), store_of f)
  finish_reconcile api config node (done none, f) =
      let modified = f.session.world.node in
      if api.semantic_equal modified node
      then (done (some config.requeue_interval), store_of f)
      else (
        done (some config.requeue_interval),
        record (store_of f) { ext = patch_and_await api modified node f.session.world.ext },
      )

  unfoldable pub reconcile_fetched :
      Platform E
      → Client E
      → Codec
      → Config E
      → String
      → (Error ⊎ Node) × E
      → NodeInfoCache
      → Outcome Requeue × Store E
  unfolding finish_reconcile
  reconcile_fetched io api json config name (inl err, ext) cache =
      if is_not_found err
      then (done none, record { ext = ext; cache = delete_node name cache })
      else (done (some config.requeue_interval), record { ext = ext; cache = cache })
  reconcile_fetched io api json config name (inr node, ext) cache =
      finish_reconcile api config node
        (reconcile_internal io config json (frame_of node (record { ext = ext; cache = cache })))

  -- NodeReconciler.Reconcile of the node `name`; `load` is the outcome of reading the configuration.
  unfoldable pub reconcile :
      Platform E → Client E → Codec → Error ⊎ Config E → String → Run (Store E) Requeue
  unfolding reconcile_fetched
  reconcile io api json (inl err) name s = (done none, s)
  reconcile io api json (inr config) name s =
      reconcile_fetched io api json config name (api.get_node name s.ext) s.cache
