-- ===== src/Cache.antt =====
-- cache/cache.go: what the dashboard shows of each node. The mutex makes each method one step.
use maintenance_controller.Base.{String, List, Assoc, insert, erase}
use maintenance_controller.GoTime.{Time}
use maintenance_controller.State.Apply.{ApplyResult}

pub record ProfileResult : Type 0 where
  pub applied : ApplyResult
  pub name : String
  pub state : String

pub record NodeInfo : Type 0 where
  pub node : String
  pub profiles : List ProfileResult
  pub labels : Assoc String
  pub updated : Time

abbrev pub NodeInfoCache : Type 0
NodeInfoCache = Assoc NodeInfo

-- nodeInfoCacheImpl.Update, at the time that it reads
unfoldable pub update : Time → NodeInfo → NodeInfoCache → NodeInfoCache
update now info nodes = insert info.node (record info { updated = now }) nodes

-- nodeInfoCacheImpl.Delete
unfoldable pub delete_node : String → NodeInfoCache → NodeInfoCache
delete_node node nodes = erase node nodes
