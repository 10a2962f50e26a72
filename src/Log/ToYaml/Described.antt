-- ===== src/Log/ToYaml/Described.antt =====
-- What the manager's toYamlString writes is read as a set of definitions of its loggers.
use chord_server.Prelude.{List, map}
use chord_server.Config.Yaml.{Yaml, Builder, Laws}
use chord_server.Log.World.{World}
use chord_server.Log.Manager.{LoggerMap}
use chord_server.Log.Definition.{LogDefines}
use chord_server.Log.Definition.Order as Order
use chord_server.Log.ToYaml.Nodes.{described, logger_node}

abbrev pub all_described : World → LoggerMap → LogDefines
all_described w = map (λ e. described w (w.logger e.1))

module _ (yaml : Yaml) (b : Builder yaml) (y : Laws yaml b) where
  open yaml use {Node, text}
  open b use {items, get, load, null, of_text, push_back, assign}

  abbrev logger_nodes : World → LoggerMap → List Node
  logger_nodes w = map (λ e. logger_node yaml b y w (w.logger e.1))
