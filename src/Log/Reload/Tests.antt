-- ===== src/Log/Reload/Tests.antt =====
-- Two texts loaded into "logs" one after another, in documents that are their own texts.
use chord_server.Prelude.{none, suc, true, ◌≡◌, refl, [], ◌∷◌, some, Bytes, codes, equal_iff, arith}
use chord_server.Config.Yaml.Sample.{texts, text_builder}
use chord_server.Log.Level.{warn}
use chord_server.Log.World.{ok}
use chord_server.Log.Manager.{LoggerManager, new_manager}
use chord_server.Log.Manager.Safety.{here, new_manager-IsSound}
use chord_server.Log.Definition.{LogDefine}
use chord_server.Log.Definition.Print.{defines_to_string}
use chord_server.Log.Listener.{Site}
use chord_server.Log.Listener.Reached.{Reach-IsKeyed}
use chord_server.Log.Reload.{Logs, init_logs, load_all}
use chord_server.Config.Registry.{Registry, find, lookup_base}
use chord_server.Log.Reload.Documents.{
  Others, load_document, LoadsMembers, load_document-LoadsMembers,
}
use chord_server.Log.Reload.Follows.{Follows, load_all-Follows, init_logs-Follows}

abbrev site : Site
site = record {
  sys = record { now = 0; strftime = λ f t. f; can_open = λ p. true; fails_at = λ p t. none };
  thread_id = 1;
  fiber_id = 0;
  last_time = λ i. 0;
  what = λ text. codes "bad conversion";
  type_name = codes "string";
}

abbrev start : LoggerManager
start = new_manager (λ p. [])

abbrev fresh : Logs
fresh = record { var = init_logs; manager = ok start }

fresh-Follows : Follows fresh
fresh-Follows =
    init_logs-Follows start (new_manager-IsSound (λ p. [])) (Reach-IsKeyed (λ p. []) here)

abbrev one_define : LogDefine
one_define = record {
  name = codes "system";
  level = warn;
  formatter = codes "%m%n";
  appenders = record { type = 2; level = warn; formatter = []; file = [] } ∷ [];
}

abbrev one_text : Bytes
one_text = defines_to_string texts text_builder (one_define ∷ [])

load_all-Follows_example :
    Follows (load_all texts text_builder fresh ((site, one_text) ∷ (site, []) ∷ []))
load_all-Follows_example =
    load_all-Follows texts text_builder fresh ((site, one_text) ∷ (site, []) ∷ []) fresh-Follows

-- A document with the one member "logs", and a registry with the one variable.
abbrev whole_document : Bytes
whole_document = text_builder.assign [] (codes "logs") one_text

abbrev only_logs : Registry
only_logs = record {
  table = (codes "logs", record { place = 3; type_id = 5 }) ∷ [];
  own_name = λ i. codes "logs";
  next = 4;
}

only_logs-at : (name : Bytes) → lookup_base only_logs name ≡ some 3 → name ≡ codes "logs"
unfolding lookup_base find
only_logs-at name e = ground (arith, equal_iff (codes "logs") name)

-- Another variable, whose listeners have nothing to do with the loggers.
abbrev unrelated : Others
unrelated var t l = l

load_document-LoadsMembers_example :
    LoadsMembers texts text_builder unrelated 3 site fresh whole_document (
      load_document texts text_builder unrelated
        (suc (texts.depth whole_document))
        only_logs
        3
        site
        fresh
        whole_document)
unfolding lookup_base find
load_document-LoadsMembers_example =
    load_document-LoadsMembers texts text_builder unrelated (suc (texts.depth whole_document))
      only_logs 3 site fresh whole_document (omega arith) refl only_logs-at (λ v t k h. h)
      fresh-Follows
