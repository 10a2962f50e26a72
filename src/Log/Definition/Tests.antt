-- ===== src/Log/Definition/Tests.antt =====
-- Two loggers that are written and read back.
use chord_server.Prelude.{◌≡◌, refl, [], ◌∷◌, some, codes}
use chord_server.Config.Yaml.Sample.{texts, text_builder, text_builder-Laws}
use chord_server.Log.Level.{unknown, error, warn}
use chord_server.Log.Definition.{
  LogAppenderDefine, LogDefine, LogDefines, new_appender_define, defines_from_string,
}
use chord_server.Log.Definition.Print.{defines_to_string}
use chord_server.Log.Definition.Written.{kept}
use chord_server.Log.Definition.RoundTrip.{defines_from_string-defines_to_string}

abbrev to_file : LogAppenderDefine
to_file = record { type = 1; level = error; formatter = codes "%m%n"; file = codes "a.txt" }

abbrev root_define : LogDefine
root_define = record {
  name = codes "root";
  level = warn;
  formatter = [];
  appenders = to_file ∷ record new_appender_define { type = 2 } ∷ [];
}

abbrev system_define : LogDefine
system_define = record {
  name = codes "system";
  level = unknown;
  formatter = codes "%d%T%m%n";
  appenders = [];
}

abbrev two : LogDefines
two = root_define ∷ system_define ∷ []

defines_from_string-defines_to_string_example :
    defines_from_string texts text_builder (defines_to_string texts text_builder two)
    ≡ some (kept root_define ∷ kept system_define ∷ [])
defines_from_string-defines_to_string_example =
    defines_from_string-defines_to_string texts text_builder text_builder-Laws two
      ((refl, tt), (tt, tt))
