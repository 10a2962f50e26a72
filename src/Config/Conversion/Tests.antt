-- ===== src/Config/Conversion/Tests.antt =====
-- Containers of texts, on documents that are their own texts.
use chord_server.Prelude.{refl, [], ◌∷◌, some, Bytes, codes, List}
use chord_server.Config.Yaml.Sample.{texts, text_builder, text_builder-Laws}
use chord_server.Config.Conversion.{LexicalCast, vector_cast, list_cast, map_cast}
use chord_server.Config.Conversion.RoundTrip.{IsKept, sequence_casts-IsKept}
use chord_server.Config.Conversion.Maps.{map_cast-IsKept}

-- boost::lexical_cast between texts.
abbrev text_cast : LexicalCast Bytes
text_cast = record { from_string = some; to_string = some }

abbrev text-IsKept : (s : Bytes) → IsKept texts text_builder text_cast s
text-IsKept s = (s, s, refl, refl, refl)

abbrev two : List Bytes
two = codes "10.0.0.1" ∷ codes "10.0.0.2" ∷ []

sequence_casts-IsKept_example :
    IsKept texts text_builder (vector_cast texts text_builder text_cast) two
    × IsKept texts text_builder (list_cast texts text_builder text_cast) two
sequence_casts-IsKept_example =
    sequence_casts-IsKept texts text_builder text_builder-Laws text_cast two
      (text-IsKept (codes "10.0.0.1"), (text-IsKept (codes "10.0.0.2"), tt))

abbrev hosts : List (Bytes × Bytes)
hosts = (codes "a", codes "10.0.0.1") ∷ (codes "b", codes "10.0.0.2") ∷ []

map_cast-IsKept_example : IsKept texts text_builder (map_cast texts text_builder text_cast) hosts
map_cast-IsKept_example =
    map_cast-IsKept texts text_builder text_builder-Laws text_cast hosts ((refl, tt), (tt, tt))
      (text-IsKept (codes "10.0.0.1"), (text-IsKept (codes "10.0.0.2"), tt))
