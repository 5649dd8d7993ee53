-- ===== src/Factory/Property/RoundTrip/Tests.antt =====
-- A test of properties that are written and read again.
use clyman.Prelude.{pos, arith, ◌≡◌, refl}
use clyman.Outcome.{ok}
use clyman.SortedMap.{int_less, string_less}
use clyman.Json.Tokens.{tokens}
use clyman.Writer.Property.{property_to_json}
use clyman.Factory.Property.{build_property}
use clyman.Factory.Property.RoundTrip.{
  property_json, reread_property, build_property-property_to_json,
}
use clyman.Samples.{floats, brightness}

build_property-property_to_json_example :
    (property_to_json floats brightness (pos 11) ≡ tokens (property_json floats brightness))
    × (build_property floats (property_json floats brightness)
        ≡ ok (reread_property floats brightness))
build_property-property_to_json_example =
    build_property-property_to_json floats brightness (pos 11)
      (
        (
          refl,
          ((1, omega arith, refl), ((5, omega arith, refl), tt)),
          (((refl, refl), tt), (tt, tt)),
        ),
        tt,
      )
      (tt, tt)
