-- ===== src/Json.antt =====
-- JSON values as the program meets them (rapidjson's document and its writer), and the helpers of
-- src/app/include/clyman_utils.h that read and write them. Parsing text is rapidjson's: a request
-- brings a parsed value or a parse error.
mod Value
pub mod Read
pub mod Write
pub mod Tokens
pub use Value.{
  Json, Items, Members, null, bool, int, wide, double, string, array, object, nil, cons, end,
  member, Parsed, parse_error, document,
}
unfoldable pub use Value.{
  elements, members, items, fields, is_object, is_array, is_string, is_number, find_member,
}
pub use Value.{elements-items, members-fields}
